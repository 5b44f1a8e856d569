-- ===== src/Extraction/Directories.antt =====
-- The missing directories among the extracted requirements: the planner repairs only these by itself.
use mathlib.Core.Path.{subst}
use taint_forge_io_t.Extraction.Syscalls.{
  PathEvent, additions_from, at_path, connect_addition, connect_to, event_additions, event_of,
  executes, extract_syscall_requirements, first_of, is_errno, is_event, is_selected, is_text,
  later_path, looks_up, makes_directory, missing_path, network_failure_errnos, optional_if,
  optional_list, optional_one_of, optional_string, path_event, unsupported_addition,
}
use taint_forge_io_t.Extraction.Table.{
  Addition, ExtractionConfig, MutableRequirement, RequirementKey, RequirementTable, add_requirement,
  add_requirements, find_requirement, key_eq, key_of, merge_status, or_else,
}
use taint_forge_io_t.Prelude.{
  All, All-append, Bool, Bool-cases, Fields, Json, List, Option, Text, [], arith, both-true, codes,
  false, get, if◌then◌else◌, inl, inr, keep, none, not, refl, some, some-inj, suc, text_eq, true, ℕ,
  ℤ, ◌&&◌, ◌++◌, ◌||◌, ◌∷◌, ◌≡◌,
}
use taint_forge_io_t.Repair.Plan.{RequirementKind, RequirementStatus, filesystem, unmet}

abbrev pub is_filesystem : RequirementKind → Bool
is_filesystem filesystem = true
is_filesystem _ = false

abbrev pub is_unmet_status : RequirementStatus → Bool
is_unmet_status unmet = true
is_unmet_status _ = false

-- A missing directory is an unmet, repairable path of the file system that was looked up in vain.
abbrev is_sound : Text → RequirementKind → RequirementStatus → Option Text → Bool → Bool
is_sound operation kind status errno repairable =
    not (text_eq operation (codes "directory_exists"))
    || (is_filesystem kind && is_unmet_status status && is_errno errno "ENOENT" && repairable)

abbrev IsSoundAddition : Addition → Type 0
IsSoundAddition a = is_sound a.operation a.kind a.status a.errno a.repairable ≡ true

abbrev IsSound : MutableRequirement → Type 0
IsSound m = is_sound m.operation m.kind m.status m.errno m.repairable ≡ true

abbrev OnSome : Option Addition → Type 0
OnSome none = Unit
OnSome (some a) = IsSoundAddition a

OnSome-first_of : (x y : Option Addition) → OnSome x → OnSome y → OnSome (first_of x y)
OnSome-first_of none y hx hy = hy
OnSome-first_of (some a) y hx hy = hx

still_unmet : (s t : RequirementStatus) → is_unmet_status s ≡ true → merge_status s t ≡ s
still_unmet s t h = ground (arith, h)

still_errno : (e f : Option Text) → is_errno e "ENOENT" ≡ true → or_else e f ≡ e
still_errno none f h = ground (arith, h)
still_errno (some t) f h = refl

still_sound :
    (kind : RequirementKind) (s t : RequirementStatus) (e f : Option Text) (r q : Bool)
    → (is_filesystem kind && is_unmet_status s && is_errno e "ENOENT" && r) ≡ true
    → (is_filesystem kind
        && is_unmet_status (merge_status s t)
        && is_errno (or_else e f) "ENOENT"
        && (r || q))
      ≡ true
still_sound kind s t e f r q h =
    let a = both-true (is_filesystem kind && is_unmet_status s && is_errno e "ENOENT") r h in
    let b = both-true (is_filesystem kind && is_unmet_status s) (is_errno e "ENOENT") a.0 in
    let c = both-true (is_filesystem kind) (is_unmet_status s) b.0 in
    rw (still_unmet s t c.1, still_errno e f b.1, c.0, c.1, b.1, a.1) refl

merged-IsSound :
    (operation : Text) (kind : RequirementKind) (s t : RequirementStatus) (e f : Option Text)
    (r q : Bool)
    → is_sound operation kind s e r ≡ true
    → is_sound operation kind (merge_status s t) (or_else e f) (r || q) ≡ true
merged-IsSound operation kind s t e f r q h =
    elim (Bool-cases (text_eq operation (codes "directory_exists"))) [
      | inr a ↦ rw a refl
      | inl a ↦
          let h' : (is_filesystem kind && is_unmet_status s && is_errno e "ENOENT" && r) ≡ true =
            subst
              (λ b.
                (not b || (is_filesystem kind && is_unmet_status s && is_errno e "ENOENT" && r))
                ≡ true)
              a h in
          rw a (still_sound kind s t e f r q h')
    ]

missing_path-OnSome : (e : PathEvent) → is_errno e.errno "ENOENT" ≡ true → OnSome (missing_path e)
missing_path-OnSome e h = elim (Bool-cases (makes_directory e)) [
  | inl a ↦ rw (a, h) refl
  | inr a ↦ elim (Bool-cases (executes e)) [
    | inl b ↦ rw (a, b) refl
    | inr b ↦ elim (Bool-cases (looks_up e)) [ inl c ↦ rw (a, b, c) refl | inr c ↦ rw (a, b, c) tt ]
  ]
]

OnSome-optional_if : (b : Bool) (a : Addition) → IsSoundAddition a → OnSome (optional_if b a)
OnSome-optional_if true a h = h
OnSome-optional_if false a h = tt

All-optional_list : (o : Option Addition) → OnSome o → All IsSoundAddition (optional_list o)
All-optional_list none h = tt
All-optional_list (some a) h = (h, tt)

AllSound : RequirementTable → Type 0
AllSound table = All (λ (p : RequirementKey × MutableRequirement). IsSound p.1) table

add_requirement-AllSound :
    (config : ExtractionConfig) (a : Addition) (table : RequirementTable)
    → IsSoundAddition a
    → AllSound table
    → AllSound (add_requirement config a table)
unfolding AllSound add_requirement
add_requirement-AllSound config a [] ha h = (ha, tt)
add_requirement-AllSound config a ((j, m) ∷ table) ha h = elim (Bool-cases (key_eq j (key_of a))) [
  | inl same ↦ rw same (
    merged-IsSound m.operation m.kind m.status a.status m.errno a.errno m.repairable a.repairable
        h.0,
    h.1,
  )
  | inr apart ↦ rw apart (h.0, add_requirement-AllSound config a table ha h.1)
]

add_requirements-AllSound :
    (config : ExtractionConfig) (as' : List Addition) (table : RequirementTable)
    → All IsSoundAddition as'
    → AllSound table
    → AllSound (add_requirements config as' table)
unfolding add_requirements
add_requirements-AllSound config [] table ha h = h
add_requirements-AllSound config (a ∷ as') table ha h =
    add_requirements-AllSound config as' (add_requirement config a table) ha.1
      (add_requirement-AllSound config a table ha.0 h)

AllSound-find :
    (k : RequirementKey) (table : RequirementTable) (m : MutableRequirement)
    → AllSound table
    → find_requirement k table ≡ some m
    → IsSound m
unfolding AllSound
AllSound-find k [] m h f = cc
AllSound-find k ((j, n) ∷ table) m h f = elim (Bool-cases (key_eq j k)) [
  | inl same ↦
      subst IsSound
        (some-inj (subst (λ b. (if b then some n else find_requirement k table) ≡ some m) same f))
        h.0
  | inr apart ↦
      AllSound-find k table m h.1
        (subst (λ b. (if b then some n else find_requirement k table) ≡ some m) apart f)
]

sound-directory :
    (m : MutableRequirement)
    → IsSound m
    → text_eq m.operation (codes "directory_exists") ≡ true
    → (is_filesystem m.kind ≡ true)
      × (is_unmet_status m.status ≡ true)
      × (is_errno m.errno "ENOENT" ≡ true)
      × (m.repairable ≡ true)
sound-directory m h o =
    let all' : (is_filesystem m.kind
          && is_unmet_status m.status
          && is_errno m.errno "ENOENT"
          && m.repairable)
        ≡ true =
      subst
        (λ b.
          (not b
            || (is_filesystem m.kind
                && is_unmet_status m.status
                && is_errno m.errno "ENOENT"
                && m.repairable))
          ≡ true)
        o h in
    let a =
      both-true (is_filesystem m.kind && is_unmet_status m.status && is_errno m.errno "ENOENT")
        m.repairable all' in
    let b =
      both-true (is_filesystem m.kind && is_unmet_status m.status) (is_errno m.errno "ENOENT")
        a.0 in
    let c = both-true (is_filesystem m.kind) (is_unmet_status m.status) b.0 in (c.0, c.1, b.1, a.1)

module _ (str_of : Json → Text) (int_of : Json → Option ℤ) (open_flags : Text → List Text)
    (sorted_texts : List Text → List Text) (decimal : ℤ → Text) where
  later_path-OnSome :
      (e : PathEvent) → OnSome (later_path str_of int_of open_flags sorted_texts decimal e)
  later_path-OnSome e = elim (Bool-cases (is_errno e.errno "EACCES" || is_errno e.errno "EPERM")) [
    | inl a ↦ rw a refl
    | inr a ↦ elim (Bool-cases (is_errno e.errno "EROFS")) [
      | inl b ↦ rw (a, b) refl
      | inr b ↦ elim (Bool-cases (is_errno e.errno "ENOTDIR")) [
        | inl c ↦ rw (a, b, c) refl
        | inr c ↦ elim (Bool-cases (is_errno e.errno "ENODEV" || is_errno e.errno "ENXIO")) [
          | inl d ↦ rw (a, b, c, d) refl
          | inr d ↦ rw (a, b, c, d) (OnSome-optional_if _ _ refl)
        ]
      ]
    ]
  ]

  path_event-OnSome :
      (e : PathEvent) → OnSome (path_event str_of int_of open_flags sorted_texts decimal e)
  unfolding path_event
  path_event-OnSome e = elim (Bool-cases (is_errno e.errno "ENOENT")) [
    | inl h ↦ rw h (
        OnSome-first_of (missing_path e)
          (later_path str_of int_of open_flags sorted_texts decimal e) (missing_path-OnSome e h)
          (later_path-OnSome e))
    | inr h ↦ rw h (later_path-OnSome e)
  ]

  at_path-OnSome :
      (config : ExtractionConfig) (event : Fields) (i : ℕ) (behind : List Fields) (o : Option Text)
      → OnSome (at_path str_of int_of open_flags sorted_texts decimal config event i behind o)
  at_path-OnSome config event i behind none = tt
  at_path-OnSome config event i behind (some path) = path_event-OnSome _

  connect_to-OnSome :
      (e : PathEvent) (ip : Option Text) (port : Option ℤ)
      → OnSome (connect_to str_of int_of open_flags sorted_texts decimal e ip port)
  connect_to-OnSome e (some ip) (some port) = refl
  connect_to-OnSome e none port = tt
  connect_to-OnSome e (some ip) none = tt

  connect_addition-OnSome :
      (e : PathEvent) (event : Fields)
      → OnSome (connect_addition str_of int_of open_flags sorted_texts decimal e event)
  connect_addition-OnSome e event =
      elim (Bool-cases
        (is_text e.syscall "connect" && optional_one_of e.errno network_failure_errnos)) [
          | inl h ↦ rw h (connect_to-OnSome e _ _)
          | inr h ↦ rw h tt
        ]

  event_additions-IsSound :
      (config : ExtractionConfig) (event : Fields) (i : ℕ) (behind : List Fields)
      → All IsSoundAddition
          (event_additions str_of int_of open_flags sorted_texts decimal config event i behind)
  event_additions-IsSound config event i behind =
      let e = event_of str_of int_of open_flags sorted_texts decimal config event i behind [] in
      let p =
        at_path str_of int_of open_flags sorted_texts decimal config event i behind
          (optional_string str_of int_of open_flags sorted_texts decimal (get "path" event)) in
      let c = connect_addition str_of int_of open_flags sorted_texts decimal e event in
      let u =
        optional_if (is_errno e.errno "ENOSYS")
          (unsupported_addition str_of int_of open_flags sorted_texts decimal e) in
      elim (Bool-cases (is_event str_of int_of open_flags sorted_texts decimal "signal" event)) [
        | inl s ↦ rw s (refl, tt)
        | inr s ↦
            elim (Bool-cases
              (is_event str_of int_of open_flags sorted_texts decimal "syscall" event)) [
                | inr t ↦ rw (s, t) tt
                | inl t ↦
                    rw (s, t)
                      (All-append IsSoundAddition (optional_list u)
                        (optional_list p ++ optional_list c)
                        (All-optional_list u (OnSome-optional_if _ _ refl))
                        (All-append IsSoundAddition (optional_list p) (optional_list c)
                          (All-optional_list p (at_path-OnSome config event i behind _))
                          (All-optional_list c (connect_addition-OnSome e event))))
              ]
      ]

  additions_from-IsSound :
      (config : ExtractionConfig) (i : ℕ) (events : List Fields)
      → All IsSoundAddition
          (additions_from str_of int_of open_flags sorted_texts decimal config i events)
  unfolding additions_from
  additions_from-IsSound config i [] = tt
  additions_from-IsSound config i (event ∷ behind) =
      All-append IsSoundAddition
        (event_additions str_of int_of open_flags sorted_texts decimal config event i behind)
        (additions_from str_of int_of open_flags sorted_texts decimal config (suc i) behind)
        (event_additions-IsSound config event i behind)
        (additions_from-IsSound config (suc i) behind)

  -- Every directory_exists requirement that is extracted from system calls is an unmet, repairable
  -- requirement of the file system, with the errno ENOENT.
  pub extract_syscall_requirements-directory :
      (config : ExtractionConfig) (events : List Fields) (k : RequirementKey)
      (m : MutableRequirement)
      → find_requirement k
          (extract_syscall_requirements str_of int_of open_flags sorted_texts decimal config events)
        ≡ some m
      → text_eq m.operation (codes "directory_exists") ≡ true
      → (is_filesystem m.kind ≡ true)
        × (is_unmet_status m.status ≡ true)
        × (is_errno m.errno "ENOENT" ≡ true)
        × (m.repairable ≡ true)
  unfolding extract_syscall_requirements AllSound
  extract_syscall_requirements-directory config events k m f o =
      let selected =
        keep (is_selected str_of int_of open_flags sorted_texts decimal config) events in
      let as' = additions_from str_of int_of open_flags sorted_texts decimal config 0 selected in
      sound-directory m
        (AllSound-find k (add_requirements config as' []) m
          (add_requirements-AllSound config as' [] (additions_from-IsSound config 0 selected) tt) f)
        o
