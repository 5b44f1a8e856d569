-- ===== src/Extraction/Merged.antt =====
-- What the merging of requirements keeps of all that was added.
use mathlib.Core.List.{Perm, foldr}
use mathlib.Core.List.Perm.{foldr-eq}
use mathlib.Core.Path.{subst}
use taint_forge_io_t.Extraction.Table.{
  Addition, ExtractionConfig, MutableRequirement, RequirementKey, RequirementTable, add_requirement,
  add_requirements, blocking_precedence, find_requirement, key_eq, key_of, kind_rank,
  merge_blocking, merge_status, merged, status_precedence,
}
use taint_forge_io_t.Prelude.{
  Bool, Bool-cases, List, Option, [], ap, arith, both-true, eqb, eqb_iff, false, if◌then◌else◌, inl,
  inr, max, none, refl, some, sym, text_eq, text_eq_refl, text_eq→eq, true, ℕ, ◌&&◌, ◌||◌, ◌∙◌, ◌∷◌,
  ◌≡◌,
}
use taint_forge_io_t.Repair.Plan.{BlockingAssessment, RequirementKind, RequirementStatus}

-- Status and blocking by their precedence, confidence, and whether the requirement is repairable.
pub record Verdict : Type 0 where
  pub status : ℕ
  pub blocking : ℕ
  pub confidence : ℕ
  pub repairable : Bool

abbrev addition_verdict : Addition → Verdict
addition_verdict a = record {
  status = status_precedence a.status;
  blocking = blocking_precedence a.blocking;
  confidence = a.confidence;
  repairable = a.repairable;
}

abbrev pub verdict : Option MutableRequirement → Option Verdict
verdict none = none
verdict (some m) = some record {
  status = status_precedence m.status;
  blocking = blocking_precedence m.blocking;
  confidence = m.confidence;
  repairable = m.repairable;
}

abbrev join_verdicts : Verdict → Verdict → Verdict
join_verdicts v w = record {
  status = max v.status w.status;
  blocking = max v.blocking w.blocking;
  confidence = max v.confidence w.confidence;
  repairable = v.repairable || w.repairable;
}

abbrev combine : Option Verdict → Option Verdict → Option Verdict
combine none w = w
combine (some v) none = some v
combine (some v) (some w) = some (join_verdicts v w)

abbrev contribution : RequirementKey → Addition → Option Verdict
contribution k a = if key_eq (key_of a) k then some (addition_verdict a) else none

-- The greatest of all that was added for a key, in no order.
abbrev pub greatest : RequirementKey → List Addition → Option Verdict
greatest k [] = none
greatest k (a ∷ as') = combine (contribution k a) (greatest k as')

status_merge :
    (a b : RequirementStatus)
    → status_precedence (merge_status a b) ≡ max (status_precedence a) (status_precedence b)
status_merge a b = ground arith

blocking_merge :
    (a b : BlockingAssessment)
    → blocking_precedence (merge_blocking a b) ≡ max (blocking_precedence a) (blocking_precedence b)
blocking_merge a b = ground arith

merged-verdict :
    (config : ExtractionConfig) (m : MutableRequirement) (a : Addition)
    → verdict (some (merged config m a)) ≡ combine (verdict (some m)) (some (addition_verdict a))
merged-verdict config m a =
    rw (status_merge m.status a.status, blocking_merge m.blocking a.blocking) refl

or_comm : (a b : Bool) → (a || b) ≡ (b || a)
or_comm a b = ground arith

or_assoc : (a b c : Bool) → ((a || b) || c) ≡ (a || (b || c))
or_assoc a b c = ground arith

max_comm : (a b : ℕ) → max a b ≡ max b a
max_comm a b = omega arith

max_assoc : (a b c : ℕ) → max (max a b) c ≡ max a (max b c)
max_assoc a b c = omega arith

join_comm : (v w : Verdict) → join_verdicts v w ≡ join_verdicts w v
join_comm v w = cc (
  max_comm v.status w.status,
  max_comm v.blocking w.blocking,
  max_comm v.confidence w.confidence,
  or_comm v.repairable w.repairable,
)

join_assoc :
    (u v w : Verdict) → join_verdicts (join_verdicts u v) w ≡ join_verdicts u (join_verdicts v w)
join_assoc u v w = cc (
  max_assoc u.status v.status w.status,
  max_assoc u.blocking v.blocking w.blocking,
  max_assoc u.confidence v.confidence w.confidence,
  or_assoc u.repairable v.repairable w.repairable,
)

combine_comm : (v w : Option Verdict) → combine v w ≡ combine w v
combine_comm none none = refl
combine_comm none (some w) = refl
combine_comm (some v) none = refl
combine_comm (some v) (some w) = ap some (join_comm v w)

combine_assoc : (u v w : Option Verdict) → combine (combine u v) w ≡ combine u (combine v w)
combine_assoc none v w = refl
combine_assoc (some u) none w = refl
combine_assoc (some u) (some v) none = refl
combine_assoc (some u) (some v) (some w) = ap some (join_assoc u v w)

combine-none : (v : Option Verdict) → combine v none ≡ v
combine-none none = refl
combine-none (some v) = refl

kind_rank-inj : (a b : RequirementKind) → kind_rank a ≡ kind_rank b → a ≡ b
kind_rank-inj a b h = ground arith

key_eq→eq : (k j : RequirementKey) → key_eq k j ≡ true → k ≡ j
key_eq→eq k j h =
    let a =
      both-true (eqb (kind_rank k.0) (kind_rank j.0) && text_eq k.1 j.1) (text_eq k.2 j.2) h in
    let b = both-true (eqb (kind_rank k.0) (kind_rank j.0)) (text_eq k.1 j.1) a.0 in
    cc (
      kind_rank-inj k.0 j.0 ((eqb_iff (kind_rank k.0) (kind_rank j.0)).0 b.0),
      text_eq→eq k.1 j.1 b.1,
      text_eq→eq k.2 j.2 a.1,
    )

key_eq_refl : (k : RequirementKey) → key_eq k k ≡ true
key_eq_refl k =
    rw ((eqb_iff (kind_rank k.0) (kind_rank k.0)).1 refl, text_eq_refl k.1, text_eq_refl k.2) refl

-- Where the entry of the key is another one than that of the addition.
contribution-apart :
    (j k : RequirementKey) (a : Addition)
    → key_eq j (key_of a) ≡ false
    → key_eq j k ≡ true
    → contribution k a ≡ none
contribution-apart j k a apart same = elim (Bool-cases (key_eq (key_of a) k)) [
  | inr h ↦ rw h refl
  | inl h ↦
      let one : j ≡ key_of a = key_eq→eq j k same ∙ sym (key_eq→eq (key_of a) k h) in
      ground (arith, apart, subst (λ u. key_eq j u ≡ true) one (key_eq_refl j))
]

find-add_requirement :
    (config : ExtractionConfig) (k : RequirementKey) (a : Addition) (table : RequirementTable)
    → verdict (find_requirement k (add_requirement config a table))
      ≡ combine (verdict (find_requirement k table)) (contribution k a)
unfolding add_requirement
find-add_requirement config k a [] = elim (Bool-cases (key_eq (key_of a) k)) [
  | inl h ↦ rw h refl
  | inr h ↦ rw h refl
]
find-add_requirement config k a ((j, m) ∷ table) = elim (Bool-cases (key_eq j (key_of a))) [
  | inl same ↦
      let one : key_of a ≡ j = sym (key_eq→eq j (key_of a) same) in
      elim (Bool-cases (key_eq j k)) [
        | inl h ↦
            rw (same, h, subst (λ u. key_eq u k ≡ true) (sym one) h) (merged-verdict config m a)
        | inr h ↦
            rw (same, h, subst (λ u. key_eq u k ≡ false) (sym one) h)
              (sym (combine-none (verdict (find_requirement k table))))
      ]
  | inr apart ↦ elim (Bool-cases (key_eq j k)) [
    | inl h ↦ rw (apart, h, contribution-apart j k a apart h) refl
    | inr h ↦ rw (apart, h) (find-add_requirement config k a table)
  ]
]

find-add_requirements :
    (config : ExtractionConfig) (k : RequirementKey) (as' : List Addition)
    (table : RequirementTable)
    → verdict (find_requirement k (add_requirements config as' table))
      ≡ combine (verdict (find_requirement k table)) (greatest k as')
unfolding add_requirements
find-add_requirements config k [] table = sym (combine-none (verdict (find_requirement k table)))
find-add_requirements config k (a ∷ as') table =
    find-add_requirements config k as' (add_requirement config a table)
    ∙ ap (λ v. combine v (greatest k as')) (find-add_requirement config k a table)
    ∙ combine_assoc (verdict (find_requirement k table)) (contribution k a) (greatest k as')

-- The requirement of a key has, of all that was added for it, the greatest status, blocking and
-- confidence, and is repairable where one addition says so; and there is none without an addition.
pub add_requirements-greatest :
    (config : ExtractionConfig) (k : RequirementKey) (as' : List Addition)
    → verdict (find_requirement k (add_requirements config as' [])) ≡ greatest k as'
add_requirements-greatest config k as' = find-add_requirements config k as' []

exchange :
    (k : RequirementKey) (a b : Addition) (v : Option Verdict)
    → combine (contribution k a) (combine (contribution k b) v)
      ≡ combine (contribution k b) (combine (contribution k a) v)
exchange k a b v =
    sym (combine_assoc (contribution k a) (contribution k b) v)
    ∙ ap (λ u. combine u v) (combine_comm (contribution k a) (contribution k b))
    ∙ combine_assoc (contribution k b) (contribution k a) v

greatest-foldr :
    (k : RequirementKey) (as' : List Addition)
    → greatest k as' ≡ foldr (λ a v. combine (contribution k a) v) none as'
greatest-foldr k [] = refl
greatest-foldr k (a ∷ as') = ap (combine (contribution k a)) (greatest-foldr k as')

Verdicts-set : IsSet (Option Verdict)
Verdicts-set = hlevel

greatest-Perm :
    (k : RequirementKey) {as' bs : List Addition} → Perm as' bs → greatest k as' ≡ greatest k bs
greatest-Perm k {as' = as'} {bs = bs} p =
    greatest-foldr k as'
    ∙ foldr-eq (Verdicts-set) (λ a v. combine (contribution k a) v) (exchange k) p none
    ∙ sym (greatest-foldr k bs)

-- Evidence in another order gives the same verdict on each requirement.
pub add_requirements-Perm :
    (config : ExtractionConfig) (k : RequirementKey) (as' bs : List Addition)
    → Perm as' bs
    → verdict (find_requirement k (add_requirements config as' []))
      ≡ verdict (find_requirement k (add_requirements config bs []))
add_requirements-Perm config k as' bs p =
    add_requirements-greatest config k as'
    ∙ greatest-Perm k p
    ∙ sym (add_requirements-greatest config k bs)
