-- ===== src/Replay/Reload.antt =====
-- Entries that have been read are read as they are, and so is the index that `add` writes.
use mathlib.Core.Path.{subst}
use taint_forge_io_t.Prelude.{
  All, All-append, Bool, Bool-cases, List, Text, [], ap, arith, both-true, false, if◌then◌else◌,
  inl, inr, insert, keep, not, refl, some, sort, sym, text_eq, text_eq_refl, text_eq→eq, true, ◌&&◌,
  ◌++◌, ◌∙◌, ◌∷◌, ◌≡◌,
}
use taint_forge_io_t.Replay.Request.{ReplayEntry}
use taint_forge_io_t.Replay.Store.{entry_le, find_entry, has_id, text_le, updated}

-- `find_entry` on the index that `add` writes.
-- Two tests of which at most one holds can be made in either order.
swap_tests :
    {A : Type 0} (a b : Bool) (x y o : A)
    → (a && b) ≡ false
    → (if b then y else (if a then x else o)) ≡ (if a then x else (if b then y else o))
swap_tests a b x y o h = ground arith

same_test :
    {A : Type 0} (a b : Bool) (x y o : A)
    → b ≡ a
    → (if a then x else o) ≡ (if a then x else (if b then y else o))
same_test a b x y o h = ground arith

module _ (id : Text) where
  text_le_refl : (s : Text) → text_le s s ≡ true
  text_le_refl [] = refl
  text_le_refl (a ∷ s) = ground (arith, text_le_refl s)

  entry_le_same : (e x : ReplayEntry) → e.entry_id ≡ x.entry_id → entry_le e x ≡ true
  entry_le_same e x h = subst (λ u. text_le e.entry_id u ≡ true) h (text_le_refl e.entry_id)

  not_same_id :
      (e x : ReplayEntry) → ¬ (e.entry_id ≡ x.entry_id) → (has_id id e && has_id id x) ≡ false
  not_same_id e x apart = elim (Bool-cases (has_id id e && has_id id x)) [
    | inr h ↦ h
    | inl h ↦
        let both = both-true (has_id id e) (has_id id x) h in
        absurd (apart (text_eq→eq e.entry_id id both.0 ∙ sym (text_eq→eq x.entry_id id both.1)))
  ]

  -- An entry goes in front of the others of its id.
  find_entry-insert :
      (e : ReplayEntry) (es : List ReplayEntry)
      → find_entry id (insert entry_le e es) ≡ (if has_id id e then some e else find_entry id es)
  unfolding insert
  find_entry-insert e [] = refl
  find_entry-insert e (x ∷ es) = elim (Bool-cases (entry_le e x)) [
    | inl before ↦ rw before refl
    | inr behind ↦ rw behind (
        rw (find_entry-insert e es) (
          swap_tests (has_id id e) (has_id id x) (some e) (some x) (find_entry id es)
            (not_same_id e x (λ h. ground (arith, behind, entry_le_same e x h)))))
  ]

  find_entry-sort : (es : List ReplayEntry) → find_entry id (sort entry_le es) ≡ find_entry id es
  unfolding sort
  find_entry-sort [] = refl
  find_entry-sort (e ∷ es) = find_entry-insert e (sort entry_le es) ∙ rw (find_entry-sort es) refl

  find_entry-append :
      (entry : ReplayEntry) (es : List ReplayEntry)
      → find_entry id (keep (λ e. not (has_id entry.entry_id e)) es ++ entry ∷ [])
        ≡ (if has_id id entry then some entry else find_entry id es)
  find_entry-append entry [] = refl
  find_entry-append entry (e ∷ es) = elim (Bool-cases (has_id entry.entry_id e)) [
    | inl same ↦
        rw (same, find_entry-append entry es)
          (same_test (has_id id entry) (has_id id e) (some entry) (some e) (find_entry id es)
            (ap (λ u. text_eq u id) (text_eq→eq e.entry_id entry.entry_id same)))
    | inr apart ↦
        rw (apart, find_entry-append entry es)
          (swap_tests (has_id id entry) (has_id id e) (some entry) (some e) (find_entry id es) (
            not_same_id entry e (λ h.
              ground
                (arith, apart, text_eq_refl entry.entry_id, ap (λ u. text_eq u entry.entry_id) h))))
  ]

  pub find_entry-updated :
      (entry : ReplayEntry) (es : List ReplayEntry)
      → find_entry id (updated entry es)
        ≡ (if has_id id entry then some entry else find_entry id es)
  unfolding updated
  find_entry-updated entry es =
      find_entry-sort (keep (λ e. not (has_id entry.entry_id e)) es ++ entry ∷ [])
      ∙ find_entry-append entry es

All-keep :
    (P : ReplayEntry → Type 0) (p : ReplayEntry → Bool) (es : List ReplayEntry)
    → All P es
    → All P (keep p es)
All-keep P p [] h = tt
All-keep P p (e ∷ es) h = elim (Bool-cases (p e)) [
  | inl k ↦ rw k (h.0, All-keep P p es h.1)
  | inr k ↦ rw k (All-keep P p es h.1)
]

All-insert :
    (P : ReplayEntry → Type 0) (e : ReplayEntry) (es : List ReplayEntry)
    → P e
    → All P es
    → All P (insert entry_le e es)
unfolding insert
All-insert P e [] h hs = (h, tt)
All-insert P e (x ∷ es) h hs = elim (Bool-cases (entry_le e x)) [
  | inl k ↦ rw k (h, hs)
  | inr k ↦ rw k (hs.0, All-insert P e es h hs.1)
]

All-sort : (P : ReplayEntry → Type 0) (es : List ReplayEntry) → All P es → All P (sort entry_le es)
unfolding sort
All-sort P [] h = tt
All-sort P (e ∷ es) h = All-insert P e (sort entry_le es) h.0 (All-sort P es h.1)

pub All-updated :
    (P : ReplayEntry → Type 0) (entry : ReplayEntry) (es : List ReplayEntry)
    → P entry
    → All P es
    → All P (updated entry es)
unfolding updated
All-updated P entry es h hs =
    All-sort P (keep (λ e. not (has_id entry.entry_id e)) es ++ entry ∷ []) (
      All-append P (keep (λ e. not (has_id entry.entry_id e)) es) (entry ∷ [])
        (All-keep P (λ e. not (has_id entry.entry_id e)) es hs) (h, tt))
