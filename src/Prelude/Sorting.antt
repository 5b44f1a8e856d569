-- ===== src/Prelude/Sorting.antt =====
-- Python's `sorted`: a stable sort, by insertion, for a Boolean order; and the order of tuples of
-- texts, which are compared by code points.
use Prim.Native.String.{String, compare}
use mathlib.Core.Path.{◌≡◌}
use mathlib.Core.Bool.{Bool, true, false}
use mathlib.Core.List.{List, [], ◌∷◌, Perm}
use mathlib.Core.List.Perm
use mathlib.Core.Logic.{inl, inr}
use text.Mathlib.Text.{◌==◌, is_lt}
use taint_forge_io_t.Prelude.Tests.{if◌then◌else◌, Bool-cases}

abbrev pub text_lt : String → String → Bool
text_lt a b = is_lt (compare a b)

-- `a <= b` on tuples of texts.
abbrev pub texts_le : List String → List String → Bool
texts_le [] bs = true
texts_le (a ∷ as') [] = false
texts_le (a ∷ as') (b ∷ bs) =
    let rest = texts_le as' bs in if text_lt a b then true else if a == b then rest else false

module _ {ℓ} {A : Type ℓ} (le : A → A → Bool) where
  unfoldable pub insert : A → List A → List A
  insert x [] = x ∷ []
  insert x (y ∷ ys) = let rest = insert x ys in if le x y then x ∷ y ∷ ys else y ∷ rest

  unfoldable pub sort : List A → List A
  unfolding insert
  sort [] = []
  sort (x ∷ xs) = insert x (sort xs)

  insert-perm : (x : A) (ys : List A) → Perm (insert x ys) (x ∷ ys)
  unfolding insert
  insert-perm x [] = Perm.refl (x ∷ [])
  insert-perm x (y ∷ ys) = elim (Bool-cases (le x y)) [
    | inl before ↦ rw before (Perm.refl (x ∷ y ∷ ys))
    | inr after ↦ rw after (Perm.trans (Perm.cons y (insert-perm x ys)) (Perm.swap x y ys))
  ]

  -- The result holds the same elements, each as often.
  pub sort-perm : (xs : List A) → Perm (sort xs) xs
  unfolding sort
  sort-perm [] = Perm.refl []
  sort-perm (x ∷ xs) = Perm.trans (insert-perm x (sort xs)) (Perm.cons x (sort-perm xs))

  -- `R` holds between an element and each one behind it.
  abbrev pub FirstIn {κ} : (A → A → Type κ) → A → List A → Type κ
  FirstIn R x [] = Unit
  FirstIn R x (y ∷ ys) = R x y × FirstIn R x ys

  abbrev pub IsSorted {κ} : (A → A → Type κ) → List A → Type κ
  IsSorted R [] = Unit
  IsSorted R (x ∷ xs) = FirstIn R x xs × IsSorted R xs

  -- The order need not be the relation: a key of the order serves, such as its first component.
  module _ {κ} (R : A → A → Type κ) (before : (x y : A) → le x y ≡ true → R x y)
      (behind : (x y : A) → le x y ≡ false → R y x)
      (trans : (x y z : A) → R x y → R y z → R x z) where
    FirstIn-insert : (z x : A) (ys : List A) → R z x → FirstIn R z ys → FirstIn R z (insert x ys)
    unfolding insert
    FirstIn-insert z x [] h f = (h, tt)
    FirstIn-insert z x (y ∷ ys) h f = elim (Bool-cases (le x y)) [
      | inl p ↦ rw p (h, f)
      | inr p ↦ rw p (f.0, FirstIn-insert z x ys h f.1)
    ]

    FirstIn-trans : (x y : A) (ys : List A) → R x y → FirstIn R y ys → FirstIn R x ys
    FirstIn-trans x y [] h f = tt
    FirstIn-trans x y (z ∷ zs) h f = (trans x y z h f.0, FirstIn-trans x y zs h f.1)

    insert-IsSorted : (x : A) (ys : List A) → IsSorted R ys → IsSorted R (insert x ys)
    unfolding insert
    insert-IsSorted x [] s = (tt, tt)
    insert-IsSorted x (y ∷ ys) s = elim (Bool-cases (le x y)) [
      | inl p ↦ rw p ((before x y p, FirstIn-trans x y ys (before x y p) s.0), s)
      | inr p ↦ rw p (FirstIn-insert y x ys (behind x y p) s.0, insert-IsSorted x ys s.1)
    ]

    pub sort-IsSorted : (xs : List A) → IsSorted R (sort xs)
    unfolding sort
    sort-IsSorted [] = tt
    sort-IsSorted (x ∷ xs) = insert-IsSorted x (sort xs) (sort-IsSorted xs)
