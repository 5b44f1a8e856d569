-- ===== src/Prelude/Sets.antt =====
-- Python sets of values compared by a Boolean test, as lists without repetition.
use mathlib.Core.Path.{◌≡◌, refl, ap}
use mathlib.Core.Logic.{◌↔◌, inl, inr}
use mathlib.Core.Bool.{Bool, true, false, ◌||◌}
use mathlib.Core.List.{List, [], ◌∷◌}
use native.Mathlib.Omega.{arith}
use taint_forge_io_t.Prelude.Tests.{if◌then◌else◌, Bool-cases}
use taint_forge_io_t.Prelude.Lists.{length}

module _ {ℓ} {A : Type ℓ} (eq : A → A → Bool) where
  -- `x in xs`
  unfoldable pub contains : A → List A → Bool
  contains x [] = false
  contains x (y ∷ ys) = eq x y || contains x ys

  -- `set(xs)`, in the order of the last occurrences.
  unfoldable pub unique : List A → List A
  unfolding contains
  unique [] = []
  unique (x ∷ xs) = let rest = unique xs in if contains x xs then rest else x ∷ rest

  -- `set(xs) - set(ys)`
  unfoldable pub difference : List A → List A → List A
  unfolding contains
  difference [] ys = []
  difference (x ∷ xs) ys =
      let rest = difference xs ys in
      if contains x xs then rest else if contains x ys then rest else x ∷ rest

  -- All of `xs` is in `ys`.
  abbrev pub Included : List A → List A → Type 0
  Included [] ys = Unit
  Included (x ∷ xs) ys = (contains x ys ≡ true) × Included xs ys

  pub difference-of_Included : (xs ys : List A) → Included xs ys → difference xs ys ≡ []
  unfolding difference
  difference-of_Included [] ys h = refl
  difference-of_Included (x ∷ xs) ys h = ground (arith, difference-of_Included xs ys h.1)

  Included-cons : (x : A) (xs ys : List A) → Included xs ys → Included xs (x ∷ ys)
  unfolding contains
  Included-cons x [] ys h = tt
  Included-cons x (z ∷ zs) ys h = (ground arith, Included-cons x zs ys h.1)

  pub Included-refl : ((x : A) → eq x x ≡ true) → (xs : List A) → Included xs xs
  unfolding contains
  Included-refl eq_refl [] = tt
  Included-refl eq_refl (x ∷ xs) =
      (ground (arith, eq_refl x), Included-cons x xs xs (Included-refl eq_refl xs))

  module _ (eq_iff : (a b : A) → (eq a b ≡ true) ↔ (a ≡ b)) where
    contains-of_Included :
        (x : A) (xs ys : List A) → contains x xs ≡ true → Included xs ys → contains x ys ≡ true
    unfolding contains
    contains-of_Included x [] ys c h = ground arith
    contains-of_Included x (z ∷ zs) ys c h = elim (Bool-cases (eq x z)) [
      | inl same ↦ rw ((eq_iff x z).0 same) h.0
      | inr other ↦ contains-of_Included x zs ys (rw other at c) h.1
    ]

    Included-of_empty : (xs ys : List A) → length (difference xs ys) ≡ 0 → Included xs ys
    unfolding difference
    Included-of_empty [] ys h = tt
    Included-of_empty (x ∷ xs) ys h = elim (Bool-cases (contains x xs)) [
      | inl twice ↦
          let rest = Included-of_empty xs ys (rw twice at h) in
          (contains-of_Included x xs ys twice rest, rest)
      | inr once ↦ elim (Bool-cases (contains x ys)) [
        | inl known ↦ (known, Included-of_empty xs ys (rw (once, known) at h))
        | inr fresh ↦ absurd (ground arith)
      ]
    ]

    -- Nothing is left over exactly when all is included.
    pub difference-empty_iff : (xs ys : List A) → (length (difference xs ys) ≡ 0) ↔ Included xs ys
    difference-empty_iff xs ys =
        (Included-of_empty xs ys, λ h. ap length (difference-of_Included xs ys h))
