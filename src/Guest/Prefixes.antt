-- ===== src/Guest/Prefixes.antt =====
-- Paths with slashes at their end, for the tests on the prefix of a path.
use mathlib.Core.List.{append-nil}
use mathlib.Core.Path.{subst}
use taint_forge_io_t.Guest.Paths.{is_below, is_slash, slash}
use taint_forge_io_t.Prelude.{
  Bool, Bool-cases, Text, [], arith, inl, inr, keep_before, refl, rstrip, sym, text_eq, text_eq→eq,
  text_starts_with, true, ℕ, ◌&&◌, ◌++◌, ◌∷◌, ◌≡◌,
}

abbrev all_slashes : Text → Bool
all_slashes [] = true
all_slashes (c ∷ s) = is_slash c && all_slashes s

-- The text is the stripped one with slashes behind it.
abbrev IsSplit : Text → Text → Type 0
IsSplit s x = (t : Text) × (s ≡ x ++ t) × (all_slashes t ≡ true)

keep_before-IsSplit :
    (c : ℕ) (s x : Text) → IsSplit s x → IsSplit (c ∷ s) (keep_before is_slash c x)
keep_before-IsSplit c s [] (t, e, h) = elim (Bool-cases (is_slash c)) [
  | inl slashed ↦ rw slashed (c ∷ t, cc, ground arith)
  | inr other ↦ rw other (t, cc, h)
]
keep_before-IsSplit c s (d ∷ x) (t, e, h) = (t, cc, h)

rstrip-IsSplit : (s : Text) → IsSplit s (rstrip is_slash s)
unfolding rstrip
rstrip-IsSplit [] = ([], refl, refl)
rstrip-IsSplit (c ∷ s) = keep_before-IsSplit c s (rstrip is_slash s) (rstrip-IsSplit s)

starts_with-append :
    (x t q : Text) → text_starts_with x q ≡ true → text_starts_with (x ++ t) q ≡ true
starts_with-append x t [] h = refl
starts_with-append [] t (d ∷ q) h = ground arith
starts_with-append (c ∷ x) t (d ∷ q) h = ground (arith, starts_with-append x t q)

starts_with_self :
    (c : ℕ) (x t : Text)
    → is_slash c ≡ true
    → text_starts_with (x ++ (c ∷ t)) (x ++ (slash ∷ [])) ≡ true
starts_with_self c [] t h = ground arith
starts_with_self c (d ∷ x) t h = ground (arith, starts_with_self c x t h)

is_below-append :
    (x t prefix : Text)
    → all_slashes t ≡ true
    → is_below x prefix ≡ true
    → is_below (x ++ t) prefix ≡ true
unfolding is_below
is_below-append x [] prefix h b = rw append-nil b
is_below-append x (c ∷ t) prefix h b = elim (Bool-cases (text_eq x prefix)) [
  | inl e ↦
      let ending = starts_with_self c x t (ground arith) in
      rw (← text_eq→eq x prefix e) (ground arith)
  | inr e ↦
      let longer = starts_with-append x (c ∷ t) (prefix ++ (slash ∷ [])) (ground arith) in
      ground arith
]

-- A path that is below a directory without its trailing slashes is below it.
pub is_below-rstrip :
    (s prefix : Text) → is_below (rstrip is_slash s) prefix ≡ true → is_below s prefix ≡ true
is_below-rstrip s prefix b =
    let (t, e, h) = rstrip-IsSplit s in
    subst (λ u. is_below u prefix ≡ true) (sym e) (is_below-append (rstrip is_slash s) t prefix h b)
