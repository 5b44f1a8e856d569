-- ===== src/Replay/Normal.antt =====
-- The normal forms of the parts of a request are their own normal forms.
use mathlib.Core.Path.{subst}
use taint_forge_io_t.Prelude.{
  Bool, Bool-cases, Option, Text, [], all, ap, arith, codes, drop_while, false, inl, inr, is_hex,
  is_space, keep_before, length, lower, lower_code, lower_idem, ltb, none, ok, ok-inj, refl,
  refuse-passed, require-passed, rstrip, some, strip, suc, text_in, true, ℕ, ℤ, ◌∙◌, ◌∷◌, ◌≡◌,
}
use taint_forge_io_t.Replay.Request.{
  in_range, normalize_port, normalize_protocol_hint, normalize_transport, short_hint,
}

drop_while_idem : (p : ℕ → Bool) (s : Text) → drop_while p (drop_while p s) ≡ drop_while p s
unfolding drop_while
drop_while_idem p [] = refl
drop_while_idem p (c ∷ s) = elim (Bool-cases (p c)) [
  | inl e ↦ rw e (drop_while_idem p s)
  | inr e ↦ rw (e, e) refl
]

keep_before_idem :
    (p : ℕ → Bool) (c : ℕ) (r : Text)
    → rstrip p r ≡ r
    → rstrip p (keep_before p c r) ≡ keep_before p c r
unfolding rstrip
keep_before_idem p c [] h = elim (Bool-cases (p c)) [ inl e ↦ rw e refl | inr e ↦ rw (e, e) refl ]
keep_before_idem p c (d ∷ r) h = rw h refl

rstrip_idem : (p : ℕ → Bool) (s : Text) → rstrip p (rstrip p s) ≡ rstrip p s
unfolding rstrip
rstrip_idem p [] = refl
rstrip_idem p (c ∷ s) = keep_before_idem p c (rstrip p s) (rstrip_idem p s)

-- Where the first code stays, it stays in front.
drop_while-rstrip :
    (p : ℕ → Bool) (s : Text) → drop_while p (rstrip p (drop_while p s)) ≡ rstrip p (drop_while p s)
unfolding drop_while rstrip
drop_while-rstrip p [] = refl
drop_while-rstrip p (c ∷ s) = elim (Bool-cases (p c)) [
  | inl e ↦ rw e (drop_while-rstrip p s)
  | inr e ↦ rw e (front c (rstrip p s) e)
]
  where
    front : (c : ℕ) (r : Text) → p c ≡ false → drop_while p (keep_before p c r) ≡ keep_before p c r
    front c [] e = rw (e, e) refl
    front c (d ∷ r) e = rw e refl

strip_idem : (s : Text) → strip (strip s) ≡ strip s
unfolding strip
strip_idem s =
    ap (rstrip is_space) (drop_while-rstrip is_space s)
    ∙ rstrip_idem is_space (drop_while is_space s)

is_space-lower_code : (c : ℕ) → is_space (lower_code c) ≡ is_space c
is_space-lower_code c = ground arith

drop_while-lower : (s : Text) → drop_while is_space (lower s) ≡ lower (drop_while is_space s)
unfolding drop_while lower
drop_while-lower [] = refl
drop_while-lower (c ∷ s) = elim (Bool-cases (is_space c)) [
  | inl e ↦ rw (is_space-lower_code c, e) (drop_while-lower s)
  | inr e ↦ rw (is_space-lower_code c, e) refl
]

keep_before-lower :
    (c : ℕ) (r : Text)
    → keep_before is_space (lower_code c) (lower r) ≡ lower (keep_before is_space c r)
unfolding lower
keep_before-lower c [] = elim (Bool-cases (is_space c)) [
  | inl e ↦ rw (is_space-lower_code c, e) refl
  | inr e ↦ rw (is_space-lower_code c, e) refl
]
keep_before-lower c (d ∷ r) = refl

rstrip-lower : (s : Text) → rstrip is_space (lower s) ≡ lower (rstrip is_space s)
unfolding rstrip lower
rstrip-lower [] = refl
rstrip-lower (c ∷ s) = rw (rstrip-lower s) (keep_before-lower c (rstrip is_space s))

strip-lower : (s : Text) → strip (lower s) ≡ lower (strip s)
unfolding strip
strip-lower s = ap (rstrip is_space) (drop_while-lower s) ∙ rstrip-lower (drop_while is_space s)

pub lower-strip_idem : (s : Text) → lower (strip (lower (strip s))) ≡ lower (strip s)
lower-strip_idem s =
    ap lower (strip-lower (strip s)) ∙ lower_idem (strip (strip s)) ∙ ap lower (strip_idem s)

pub normalize_transport_again :
    (v t : Text) → normalize_transport v ≡ ok t → normalize_transport t ≡ ok t
unfolding normalize_transport
normalize_transport_again v t h =
    let p = require-passed (text_in (lower (strip v)) (codes "tcp" ∷ codes "udp" ∷ [])) _ _ h in
    subst (λ u. normalize_transport u ≡ ok u) (ok-inj p.1) (rw (lower-strip_idem v, p.0) refl)

pub normalize_port_again : (v w : ℤ) → normalize_port v ≡ ok w → normalize_port w ≡ ok w
normalize_port_again v w h =
    let p = require-passed (in_range 1 65535 v) _ _ h in
    subst (λ u. normalize_port u ≡ ok u) (ok-inj p.1) (rw (p.0) refl)

short_hint_again :
    (v : Text) (o : Option Text)
    → lower (strip v) ≡ v
    → short_hint v ≡ ok o
    → normalize_protocol_hint o ≡ ok o
short_hint_again [] o e h = subst (λ u. normalize_protocol_hint u ≡ ok u) (ok-inj h) refl
short_hint_again (c ∷ s) o e h =
    let p = refuse-passed (ltb 64 (length (c ∷ s))) _ _ h in
    subst (λ u. normalize_protocol_hint u ≡ ok u) (ok-inj p.1) (rw (e, p.0) refl)

pub normalize_protocol_hint_again :
    (v o : Option Text) → normalize_protocol_hint v ≡ ok o → normalize_protocol_hint o ≡ ok o
normalize_protocol_hint_again none o h =
    subst (λ u. normalize_protocol_hint u ≡ ok u) (ok-inj h) refl
normalize_protocol_hint_again (some v) o h =
    short_hint_again (lower (strip v)) o (lower-strip_idem v) h

pub length-lower : (s : Text) → length (lower s) ≡ length s
unfolding lower
length-lower [] = refl
length-lower (c ∷ s) = ap suc (length-lower s)

-- Hexadecimal digits are in lower case.
pub lower-hex : (s : Text) → all is_hex s ≡ true → lower s ≡ s
unfolding lower
lower-hex [] h = refl
lower-hex (c ∷ s) h = ground (arith, lower-hex s)
