-- ===== src/Prelude/Errors.antt =====
-- Code that may raise: `E` is the type of the errors of a component.
use mathlib.Core.Path.{◌≡◌, refl}
use mathlib.Core.Bool.{Bool, true, false}
use mathlib.Core.List.{List, [], ◌∷◌}

pub data Result {ℓ} (E : Type 0) (A : Type ℓ) : Type ℓ where
  ok : A → Result E A
  err : E → Result E A

infixl 10 ◌>>=◌ ◌>>◌
abbrev pub ◌>>=◌ {ℓ κ} :
    {E : Type 0} {A : Type ℓ} {B : Type κ} → Result E A → (A → Result E B) → Result E B
ok a >>= f = f a
err e >>= f = err e

abbrev pub ◌>>◌ {ℓ} : {E : Type 0} {B : Type ℓ} → Result E (Unit {0}) → Result E B → Result E B
m >> k = m >>= λ _. k

-- `if not b: raise e`
abbrev pub require : {E : Type 0} → Bool → E → Result E (Unit {0})
require true e = ok tt
require false e = err e

-- `if b: raise e`
abbrev pub refuse : {E : Type 0} → Bool → E → Result E (Unit {0})
refuse true e = err e
refuse false e = ok tt

-- Inversion of a successful bind, for proofs where the parts stay shut.
pub bind-eq-ok {ℓ κ} :
    {E : Type 0} {A : Type ℓ} {B : Type κ} (m : Result E A) (f : A → Result E B) {b : B}
    → (m >>= f) ≡ ok b
    → (a : A) × (m ≡ ok a) × (f a ≡ ok b)
bind-eq-ok (ok a) f h = (a, refl, h)
bind-eq-ok (err e) f h = cc

-- A loop that stops at the first error.
abbrev pub traverse : {E A B : Type 0} → (A → Result E B) → List A → Result E (List B)
traverse f [] = ok []
traverse f (x ∷ xs) = do y ← f x; ys ← traverse f xs; ok (y ∷ ys)

pub ok-inj {ℓ} : {E : Type 0} {A : Type ℓ} {a b : A} → ◌≡◌ {A = Result E A} (ok a) (ok b) → a ≡ b
ok-inj h = cc

-- The guards that a successful run has passed.
pub refuse-passed {ℓ} :
    {E : Type 0} {A : Type ℓ} (b : Bool) (e : E) (f : Unit {0} → Result E A) {x : A}
    → (refuse b e >>= f) ≡ ok x
    → (b ≡ false) × (f tt ≡ ok x)
refuse-passed true e f h = cc
refuse-passed false e f h = (refl, h)

pub require-passed {ℓ} :
    {E : Type 0} {A : Type ℓ} (b : Bool) (e : E) (f : Unit {0} → Result E A) {x : A}
    → (require b e >>= f) ≡ ok x
    → (b ≡ true) × (f tt ≡ ok x)
require-passed true e f h = (refl, h)
require-passed false e f h = cc
