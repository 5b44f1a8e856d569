-- ===== src/Target/Equality.antt =====
-- Python's `==` between a JSON value and a JSON scalar.
use Prim.Native.Nat.{◌%◌, ◌/◌}
use taint_forge_io_t.Prelude.{
  Bool, Json, Option, Real, array, as_int, boolean, eqb, false, if◌then◌else◌, integer, leb, ltb,
  negsuc, none, not, null, number, object, pos, refl, some, string, true, ℕ, ℤ, ◌&&◌, ◌*◌, ◌+◌, ◌-◌,
  ◌==◌, ◌^◌, ◌||◌, ◌≡◌,
}

abbrev bool_eq : Bool → Bool → Bool
bool_eq true b = b
bool_eq false b = not b

-- Two doubles: a NaN equals nothing, and the two zeros are equal.
abbrev real_eq : Real → Real → Bool
real_eq r s =
    leb r.magnitude 0x7FF0000000000000
    && eqb r.magnitude s.magnitude
    && (eqb r.magnitude 0 || bool_eq r.minus s.minus)

-- A double with the exponent field `e` and the 52 bits `f` is the number `n`.
abbrev scaled_eq : ℕ → ℕ → ℕ → Bool
scaled_eq n e f =
    if leb 1075 e
    then eqb n ((2 ^ 52 + f) * 2 ^ (e - 1075))
    else leb 1 e && eqb (n * 2 ^ (1075 - e)) (2 ^ 52 + f)

abbrev magnitude_eq : ℕ → ℕ → Bool
magnitude_eq n m =
    if eqb m 0 then eqb n 0 else ltb m 0x7FF0000000000000 && scaled_eq n (m / 2 ^ 52) (m % 2 ^ 52)

-- An integer and a double.
abbrev integer_real_eq : ℤ → Real → Bool
integer_real_eq (pos n) r = magnitude_eq n r.magnitude && (eqb n 0 || not r.minus)
integer_real_eq (negsuc n) r = magnitude_eq (n + 1) r.magnitude && r.minus

abbrev integer_eq : ℤ → ℤ → Bool
integer_eq (pos m) (pos n) = eqb m n
integer_eq (negsuc m) (negsuc n) = eqb m n
integer_eq _ _ = false

-- `true` and `false` are the integers 1 and 0.
abbrev optional_integer_eq : Option ℤ → Option ℤ → Bool
optional_integer_eq (some a) (some b) = integer_eq a b
optional_integer_eq _ _ = false

-- `value == expected`, where `expected` is a scalar: a list or an object is never equal to one.
abbrev pub scalar_eq : Json → Json → Bool
scalar_eq null null = true
scalar_eq (string s) (string t) = s == t
scalar_eq (number r) (number s) = real_eq r s
scalar_eq (number r) y = elim (as_int y) [ none ↦ false | some z ↦ integer_real_eq z r ]
scalar_eq x (number s) = elim (as_int x) [ none ↦ false | some z ↦ integer_real_eq z s ]
scalar_eq x y = optional_integer_eq (as_int x) (as_int y)

-- `value is None or isinstance(value, (str, int, float, bool))`
abbrev pub json_scalar : Json → Bool
json_scalar (array xs) = false
json_scalar (object fs) = false
json_scalar _ = true

real_examples :
    (scalar_eq (integer (pos 1)) (boolean true) ≡ true)
    × (scalar_eq
          (integer (pos 3))
          (number (record { minus = false; magnitude = 0x4008000000000000 }))
        ≡ true)
    × (scalar_eq
          (integer (negsuc 2))
          (number (record { minus = true; magnitude = 0x4008000000000000 }))
        ≡ true)
    × (scalar_eq (number (record { minus = true; magnitude = 0 })) (integer (pos 0)) ≡ true)
    × (scalar_eq null (boolean false) ≡ false)
real_examples = (refl, refl, refl, refl, refl)
