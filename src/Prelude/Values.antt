-- ===== src/Prelude/Values.antt =====
-- JSON values as `json.loads` gives them, and the tests that the program makes on them.
use Prim.Native.Nat.{ℕ}
use Prim.Native.String.{String}
use mathlib.Core.Bool.{Bool, true, false, not}
use mathlib.Core.List.{List, [], ◌∷◌}
use mathlib.Core.Option.{Option, none, some}
use text.Mathlib.Text.{◌==◌}
use taint_forge_io_t.Prelude.Tests.{eqb, if◌then◌else◌}
use taint_forge_io_t.Prelude.Int.{ℤ, pos, negsuc}

-- A double by its sign and the 63 bits under it; magnitudes are ordered as these numbers.
pub record Real : Type 0 where
  pub minus : Bool
  pub magnitude : ℕ

mutual
  pub data Json : Type 0 where
    null : Json
    boolean : Bool → Json
    integer : ℤ → Json
    number : Real → Json
    string : String → Json
    array : Items → Json
    object : Fields → Json

  pub data Items : Type 0 where
    end_items : Items
    item : Json → Items → Items

  pub data Fields : Type 0 where
    end_fields : Fields
    field : String → Json → Fields → Fields

abbrev pub items_list : Items → List Json
items_list end_items = []
items_list (item x xs) = x ∷ items_list xs

abbrev pub get_field : String → Fields → Option Json
get_field k end_fields = none
get_field k (field j v fs) = if j == k then some v else get_field k fs

-- `value.get(key, default)`
abbrev pub get_default : String → Json → Fields → Json
get_default k d fs = elim (get_field k fs) [ none ↦ d | some v ↦ v ]

-- `value.get(key)`
abbrev pub get : String → Fields → Json
get k fs = get_default k null fs

-- `bool(value)`
abbrev pub truthy : Json → Bool
truthy null = false
truthy (boolean b) = b
truthy (integer (pos n)) = not (eqb n 0)
truthy (integer (negsuc n)) = true
truthy (number r) = not (eqb r.magnitude 0)
truthy (string s) = not (s == "")
truthy (array end_items) = false
truthy (array (item x xs)) = true
truthy (object end_fields) = false
truthy (object (field k v fs)) = true

-- `value if isinstance(value, str) else None`
abbrev pub as_text : Json → Option String
as_text (string s) = some s
as_text _ = none

-- The integer of a value that `isinstance(value, int)` accepts, a Boolean among them.
abbrev pub as_int : Json → Option ℤ
as_int (integer z) = some z
as_int (boolean true) = some (pos 1)
as_int (boolean false) = some (pos 0)
as_int _ = none

-- An integer that is no Boolean.
abbrev pub as_strict_int : Json → Option ℤ
as_strict_int (integer z) = some z
as_strict_int _ = none
