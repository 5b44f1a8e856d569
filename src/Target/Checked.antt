-- ===== src/Target/Checked.antt =====
-- The checks of Target/Parse.antt give back what they read, and accept it again.
use mathlib.Core.Path.{subst}
use taint_forge_io_t.Prelude.{
  Fields, Items, Json, List, String, ap, arith, array, bind-eq-ok, boolean, codes, end_fields,
  end_items, field, integer, item, items_list, length, ltb, negsuc, null, number, object, ok,
  ok-inj, pos, refl, refuse-passed, require-passed, string, suc, sym, ℕ, ◌==◌, ◌||◌, ◌≡◌,
}
use taint_forge_io_t.Target.Equality.{json_scalar}
use taint_forge_io_t.Target.Parse.{
  bounded_string, conditions, field_count, nonempty_list, parse_aggregation_mode, parse_rule_type,
  positive_int, where_of, wheres,
}
use taint_forge_io_t.Target.Spec.{
  AggregationMode, RuleType, TargetStateError, all_rules, any_rule, at_least, event_count,
  json_field_equals, mode_value, objects, repeated_sequence, rule_type_value, text_contains,
}

pub bounded_string_again :
    (j : Json) (s : String) → bounded_string j ≡ ok s → bounded_string (string s) ≡ ok s
unfolding bounded_string
bounded_string_again (string t) s h = ground arith
bounded_string_again null s h = cc
bounded_string_again (boolean b) s h = cc
bounded_string_again (integer z) s h = cc
bounded_string_again (number r) s h = cc
bounded_string_again (array xs) s h = cc
bounded_string_again (object fs) s h = cc

pub positive_int_again :
    (j : Json) (n : ℕ) → positive_int j ≡ ok n → positive_int (integer (pos n)) ≡ ok n
unfolding positive_int
positive_int_again (integer (pos m)) n h = ground arith
positive_int_again (integer (negsuc m)) n h = cc
positive_int_again (string t) n h = cc
positive_int_again null n h = cc
positive_int_again (boolean b) n h = cc
positive_int_again (number r) n h = cc
positive_int_again (array xs) n h = cc
positive_int_again (object fs) n h = cc

pub conditions_again :
    (fs gs : Fields) → conditions fs ≡ ok gs → (gs ≡ fs) × (conditions gs ≡ ok gs)
unfolding conditions
conditions_again end_fields gs h = (ground arith, ground arith)
conditions_again (field k v fs) gs h =
    let p = refuse-passed ((k == "") || ltb 128 (length (codes k))) _ _ h in
    let q = require-passed (json_scalar v) _ _ p.1 in
    let (rest, e, g) = bind-eq-ok (conditions fs) _ q.1 in
    let ih = conditions_again fs rest e in
    (cc (ih.0, ok-inj g), subst (λ t. conditions t ≡ ok t) (ok-inj g) (rw (p.0, q.0, ih.1) refl))

pub where_of_again : (j : Json) (gs : Fields) → where_of j ≡ ok gs → where_of (object gs) ≡ ok gs
unfolding where_of
where_of_again (object (field k v fs)) gs h =
    let p = refuse-passed (ltb 32 (field_count (field k v fs))) _ _ h in
    let c = conditions_again (field k v fs) gs p.1 in
    subst (λ t. where_of (object t) ≡ ok t) (sym c.0)
      (rw (p.0) (subst (λ t. conditions t ≡ ok t) c.0 c.1))
where_of_again (object end_fields) gs h = cc
where_of_again (string t) gs h = cc
where_of_again (integer z) gs h = cc
where_of_again null gs h = cc
where_of_again (boolean b) gs h = cc
where_of_again (number r) gs h = cc
where_of_again (array xs) gs h = cc

-- The sequence is as long as the list that it is read from.
pub wheres_again :
    (xs : Items) (ws : List Fields)
    → wheres xs ≡ ok ws
    → (wheres (objects ws) ≡ ok ws) × (length (items_list (objects ws)) ≡ length (items_list xs))
unfolding wheres
wheres_again end_items ws h = (ground arith, ground arith)
wheres_again (item x xs) ws h =
    let (w, e, g) = bind-eq-ok (where_of x) _ h in
    let (rest, e', g') = bind-eq-ok (wheres xs) _ g in
    let ih = wheres_again xs rest e' in
    subst
      (λ t.
        (wheres (objects t) ≡ ok t)
        × (length (items_list (objects t)) ≡ length (items_list (item x xs))))
      (ok-inj g') (rw (where_of_again x w e, ih.0) refl, ap suc ih.1)

pub parse_aggregation_mode_value :
    (m : AggregationMode) → parse_aggregation_mode (string (mode_value m)) ≡ ok m
parse_aggregation_mode_value all_rules = refl
parse_aggregation_mode_value any_rule = refl
parse_aggregation_mode_value at_least = refl

pub parse_rule_type_value : (t : RuleType) → parse_rule_type (string (rule_type_value t)) ≡ ok t
parse_rule_type_value event_count = refl
parse_rule_type_value repeated_sequence = refl
parse_rule_type_value text_contains = refl
parse_rule_type_value json_field_equals = refl

-- A list as long as one that is not empty.
pub nonempty_list_again :
    (e : TargetStateError) (j : Json) (xs ys : Items)
    → nonempty_list e j ≡ ok xs
    → length (items_list ys) ≡ length (items_list xs)
    → nonempty_list e (array ys) ≡ ok ys
nonempty_list_again e (array (item x xs')) xs end_items h l =
    ground (arith, ap (λ t. length (items_list t)) (ok-inj h))
nonempty_list_again e j xs (item y ys) h l = refl
nonempty_list_again e (array end_items) xs end_items h l = cc
nonempty_list_again e (object fs) xs end_items h l = cc
nonempty_list_again e (string t) xs end_items h l = cc
nonempty_list_again e (integer z) xs end_items h l = cc
nonempty_list_again e null xs end_items h l = cc
nonempty_list_again e (boolean b) xs end_items h l = cc
nonempty_list_again e (number r) xs end_items h l = cc
