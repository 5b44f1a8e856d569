-- ===== src/Target/Parse.antt =====
-- `TargetStateSpec.from_dict`, `_parse_rule` and the checks that they call.
use taint_forge_io_t.Prelude.{
  Bool, Fields, Items, Json, List, Option, Result, String, Text, [], all, any, array, codes,
  end_fields, end_items, eqb, err, false, field, get, get_default, get_field, has_code,
  if◌then◌else◌, integer, item, items_list, leb, length, ltb, none, null, object, ok, pos, refuse,
  require, some, string, suc, true, ℕ, ◌==◌, ◌>>=◌, ◌||◌, ◌∷◌,
}
use taint_forge_io_t.Target.Equality.{json_scalar, scalar_eq}
use taint_forge_io_t.Target.Spec.{
  AggregationMode, RuleParameters, RuleType, TargetRule, TargetStateError, TargetStateSpec,
  all_rules, any_rule, at_least, count_parameters, duplicate_rule_id, empty_needle, event_count,
  event_source, field_parameters, gap_too_large, invalid_field_name, invalid_field_path,
  invalid_identifier, invalid_mode, invalid_rule_type, invalid_source, json_artifact,
  json_field_equals, min_satisfied_exceeds_rules, no_expected_value, no_rules, no_sequence,
  not_a_bounded_string, not_a_rule, not_a_scalar, not_a_specification, not_conditions,
  not_nonnegative, not_positive, repeated_sequence, rule_type, sequence_parameters,
  sequence_too_long, spec_to_dict, text_contains, text_parameters, text_source, too_many_fields,
  too_many_rules, unsupported_characters, unsupported_schema_version,
}

-- Of an object as `json.loads` gives it: its keys are distinct.
abbrev pub field_count : Fields → ℕ
field_count end_fields = 0
field_count (field k v fs) = suc (field_count fs)

unfoldable pub bounded_string : Json → Result TargetStateError String
bounded_string (string s) = do
  _ ← refuse (has_code 0 (codes s) || ltb 4096 (length (codes s))) not_a_bounded_string
  ok s
bounded_string _ = err not_a_bounded_string

unfoldable pub positive_int : Json → Result TargetStateError ℕ
positive_int (integer (pos n)) = do _ ← require (leb 1 n) not_positive; ok n
positive_int _ = err not_positive

unfoldable pub nonnegative_int : Json → Result TargetStateError ℕ
nonnegative_int (integer (pos n)) = ok n
nonnegative_int _ = err not_nonnegative

unfoldable pub conditions : Fields → Result TargetStateError Fields
conditions end_fields = ok end_fields
conditions (field k v fs) = do
  _ ← refuse ((k == "") || ltb 128 (length (codes k))) invalid_field_name
  _ ← require (json_scalar v) not_a_scalar
  rest ← conditions fs
  ok (field k v rest)

-- `_where`
unfoldable pub where_of : Json → Result TargetStateError Fields
where_of (object (field k v fs)) = do
  _ ← refuse (ltb 32 (field_count (field k v fs))) too_many_fields
  conditions (field k v fs)
where_of _ = err not_conditions

unfoldable pub wheres : Items → Result TargetStateError (List Fields)
wheres end_items = ok []
wheres (item x xs) = do w ← where_of x; ws ← wheres xs; ok (w ∷ ws)

-- A list that is not empty.
abbrev pub nonempty_list : TargetStateError → Json → Result TargetStateError Items
nonempty_list e (array (item x xs)) = ok (item x xs)
nonempty_list e _ = err e

abbrev pub parse_aggregation_mode : Json → Result TargetStateError AggregationMode
parse_aggregation_mode (string s) =
    if s == "all"
    then ok all_rules
    else if s == "any"
    then ok any_rule
    else if s == "at_least"
    then ok at_least
    else err invalid_mode
parse_aggregation_mode _ = err invalid_mode

abbrev pub parse_rule_type : Json → Result TargetStateError RuleType
parse_rule_type (string s) =
    if s == "event_count"
    then ok event_count
    else if s == "repeated_sequence"
    then ok repeated_sequence
    else if s == "text_contains"
    then ok text_contains
    else if s == "json_field_equals"
    then ok json_field_equals
    else err invalid_rule_type
parse_rule_type _ = err invalid_rule_type

-- `source not in mapping`
abbrev pub known : Option String → Bool
known none = false
known (some p) = true

-- `value.split(".")`: the first part, and the parts behind it.
abbrev pub add_to_part : ℕ → List Text → List Text
add_to_part c [] = (c ∷ []) ∷ []
add_to_part c (p ∷ ps) = (c ∷ p) ∷ ps

unfoldable pub split_dots : Text → List Text
split_dots [] = [] ∷ []
split_dots (c ∷ s) = let rest = split_dots s in if eqb c b'.' then [] ∷ rest else add_to_part c rest

-- The key of an object that has it; a value may be `null`.
abbrev pub required : Option Json → Result TargetStateError Json
required none = err no_expected_value
required (some v) = ok v

abbrev pub optional_description : Json → Result TargetStateError (Option String)
optional_description null = ok none
optional_description v = do d ← bounded_string v; ok (some d)

abbrev pub is_seen : String → List String → Bool
is_seen s seen = any (λ t. t == s) seen

abbrev pub needed : AggregationMode → ℕ → Json → Result TargetStateError ℕ
needed all_rules total v = ok total
needed any_rule total v = ok 1
needed at_least total v = do
  n ← positive_int v
  _ ← refuse (ltb total n) min_satisfied_exceeds_rules
  ok n

-- `source_sha256 or _canonical_digest(canonical)`
abbrev pub digest_or : (Json → String) → Option String → Json → String
digest_or canonical_digest none j = canonical_digest j
digest_or canonical_digest (some s) j = if s == "" then canonical_digest j else s

module _ (is_alnum_code : ℕ → Bool) where
  unfoldable pub identifier : Json → Result TargetStateError String
  identifier v = do
    text ← bounded_string v
    _ ← refuse ((text == "") || ltb 128 (length (codes text))) invalid_identifier
    _ ←
        require (all (λ c. is_alnum_code c || has_code c (codes "_-.:")) (codes text))
          unsupported_characters
    ok text

  abbrev is_path_part : Text → Bool
  is_path_part [] = false
  is_path_part (c ∷ s) = all (λ d. is_alnum_code (if eqb d b'_' then b'a' else d)) (c ∷ s)

  -- `_validate_field_path`
  unfoldable pub is_field_path : Text → Bool
  unfolding split_dots
  is_field_path s = all is_path_part (split_dots s)

  -- The parameters of each rule type.
  unfoldable pub parse_parameters :
      RuleType → String → Fields → Result TargetStateError RuleParameters
  parse_parameters event_count source raw = do
    _ ← require (known (event_source source)) invalid_source
    conditions ← where_of (get_default "where" (object end_fields) raw)
    minimum ← positive_int (get_default "min_count" (integer (pos 1)) raw)
    ok (count_parameters conditions minimum)
  parse_parameters repeated_sequence source raw = do
    _ ← require (known (event_source source)) invalid_source
    sequence_raw ← nonempty_list no_sequence (get "sequence" raw)
    _ ← refuse (ltb 32 (length (items_list sequence_raw))) sequence_too_long
    sequence ← wheres sequence_raw
    minimum ← positive_int (get_default "min_repeats" (integer (pos 2)) raw)
    max_gap ← nonnegative_int (get_default "max_gap" (integer (pos 0)) raw)
    _ ← refuse (ltb 1024 max_gap) gap_too_large
    ok (sequence_parameters sequence minimum max_gap)
  parse_parameters text_contains source raw = do
    _ ← require (known (text_source source)) invalid_source
    needle ← bounded_string (get "needle" raw)
    _ ← refuse (needle == "") empty_needle
    minimum ← positive_int (get_default "min_count" (integer (pos 1)) raw)
    ok (text_parameters needle minimum)
  parse_parameters json_field_equals source raw = do
    _ ← require (known (json_artifact source)) invalid_source
    field_path ← bounded_string (get "field" raw)
    _ ← require (is_field_path (codes field_path)) invalid_field_path
    expected ← required (get_field "equals" raw)
    _ ← require (json_scalar expected) not_a_scalar
    ok (field_parameters field_path expected)

  unfoldable pub parse_rule : Json → Result TargetStateError TargetRule
  parse_rule (object raw) = do
    rule_id ← identifier (get "id" raw)
    description ← optional_description (get "description" raw)
    rule_type ← parse_rule_type (get "type" raw)
    source ← identifier (get "source" raw)
    parameters ← parse_parameters rule_type source raw
    ok record {
      rule_id = rule_id;
      source = source;
      parameters = parameters;
      description = description;
    }
  parse_rule _ = err not_a_rule

  -- The loop over `rules[]` with the set of the ids seen.
  unfoldable pub parse_rules : List String → Items → Result TargetStateError (List TargetRule)
  parse_rules seen end_items = ok []
  parse_rules seen (item x xs) = do
    rule ← parse_rule x
    _ ← refuse (is_seen rule.rule_id seen) duplicate_rule_id
    rules ← parse_rules (rule.rule_id ∷ seen) xs
    ok (rule ∷ rules)

  module _ (canonical_digest : Json → String) where
    unfoldable pub from_dict :
        Option String → Option String → Json → Result TargetStateError TargetStateSpec
    from_dict source_sha256 source_path (object raw) = do
      _ ←
          require (scalar_eq (get "schema_version" raw) (integer (pos 1)))
            unsupported_schema_version
      goal_id ← identifier (get "goal_id" raw)
      description ← bounded_string (get "description" raw)
      mode ← parse_aggregation_mode (get_default "mode" (string "all") raw)
      rules_raw ← nonempty_list no_rules (get "rules" raw)
      _ ← refuse (ltb 64 (length (items_list rules_raw))) too_many_rules
      rules ← parse_rules [] rules_raw
      min_satisfied ← needed mode (length rules) (get "min_satisfied" raw)
      ok record {
        goal_id = goal_id;
        description = description;
        mode = mode;
        min_satisfied = min_satisfied;
        rules = rules;
        source_sha256 =
            digest_or canonical_digest source_sha256
              (spec_to_dict goal_id description mode min_satisfied rules);
        source_path = source_path;
      }
    from_dict source_sha256 source_path _ = err not_a_specification
