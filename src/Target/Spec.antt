-- ===== src/Target/Spec.antt =====
-- The specification: `TargetRule`, `TargetStateSpec`, and their `to_dict`. The parameters of a rule
-- are given by its type, so the type is read off them.
use taint_forge_io_t.Prelude.{
  Fields, Items, Json, List, Option, String, [], array, end_fields, end_items, field, if◌then◌else◌,
  integer, item, none, object, pos, some, string, ℕ, ◌==◌, ◌∷◌,
}

pub data TargetStateError : Type 0 where
  not_a_specification unsupported_schema_version invalid_mode no_rules : TargetStateError
  too_many_rules duplicate_rule_id min_satisfied_exceeds_rules : TargetStateError
  not_a_bounded_string invalid_identifier unsupported_characters : TargetStateError
  not_positive not_nonnegative : TargetStateError
  not_a_rule invalid_rule_type invalid_source : TargetStateError
  not_conditions too_many_fields invalid_field_name not_a_scalar : TargetStateError
  no_sequence sequence_too_long gap_too_large empty_needle : TargetStateError
  invalid_field_path no_expected_value : TargetStateError
  evidence_escapes not_a_regular_file file_too_large invalid_evidence : TargetStateError

pub data AggregationMode : Type 0 where
  all_rules any_rule at_least : AggregationMode

abbrev pub mode_value : AggregationMode → String
mode_value all_rules = "all"
mode_value any_rule = "any"
mode_value at_least = "at_least"

pub data RuleType : Type 0 where
  event_count repeated_sequence text_contains json_field_equals : RuleType

abbrev pub rule_type_value : RuleType → String
rule_type_value event_count = "event_count"
rule_type_value repeated_sequence = "repeated_sequence"
rule_type_value text_contains = "text_contains"
rule_type_value json_field_equals = "json_field_equals"

pub data RuleParameters : Type 0 where
  -- where, min_count
  count_parameters : Fields → ℕ → RuleParameters
  -- sequence, min_repeats, max_gap
  sequence_parameters : List Fields → ℕ → ℕ → RuleParameters
  -- needle, min_count
  text_parameters : String → ℕ → RuleParameters
  -- field, equals
  field_parameters : String → Json → RuleParameters

pub record TargetRule : Type 0 where
  pub rule_id : String
  pub source : String
  pub parameters : RuleParameters
  pub description : Option String

abbrev pub rule_type : RuleParameters → RuleType
rule_type (count_parameters w n) = event_count
rule_type (sequence_parameters ws n g) = repeated_sequence
rule_type (text_parameters s n) = text_contains
rule_type (field_parameters p v) = json_field_equals

pub record TargetStateSpec : Type 0 where
  pub goal_id : String
  pub description : String
  pub mode : AggregationMode
  pub min_satisfied : ℕ
  pub rules : List TargetRule
  pub source_sha256 : String
  pub source_path : Option String

abbrev pub event_source : String → Option String
event_source s =
    if s == "syscall"
    then some "logs/syscall_events.jsonl"
    else if s == "network"
    then some "logs/network_events.jsonl"
    else if s == "trace"
    then some "logs/trace_events.jsonl"
    else none

abbrev pub text_source : String → Option String
text_source s =
    if s == "stdout"
    then some "logs/runtime_stdout.log"
    else if s == "stderr"
    then some "logs/runtime_stderr.log"
    else none

abbrev pub json_artifact : String → Option String
json_artifact s =
    if s == "execution"
    then some "config/prebuilt_execution.json"
    else if s == "report"
    then some "report.json"
    else if s == "requirements"
    then some "config/runtime_requirements.json"
    else if s == "repair_plan"
    then some "config/repair_plan.json"
    else if s == "runtime"
    then some "config/runtime.json"
    else if s == "rootfs_diff"
    then some "config/rootfs_diff.json"
    else none

-- TargetRule.to_dict
abbrev pub objects : List Fields → Items
objects [] = end_items
objects (w ∷ ws) = item (object w) (objects ws)

-- `**self.parameters`, in front of the fields that follow.
abbrev pub parameter_fields : RuleParameters → Fields → Fields
parameter_fields (count_parameters w n) rest =
    field "where" (object w) (field "min_count" (integer (pos n)) rest)
parameter_fields (sequence_parameters ws n g) rest =
    field "sequence" (array (objects ws))
      (field "min_repeats" (integer (pos n)) (field "max_gap" (integer (pos g)) rest))
parameter_fields (text_parameters s n) rest =
    field "needle" (string s) (field "min_count" (integer (pos n)) rest)
parameter_fields (field_parameters p v) rest = field "field" (string p) (field "equals" v rest)

-- An empty description is left out as a missing one is.
abbrev pub description_fields : Option String → Fields
description_fields none = end_fields
description_fields (some d) =
    if d == "" then end_fields else field "description" (string d) end_fields

abbrev pub rule_to_dict : TargetRule → Json
rule_to_dict r = object (
    field "id" (string r.rule_id) (
      field "type" (string (rule_type_value (rule_type r.parameters))) (
        field "source" (string r.source)
          (parameter_fields r.parameters (description_fields r.description)))))

abbrev pub rule_items : List TargetRule → Items
rule_items [] = end_items
rule_items (r ∷ rs) = item (rule_to_dict r) (rule_items rs)

-- TargetStateSpec.to_dict
abbrev pub spec_to_dict : String → String → AggregationMode → ℕ → List TargetRule → Json
spec_to_dict goal_id description mode min_satisfied rules = object (
    field "schema_version" (integer (pos 1)) (
      field "goal_id" (string goal_id) (
        field "description" (string description) (
          field "mode" (string (mode_value mode)) (
            field "min_satisfied" (integer (pos min_satisfied))
              (field "rules" (array (rule_items rules)) end_fields))))))
