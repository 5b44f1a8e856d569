-- ===== src/Witness/Targets.antt =====
-- A target state with a rule on events and a repeated sequence, evaluated on five events.
use taint_forge_io_t.Prelude.{
  All, Fields, Json, List, Option, String, Text, [], arith, array, codes, count, end_fields,
  end_items, false, field, if◌then◌else◌, integer, is_alnum, item, length, none, object, ok, pos,
  refl, some, string, text_eq, ◌*◌, ◌==◌, ◌∷◌, ◌≡◌, ◌≤◌,
}
use taint_forge_io_t.Target.Adjacent.{count_sequence_repeats-positive}
use taint_forge_io_t.Target.Bounds.{AreDistinct, IsWithin, from_dict-IsWithin}
use taint_forge_io_t.Target.Evidence.{
  RunFiles, TargetStateEvaluation, event_evidence, no_file, regular,
}
use taint_forge_io_t.Target.Oracle.{
  evaluate, evaluate_rule, evaluation_of, has_matched, read_jsonl_optional,
}
use taint_forge_io_t.Target.Parse.{
  bounded_string, conditions, from_dict, identifier, nonnegative_int, parse_parameters, parse_rule,
  parse_rules, positive_int, where_of, wheres,
}
use taint_forge_io_t.Target.Reached.{evaluate-satisfies, satisfies}
use taint_forge_io_t.Target.Roundtrip.{from_dict-to_dict}
use taint_forge_io_t.Target.Sequence.{Repeats, count_sequence_repeats}
use taint_forge_io_t.Target.Spans.{AreSpans, count_sequence_repeats-AreSpans}
use taint_forge_io_t.Target.Spec.{
  TargetRule, TargetStateSpec, any_rule, count_parameters, event_count, repeated_sequence,
  sequence_parameters, spec_to_dict,
}

abbrev digest_of : Json → String
digest_of j = "digest"

abbrev conditions_of : String → Json
conditions_of name = object (field "event" (string name) end_fields)

abbrev count_rule : Json
count_rule = object (
    field "id" (string "connects") (
      field "type" (string "event_count") (
        field "source" (string "network") (
          field "where" (conditions_of "connect")
            (field "min_count" (integer (pos 2)) end_fields)))))

abbrev sequence_rule : Json
sequence_rule = object (
    field "source" (string "network") (
      field "type" (string "repeated_sequence") (
        field "id" (string "loop") (
          field "sequence"
            (array (item (conditions_of "connect") (item (conditions_of "send") end_items)))
            end_fields))))

abbrev raw_spec : Json
raw_spec = object (
    field "rules" (array (item count_rule (item sequence_rule end_items))) (
      field "goal_id" (string "receive_loop") (
        field "description" (string "a loop")
          (field "mode" (string "any") (field "schema_version" (integer (pos 1)) end_fields)))))

abbrev event_where : String → Fields
event_where name = field "event" (string name) end_fields

abbrev example_spec : TargetStateSpec
example_spec = record {
  goal_id = "receive_loop";
  description = "a loop";
  mode = any_rule;
  min_satisfied = 1;
  rules =
      record {
        rule_id = "connects";
        source = "network";
        parameters = count_parameters (event_where "connect") 2;
        description = none;
      }
      ∷ record {
        rule_id = "loop";
        source = "network";
        parameters = sequence_parameters (event_where "connect" ∷ event_where "send" ∷ []) 2 0;
        description = none;
      }
      ∷ [];
  source_sha256 = "digest";
  source_path = none;
}

from_dict-to_dict_example :
    from_dict is_alnum digest_of none none
      (spec_to_dict "receive_loop" "a loop" any_rule 1 example_spec.rules)
    ≡ ok example_spec
unfolding from_dict identifier bounded_string parse_rules parse_rule parse_parameters where_of
    conditions positive_int wheres nonnegative_int
from_dict-to_dict_example =
    from_dict-to_dict is_alnum digest_of none none raw_spec example_spec refl refl

from_dict-IsWithin_example :
    (1 ≤ 1)
    × (1 ≤ 2)
    × (2 ≤ 64)
    × AreDistinct [] example_spec.rules
    × All (λ (r : TargetRule). IsWithin r.parameters) example_spec.rules
unfolding from_dict identifier bounded_string parse_rules parse_rule parse_parameters where_of
    conditions positive_int wheres nonnegative_int
from_dict-IsWithin_example =
    from_dict-IsWithin is_alnum digest_of none none raw_spec example_spec refl

abbrev events : List Fields
events =
    event_where "connect"
    ∷ event_where "send"
    ∷ event_where "close"
    ∷ event_where "connect"
    ∷ event_where "send"
    ∷ []

count_sequence_repeats-AreSpans_example :
    (found : Repeats) × (count_sequence_repeats events
        (event_where "connect" ∷ event_where "send" ∷ [])
        0
      ≡ some found)
    × (found.0 ≡ length found.1)
    × AreSpans events (event_where "connect") (event_where "send" ∷ []) 0 0 found.1
    × (found.0 * 2 ≤ 5)
count_sequence_repeats-AreSpans_example =
    count_sequence_repeats-AreSpans events (event_where "connect") (event_where "send" ∷ []) 0

count_sequence_repeats-positive_example :
    (found : Repeats) × (count_sequence_repeats events
        (event_where "connect" ∷ event_where "send" ∷ [])
        0
      ≡ some found)
    × (1 ≤ found.0)
count_sequence_repeats-positive_example =
    count_sequence_repeats-positive events (event_where "connect") (event_where "send" ∷ []) 3 4
      refl (4, omega arith, omega arith, refl, refl)

-- Each line is the name of its event.
abbrev load : Text → Option Json
load s = if text_eq s (codes "connect") then some (conditions_of "connect") else none

abbrev one_line : Text → List Text
one_line s = s ∷ []

abbrev files : RunFiles
files path = if path == "logs/network_events.jsonl" then regular 7 (codes "connect") else no_file

abbrev evaluated : TargetStateEvaluation
evaluated = evaluation_of example_spec (
    record {
      rule_id = "connects";
      rule_type = event_count;
      is_matched = false;
      observed_count = 1;
      required_count = 2;
      evidence = event_evidence 0 (event_where "connect") ∷ [];
    }
    ∷ record {
      rule_id = "loop";
      rule_type = repeated_sequence;
      is_matched = false;
      observed_count = 0;
      required_count = 2;
      evidence = [];
    }
    ∷ [])

evaluate-satisfies_example :
    (evaluated.is_reached ≡ satisfies any_rule 1 evaluated.rules)
    × (evaluated.total_rules ≡ 2)
    × (evaluated.matched_rules ≡ count has_matched evaluated.rules)
unfolding from_dict identifier bounded_string parse_rules parse_rule parse_parameters where_of
    conditions positive_int wheres nonnegative_int evaluate evaluate_rule read_jsonl_optional
    count_sequence_repeats
evaluate-satisfies_example =
    evaluate-satisfies is_alnum digest_of load one_line one_line none none raw_spec example_spec
      files evaluated refl refl
