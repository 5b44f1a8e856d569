-- ===== src/Target/Oracle.antt =====
-- `TargetStateOracle.evaluate` and the evaluation of each rule type.
use taint_forge_io_t.Prelude.{
  Bool, Fields, Json, List, Option, Result, String, Text, [], codes, count, end_fields, err, false,
  field, get, if◌then◌else◌, keep, leb, length, ltb, map, none, not, null, object, ok, refuse, some,
  string, strip, take, traverse, true, ℕ, ◌&&◌, ◌==◌, ◌>>=◌, ◌∷◌,
}
use taint_forge_io_t.Target.Equality.{scalar_eq}
use taint_forge_io_t.Target.Evidence.{
  Evidence, EvidenceFile, RuleEvaluation, RunFiles, TargetStateEvaluation, add_fields, escaping,
  event_evidences, field_evidence, has_field, line_evidences, lookup_field, max_evidence_bytes,
  max_text_bytes, no_file, not_regular, occurrences, regular, span_evidence_of,
}
use taint_forge_io_t.Target.Parse.{split_dots}
use taint_forge_io_t.Target.Sequence.{Repeats, count_sequence_repeats, matches}
use taint_forge_io_t.Target.Spec.{
  RuleParameters, TargetRule, TargetStateError, TargetStateSpec, count_parameters, event_count,
  event_source, evidence_escapes, field_parameters, file_too_large, invalid_evidence, json_artifact,
  json_field_equals, no_sequence, not_a_regular_file, repeated_sequence, sequence_parameters,
  text_contains, text_parameters, text_source,
}

abbrev event_conditions : String → Fields → Fields
event_conditions source w =
    if (source == "syscall") && not (has_field "execution_context" w)
    then add_fields w (field "execution_context" (string "guest") end_fields)
    else w

abbrev sequence_events : String → List Fields → List Fields
sequence_events source events =
    if source == "syscall"
    then keep (λ e. scalar_eq (get "execution_context" e) (string "guest")) events
    else events

-- The path that a source names; the parser has checked that it names one.
abbrev file_at : RunFiles → Option String → EvidenceFile
file_at files none = no_file
file_at files (some path) = files path

-- `_event_count`, on the events that match
abbrev event_count_of : String → ℕ → List Fields → RuleEvaluation
event_count_of rule_id minimum found = record {
  rule_id = rule_id;
  rule_type = event_count;
  is_matched = leb minimum (length found);
  observed_count = length found;
  required_count = minimum;
  evidence = event_evidences 0 (take 12 found);
}

-- `_repeated_sequence`
abbrev repeated_sequence_of : String → ℕ → Option Repeats → Result TargetStateError RuleEvaluation
repeated_sequence_of rule_id minimum none = err no_sequence
repeated_sequence_of rule_id minimum (some found) = ok record {
  rule_id = rule_id;
  rule_type = repeated_sequence;
  is_matched = leb minimum found.0;
  observed_count = found.0;
  required_count = minimum;
  evidence = map span_evidence_of (take 12 found.1);
}

-- `_text_contains`, on the number of the occurrences and the lines that have one
abbrev text_contains_of : String → ℕ → ℕ → List Evidence → RuleEvaluation
text_contains_of rule_id minimum found lines = record {
  rule_id = rule_id;
  rule_type = text_contains;
  is_matched = leb minimum found;
  observed_count = found;
  required_count = minimum;
  evidence = take 12 lines;
}

-- `_json_field_equals`, on what the field holds
abbrev is_expected : Json → Option Json → Bool
is_expected expected none = false
is_expected expected (some actual) = scalar_eq actual expected

abbrev json_field_of : String → String → String → Json → Option Json → RuleEvaluation
json_field_of rule_id artifact path expected actual =
    let is_matched = is_expected expected actual in
    record {
      rule_id = rule_id;
      rule_type = json_field_equals;
      is_matched = is_matched;
      observed_count = if is_matched then 1 else 0;
      required_count = 1;
      evidence =
          field_evidence artifact path (elim actual [ none ↦ null | some v ↦ v ]) expected
            (elim actual [ none ↦ false | some v ↦ true ])
          ∷ [];
    }

abbrev artifact_of : Option String → String
artifact_of none = ""
artifact_of (some path) = path

abbrev id_of : RuleEvaluation → String
id_of e = e.rule_id

abbrev pub has_matched : RuleEvaluation → Bool
has_matched e = e.is_matched

-- `evaluate`, behind the evaluation of the rules
unfoldable pub evaluation_of : TargetStateSpec → List RuleEvaluation → TargetStateEvaluation
evaluation_of target evaluations =
    let matched = count has_matched evaluations in
    let is_reached = leb target.min_satisfied matched in
    record {
      goal_id = target.goal_id;
      description = target.description;
      is_reached = is_reached;
      reason_ids = map id_of (
          if is_reached
          then keep has_matched evaluations
          else keep (λ e. not e.is_matched) evaluations);
      mode = target.mode;
      min_satisfied = target.min_satisfied;
      matched_rules = matched;
      total_rules = length evaluations;
      spec_sha256 = target.source_sha256;
      rules = evaluations;
    }

module _ (json_loads : Text → Option Json) (stream_lines splitlines : Text → List Text) where
  -- The loop of `_read_jsonl_optional`.
  unfoldable pub events_of_lines : List Text → Result TargetStateError (List Fields)
  unfolding strip
  events_of_lines [] = ok []
  events_of_lines (l ∷ ls) =
      let rest = events_of_lines ls in
      elim (strip l) [
        | [] ↦ rest
        | c ∷ s ↦ elim (json_loads l) [
          | some (object event) ↦ rest >>= λ es. ok (event ∷ es)
          | _ ↦ err invalid_evidence
        ]
      ]

  unfoldable pub read_jsonl_optional : EvidenceFile → Result TargetStateError (List Fields)
  unfolding events_of_lines
  read_jsonl_optional no_file = ok []
  read_jsonl_optional escaping = err evidence_escapes
  read_jsonl_optional not_regular = err not_a_regular_file
  read_jsonl_optional (regular size text) = do
    _ ← refuse (ltb max_evidence_bytes size) file_too_large
    events_of_lines (stream_lines text)

  unfoldable pub load_json_object : ℕ → Text → Result TargetStateError Json
  load_json_object size text =
      if ltb max_evidence_bytes size
      then err file_too_large
      else elim (json_loads text) [ some (object fs) ↦ ok (object fs) | _ ↦ err invalid_evidence ]

  unfoldable pub text_contains_in :
      EvidenceFile → String → String → ℕ → Result TargetStateError RuleEvaluation
  text_contains_in no_file rule_id needle minimum = ok (text_contains_of rule_id minimum 0 [])
  text_contains_in escaping rule_id needle minimum = err evidence_escapes
  text_contains_in not_regular rule_id needle minimum = err not_a_regular_file
  text_contains_in (regular size text) rule_id needle minimum = do
    _ ← refuse (ltb max_text_bytes size) file_too_large
    ok (
        text_contains_of rule_id minimum (occurrences (codes needle) 0 text)
          (line_evidences (codes needle) 1 (splitlines text)))

  unfoldable pub json_field_in :
      EvidenceFile → String → String → String → Json → Result TargetStateError RuleEvaluation
  unfolding load_json_object
  json_field_in no_file rule_id artifact path expected =
      ok (json_field_of rule_id artifact path expected none)
  json_field_in escaping rule_id artifact path expected = err evidence_escapes
  json_field_in not_regular rule_id artifact path expected = err not_a_regular_file
  json_field_in (regular size text) rule_id artifact path expected = do
    raw ← load_json_object size text
    ok (json_field_of rule_id artifact path expected (lookup_field (split_dots (codes path)) raw))

  -- `_evaluate_rule`
  abbrev evaluate_parameters :
      RunFiles → String → String → RuleParameters → Result TargetStateError RuleEvaluation
  evaluate_parameters files rule_id source (count_parameters w minimum) = do
    events ← read_jsonl_optional (file_at files (event_source source))
    ok (event_count_of rule_id minimum (keep (λ e. matches e (event_conditions source w)) events))
  evaluate_parameters files rule_id source (sequence_parameters sequence minimum max_gap) = do
    events ← read_jsonl_optional (file_at files (event_source source))
    repeated_sequence_of rule_id minimum
        (count_sequence_repeats (sequence_events source events) sequence max_gap)
  evaluate_parameters files rule_id source (text_parameters needle minimum) =
      text_contains_in (file_at files (text_source source)) rule_id needle minimum
  evaluate_parameters files rule_id source (field_parameters path expected) =
      json_field_in (file_at files (json_artifact source)) rule_id
        (artifact_of (json_artifact source)) path expected

  unfoldable pub evaluate_rule : RunFiles → TargetRule → Result TargetStateError RuleEvaluation
  evaluate_rule files rule = evaluate_parameters files rule.rule_id rule.source rule.parameters

  unfoldable pub evaluate :
      RunFiles → TargetStateSpec → Result TargetStateError TargetStateEvaluation
  evaluate files target = do
    evaluations ← traverse (evaluate_rule files) target.rules
    ok (evaluation_of target evaluations)
