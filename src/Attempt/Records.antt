-- ===== src/Attempt/Records.antt =====
-- The records of attempt.py with the checks of their `__post_init__`. The digests of canonical JSON
-- and the ISO-8601 parser are parameters.
use taint_forge_io_t.Attempt.Stages.{
  AttemptOutcome, ExecutionStage, RunPurpose, allowed, boundary_ready, discovery, is_failure,
  is_goal_reached, pre_oep_discovery, same_stage, static_preflight,
}
use taint_forge_io_t.Prelude.{
  Bool, List, Option, Result, String, [], codes, eqb, err, false, if◌then◌else◌, is_hex_of_length,
  is_identifier, is_negative, ltb, negsuc, none, ok, pos, refuse, require, some, strip, text_eq,
  true, ℕ, ℤ, ◌&&◌, ◌+◌, ◌==◌, ◌>>=◌, ◌>>◌, ◌∷◌,
}

pub data AttemptError : Type 0 where
  bad_schema_version bad_contract_version bad_result_version : AttemptError
  bad_attempt_id bad_attempt_index bad_digest bad_manifest_id bad_manifest_version : AttemptError
  bad_goal_id bad_timestamp naive_timestamp bad_initial_stage : AttemptError
  bad_sequence bad_transition no_reason bad_event_id : AttemptError
  broken_sequence broken_chain wrong_final_stage : AttemptError
  bad_event_count bad_coverage no_oracle_reason : AttemptError
  finishes_early no_fingerprint goal_not_reached stray_goal : AttemptError
  id_mismatch digest_mismatch stage_mismatch : AttemptError
  bad_store_id bad_store bad_directory bad_artifact symlink_artifact : AttemptError
  contract_immutable result_immutable no_result : AttemptError
  fingerprint_of_goal unreadable_artifact empty_oracle_reason : AttemptError

-- What `datetime.fromisoformat` gives: whether it carries a zone, and the instant.
pub record Timestamp : Type 0 where
  pub aware : Bool
  pub instant : ℕ

pub record AttemptContract : Type 0 where
  pub attempt_id : String
  pub attempt_index : ℤ
  pub purpose : RunPurpose
  pub sample_sha256 : String
  pub packed_binary_sha256 : String
  pub environment_manifest_id : String
  pub environment_manifest_version : ℤ
  pub goal_id : String
  pub initial_stage : ExecutionStage
  pub schema_version : ℤ
  pub contract_version : ℤ
  pub created_at_utc : String

pub record StageTransition : Type 0 where
  pub sequence : ℤ
  pub from_stage : ExecutionStage
  pub to_stage : ExecutionStage
  pub reason : String
  pub evidence_event_id : String
  pub timestamp_utc : String

pub record AttemptProgress : Type 0 where
  pub goal_reached : Bool
  pub oracle_reason : Option String
  pub guest_events_total : ℤ
  pub coverage_edges : Option ℤ
  pub observation_sha256 : Option String

pub record AttemptResult : Type 0 where
  pub attempt_id : String
  pub contract_sha256 : String
  pub outcome : AttemptOutcome
  pub initial_stage : ExecutionStage
  pub final_stage : ExecutionStage
  pub progress : AttemptProgress
  pub transitions : List StageTransition
  pub failure_fingerprint : Option String
  pub started_at_utc : String
  pub finished_at_utc : String
  pub schema_version : ℤ
  pub result_version : ℤ

-- `value == n` for an integer of the program.
abbrev pub int_is : ℤ → ℕ → Bool
int_is (pos m) n = eqb m n
int_is (negsuc m) n = false

unfoldable pub validate_sha256 : String → Result AttemptError (Unit {0})
validate_sha256 value = require (is_hex_of_length 64 (codes value)) bad_digest

abbrev pub validate_optional_sha256 : Option String → Result AttemptError (Unit {0})
validate_optional_sha256 none = ok tt
validate_optional_sha256 (some value) = validate_sha256 value

-- The purposes restrict where an attempt may start.
unfoldable pub purpose_allows : RunPurpose → ExecutionStage → Bool
purpose_allows discovery static_preflight = true
purpose_allows discovery pre_oep_discovery = true
purpose_allows discovery _ = false
purpose_allows RunPurpose.fuzzing boundary_ready = true
purpose_allows RunPurpose.fuzzing _ = false
purpose_allows RunPurpose.reconstruction ExecutionStage.reconstruction = true
purpose_allows RunPurpose.reconstruction _ = false

-- `not value` of an optional text.
abbrev pub is_blank : Option String → Bool
is_blank none = true
is_blank (some s) = s == ""

abbrev pub is_negative_option : Option ℤ → Bool
is_negative_option none = false
is_negative_option (some z) = is_negative z

-- `_validate_transition_chain` from the expected stage and the next sequence number on.
unfoldable pub validate_chain :
    ExecutionStage → ℕ → List StageTransition → ExecutionStage → Result AttemptError (Unit {0})
validate_chain expected n [] final = require (same_stage expected final) wrong_final_stage
validate_chain expected n (t ∷ ts) final = do
  require (int_is t.sequence n) broken_sequence
  require (same_stage t.from_stage expected) broken_chain
  validate_chain t.to_stage (n + 1) ts final

unfoldable pub validate_progress : AttemptProgress → Result AttemptError (Unit {0})
validate_progress p = do
  refuse (is_negative p.guest_events_total) bad_event_count
  refuse (is_negative_option p.coverage_edges) bad_coverage
  refuse (p.goal_reached && is_blank p.oracle_reason) no_oracle_reason
  validate_optional_sha256 p.observation_sha256

abbrev pub validate_fingerprint : Bool → Option String → Result AttemptError (Unit {0})
validate_fingerprint true none = err no_fingerprint
validate_fingerprint true (some f) = validate_sha256 f
validate_fingerprint false f = validate_optional_sha256 f

abbrev pub validate_goal : Bool → Bool → Result AttemptError (Unit {0})
validate_goal true reached = require reached goal_not_reached
validate_goal false reached = refuse reached stray_goal

module _ (fromisoformat : String → Option Timestamp) where
  abbrev pub check_zone : Option Timestamp → Result AttemptError Timestamp
  check_zone none = err bad_timestamp
  check_zone (some t) = if t.aware then ok t else err naive_timestamp

  unfoldable pub parse_timestamp : String → Result AttemptError Timestamp
  parse_timestamp value = check_zone (fromisoformat value)

  unfoldable pub validate_contract : AttemptContract → Result AttemptError (Unit {0})
  unfolding parse_timestamp
  validate_contract c = do
    require (int_is c.schema_version 1) bad_schema_version
    require (int_is c.contract_version 1) bad_contract_version
    require (is_identifier (codes c.attempt_id)) bad_attempt_id
    refuse (is_negative c.attempt_index) bad_attempt_index
    validate_sha256 c.sample_sha256
    validate_sha256 c.packed_binary_sha256
    require (is_identifier (codes c.environment_manifest_id)) bad_manifest_id
    refuse (is_negative c.environment_manifest_version) bad_manifest_version
    require (is_identifier (codes c.goal_id)) bad_goal_id
    _ ← parse_timestamp c.created_at_utc
    require (purpose_allows c.purpose c.initial_stage) bad_initial_stage

  unfoldable pub validate_transition : StageTransition → Result AttemptError (Unit {0})
  unfolding parse_timestamp
  validate_transition t = do
    refuse (is_negative t.sequence) bad_sequence
    require (allowed t.from_stage t.to_stage) bad_transition
    refuse (text_eq (strip (codes t.reason)) []) no_reason
    require (is_identifier (codes t.evidence_event_id)) bad_event_id
    _ ← parse_timestamp t.timestamp_utc
    ok tt

  unfoldable pub validate_result : AttemptResult → Result AttemptError (Unit {0})
  unfolding parse_timestamp
  validate_result r = do
    require (int_is r.schema_version 1) bad_schema_version
    require (int_is r.result_version 1) bad_result_version
    require (is_identifier (codes r.attempt_id)) bad_attempt_id
    validate_sha256 r.contract_sha256
    started ← parse_timestamp r.started_at_utc
    finished ← parse_timestamp r.finished_at_utc
    refuse (ltb finished.instant started.instant) finishes_early
    validate_chain r.initial_stage 0 r.transitions r.final_stage
    validate_fingerprint (is_failure r.outcome) r.failure_fingerprint
    validate_goal (is_goal_reached r.outcome) r.progress.goal_reached
