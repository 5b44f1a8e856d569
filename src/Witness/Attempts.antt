-- ===== src/Witness/Attempts.antt =====
-- An attempt that reaches the fuzzing stage, and a store with one attempt.
use taint_forge_io_t.Attempt.Passage.{fuzzing_passes_stages, visits}
use taint_forge_io_t.Attempt.Records.{
  AttemptContract, AttemptResult, StageTransition, Timestamp, validate_chain, validate_result,
  validate_sha256, validate_transition,
}
use taint_forge_io_t.Attempt.Stages.{
  ExecutionStage, allowed, boundary_discovery, boundary_ready, discovery, exited, is_failure,
  oep_candidate, oep_validation, post_oep_stabilization, pre_oep_discovery, same_stage,
  static_preflight,
}
use taint_forge_io_t.Attempt.Store.{
  AttemptStore, directory, load_contract, load_result, present, save_contract, stored,
}
use taint_forge_io_t.Attempt.Store.Append.{
  Save, load_contract-save_all, load_contract-save_contract_self, load_result-save_all, of_contract,
  of_result, save_all,
}
use taint_forge_io_t.Prelude.{
  List, Option, String, [], arith, false, is_attempt_id, is_hex_of_length, is_identifier, none, ok,
  pos, refl, some, strip, true, ℕ, ◌∷◌, ◌≡◌,
}

abbrev pub digest : String
digest = "0123456789abcdef0123456789abcdef0123456789abcdef0123456789abcdef"

abbrev pub any_time : String → Option Timestamp
any_time s = some (record { aware = true; instant = 0 })

abbrev step : ℕ → ExecutionStage → ExecutionStage → StageTransition
step n a b = record {
  sequence = pos n;
  from_stage = a;
  to_stage = b;
  reason = "observed";
  evidence_event_id = "event-1";
  timestamp_utc = "now";
}

abbrev result_to : ExecutionStage → ExecutionStage → List StageTransition → AttemptResult
result_to initial final transitions = record {
  attempt_id = "attempt-000-0123456789ab";
  contract_sha256 = digest;
  outcome = exited;
  initial_stage = initial;
  final_stage = final;
  progress = record {
    goal_reached = false;
    oracle_reason = none;
    guest_events_total = pos 0;
    coverage_edges = none;
    observation_sha256 = none;
  };
  transitions = transitions;
  failure_fingerprint = none;
  started_at_utc = "now";
  finished_at_utc = "now";
  schema_version = pos 1;
  result_version = pos 1;
}

abbrev fuzzing_result : AttemptResult
fuzzing_result = result_to static_preflight ExecutionStage.fuzzing (
    step 0 static_preflight pre_oep_discovery
    ∷ step 1 pre_oep_discovery oep_candidate
    ∷ step 2 oep_candidate oep_validation
    ∷ step 3 oep_validation post_oep_stabilization
    ∷ step 4 post_oep_stabilization boundary_discovery
    ∷ step 5 boundary_discovery boundary_ready
    ∷ step 6 boundary_ready ExecutionStage.fuzzing
    ∷ [])

fuzzing_passes_stages_example :
    visits oep_validation fuzzing_result.initial_stage fuzzing_result.transitions ≡ true
unfolding validate_result validate_transition is_identifier validate_sha256 is_hex_of_length
    validate_chain same_stage is_failure allowed strip
fuzzing_passes_stages_example =
    fuzzing_passes_stages any_time fuzzing_result oep_validation
      (refl, (refl, (refl, (refl, (refl, (refl, (refl, (refl, tt)))))))) refl refl (ground arith)

abbrev pub contract : AttemptContract
contract = record {
  attempt_id = "attempt-000-0123456789ab";
  attempt_index = pos 0;
  purpose = discovery;
  sample_sha256 = digest;
  packed_binary_sha256 = digest;
  environment_manifest_id = "manifest-v0000-0";
  environment_manifest_version = pos 0;
  goal_id = "goal";
  initial_stage = pre_oep_discovery;
  schema_version = pos 1;
  contract_version = pos 1;
  created_at_utc = "now";
}

abbrev pub contract_digest : AttemptContract → String
contract_digest c = digest

abbrev pub result_digest : AttemptResult → String
result_digest r = r.finished_at_utc

abbrev result_ : AttemptResult
result_ = result_to pre_oep_discovery pre_oep_discovery []

-- One attempt with its contract and its result.
abbrev full_store : AttemptStore
full_store =
    present (("attempt-000-0123456789ab", directory (stored contract) (stored result_)) ∷ [])

abbrev later_result : AttemptResult
later_result = record result_ { finished_at_utc = "later" }

abbrev saves : List Save
saves = of_contract (record contract { goal_id = "other" }) ∷ of_result later_result ∷ []

load_contract-save_all_example :
    load_contract "attempt-000-0123456789ab"
      (save_all contract_digest result_digest full_store saves)
    ≡ ok contract
unfolding load_contract is_attempt_id
load_contract-save_all_example =
    load_contract-save_all contract_digest result_digest "attempt-000-0123456789ab" saves full_store
      contract refl

load_result-save_all_example :
    load_result contract_digest result_digest "attempt-000-0123456789ab"
      (save_all contract_digest result_digest full_store saves)
    ≡ ok result_
unfolding load_result is_attempt_id same_stage
load_result-save_all_example =
    load_result-save_all contract_digest result_digest "attempt-000-0123456789ab" saves full_store
      result_ refl

load_contract-save_contract_self_example :
    (c' : AttemptContract) × (load_contract "attempt-000-0123456789ab" full_store ≡ ok c')
    × (contract_digest c' ≡ contract_digest contract)
unfolding save_contract is_attempt_id
load_contract-save_contract_self_example =
    load_contract-save_contract_self contract_digest result_digest contract full_store full_store
      refl
