-- ===== src/Witness/Sessions.antt =====
-- A session that has prepared its first iteration, and the call that completes it.
use taint_forge_io_t.Attempt.Records.{
  AttemptResult, purpose_allows, validate_chain, validate_contract, validate_sha256,
  validate_progress,
}
use taint_forge_io_t.Attempt.Stages.{is_failure, repair_required, same_stage}
use taint_forge_io_t.Attempt.Store.{
  AttemptStore, absent, directory, load_contract, missing, present, save_contract, save_result,
  stored,
}
use taint_forge_io_t.Prelude.{
  Json, List, String, [], arith, array, boolean, end_fields, end_items, err, false, field, inr,
  is_attempt_id, is_identifier, item, none, object, ok, pos, refl, some, sort, string, true, ◌+◌,
  ◌↔◌, ◌∷◌, ◌≡◌, ◌≢◌,
}
use taint_forge_io_t.Progress.Compare.{compare_observations}
use taint_forge_io_t.Progress.Metrics.{Digests, IterationObservation, observe}
use taint_forge_io_t.Repair.Plan.{RepairPlan}
use taint_forge_io_t.Session.Bounded.{IsBounded, calls-IsBounded, calls_left, complete, prepare}
use taint_forge_io_t.Session.Calls.{
  Externals, check_ready, create_contract, next_environment, prepare_attempt, prepare_next,
  seed_environment,
}
use taint_forge_io_t.Session.Completion.{
  Completion, Judgement, close, complete_iteration, judge, observe_iteration, store_result,
}
use taint_forge_io_t.Session.Controller.{Session}
use taint_forge_io_t.Session.Judge.{
  build_attempt_result, decide_stop_reason, verify_session_terminal_state,
}
use taint_forge_io_t.Session.Records.{
  IterationRecord, active, execution_exited_without_goal, is_active, prepared, repair_failed,
}
use taint_forge_io_t.Session.Verdict.{Continues, completion-Continues, completion_verifies}
use taint_forge_io_t.Witness.Attempts.{any_time, contract, contract_digest, digest, result_digest}

abbrev the_id : String
the_id = "attempt-000-0123456789ab"

abbrev digests_ : Digests
digests_ = record {
  of_requirements = λ xs. "requirements";
  of_repairs = λ xs. "repairs";
  of_behavior = λ xs ys. "behavior";
  of_state = λ a b c d. "state";
}

abbrev pub ext : Externals
ext = record {
  now = "now";
  fromisoformat = any_time;
  contract_sha256 = contract_digest;
  result_sha256 = result_digest;
  observation_sha256 = λ o. digest;
  make_attempt_id = λ n s m. the_id;
  make_failure_fingerprint = λ a b c d e. digest;
  render = λ v. "";
  canonical_json = λ e. "";
  digests = digests_;
  build_repaired_snapshot = λ r p m c a. err repair_failed;
}

abbrev first_iteration_record : IterationRecord
first_iteration_record = record {
  index = 0;
  state = prepared;
  environment_snapshot_id = "env_0";
  parent_snapshot_id = none;
  environment_manifest_id = "manifest-v0000-0";
  environment_manifest_version = 0;
  attempt_id = the_id;
  observation = none;
  repair_plan = none;
  progress = none;
  stop_reason = none;
}

abbrev session_with : List IterationRecord → AttemptStore → Session
session_with iterations attempts = record {
  manifest = record {
    session_id = "session_0";
    seed_snapshot_id = "env_0";
    seed_environment_manifest_id = "manifest-v0000-0";
    sample_sha256 = digest;
    packed_binary_sha256 = digest;
    goal_id = "goal";
    max_iterations = 3;
    state = active;
    stop_reason = none;
    iterations = iterations;
  };
  environments =
      record {
        manifest_id = "manifest-v0000-0";
        manifest_version = 0;
        rootfs_snapshot_id = "env_0";
        sample_sha256 = digest;
        parent_version = none;
        parent_manifest_id = none;
      }
      ∷ [];
  attempts = attempts;
  artifacts = [];
}

abbrev pub fresh : Session
fresh = session_with [] missing

abbrev opened : Session
opened =
    session_with (first_iteration_record ∷ [])
      (present ((the_id, directory (stored contract) absent) ∷ []))

-- One requirement that an automatic repair can meet, and no events.
abbrev requirements_json : Json
requirements_json = object (field "requirements" (array end_items) end_fields)

abbrev plan_json : Json
plan_json = object (
    field "source_sha256" (string "requirements") (
      field "decisions"
        (array (
          item
            (object (
              field "decision_id" (string "d") (
                field "requirement_id" (string "r") (
                  field "resource" (string "/var/run") (
                    field "action" (string "create_directory") (
                      field "disposition" (string "auto_candidate")
                        (field "automatic_allowed" (boolean true) end_fields)))))))
            end_items))
        end_fields))

abbrev pub completion : Completion
completion = record {
  iteration_index = pos 0;
  artifacts = record {
    is_directory = true;
    requirements = some (record { sha256 = "requirements"; content = some requirements_json });
    repair_plan = some (record { sha256 = "plan"; content = some plan_json });
    syscall_events = none;
    network_events = none;
  };
  artifacts_usable = true;
  repair_plan = some (record {
    source_requirements = "requirements.json";
    source_sha256 = "requirements";
    decisions = [];
    warnings = [];
  });
  claim = absent;
  goal_reached = false;
  goal_reason = none;
  guest_exit_code = some (pos 0);
  timed_out = false;
}

abbrev the_observation : IterationObservation
the_observation = record {
  requirements_sha256 = "requirements";
  requirements_fingerprint = "requirements";
  repair_plan_sha256 = "plan";
  repair_fingerprint = "repairs";
  behavior_fingerprint = "behavior";
  state_fingerprint = "state";
  metrics = record {
    guest_events_total = 0;
    unique_guest_events = 0;
    network_events_total = 0;
    unique_network_targets = 0;
    requirements_total = 0;
    unmet_total = 0;
    likely_unmet_total = 0;
    automatic_candidates = 1;
    review_required = 0;
    manual_analysis = 0;
    fatal_signals = 0;
  };
  normalized_guest_events = [];
  normalized_network_events = [];
  goal_reached = false;
  goal_reason = none;
}

abbrev the_plan : RepairPlan
the_plan = record {
  source_requirements = "requirements.json";
  source_sha256 = "requirements";
  decisions = [];
  warnings = [];
}

abbrev the_result : AttemptResult
the_result =
    build_attempt_result contract_digest (λ a b c d e. digest) contract the_observation digest
      the_plan (some (pos 0)) false "now"

-- What the call works out.
abbrev the_judgement : Judgement
the_judgement = record {
  index = 0;
  observation = the_observation;
  plan = the_plan;
  progress = compare_observations (λ e. "") none the_observation;
  result = the_result;
  attempts = present ((the_id, directory (stored contract) (stored the_result)) ∷ []);
  before = first_iteration_record;
}

opened-judged : judge ext opened completion ≡ ok the_judgement
unfolding judge observe_iteration store_result validate_progress load_contract is_attempt_id observe
    is_identifier validate_sha256 validate_chain same_stage is_failure sort save_result
opened-judged = refl

completion-Continues_example :
    ((is_active (complete_iteration ext opened completion).1.manifest.state ≡ true)
      ↔ Continues opened.manifest 0 the_observation completion)
    × ((complete_iteration ext opened completion).1.manifest.stop_reason
        ≢ some execution_exited_without_goal)
completion-Continues_example =
    completion-Continues ext opened completion the_judgement opened-judged

completion_verifies_example :
    verify_session_terminal_state
      (complete_iteration ext opened completion).1.manifest
      (some repair_required)
      (decide_stop_reason (complete_iteration ext opened completion).1.manifest 0 the_observation)
    ≡ ok tt
unfolding build_attempt_result
completion_verifies_example = completion_verifies ext opened completion the_judgement opened-judged

fresh-IsBounded : IsBounded fresh.manifest
fresh-IsBounded = record { within = omega arith; room = inr (inr (omega arith)) }

calls-IsBounded_example :
    (2 + calls_left (close ext opened the_judgement).manifest ≡ calls_left fresh.manifest)
    × IsBounded (close ext opened the_judgement).manifest
unfolding prepare_next check_ready next_environment seed_environment prepare_attempt create_contract
    validate_contract purpose_allows save_contract complete_iteration judge observe_iteration
    store_result validate_progress load_contract is_attempt_id observe is_identifier validate_sha256
    validate_chain same_stage is_failure sort save_result
calls-IsBounded_example =
    calls-IsBounded ext (prepare ∷ complete completion ∷ []) fresh (close ext opened the_judgement)
      fresh-IsBounded refl
