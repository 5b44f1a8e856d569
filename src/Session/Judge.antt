-- ===== src/Session/Judge.antt =====
-- `_decide_stop_reason`, `_build_attempt_result`, `_resolve_attempt_session_transition` and
-- `_verify_session_terminal_state`.
use taint_forge_io_t.Attempt.Records.{AttemptContract, AttemptResult}
use taint_forge_io_t.Attempt.Stages.{
  AttemptOutcome, ExecutionStage, crashed, exited, is_failure, repair_required, timed_out,
}
use taint_forge_io_t.Prelude.{
  Bool, List, Option, Result, String, [], any, drop_last, eqb, err, false, get_last?, if◌then◌else◌,
  leb, ltb, none, not, pos, require, some, sort, take, text_lt, true, ℕ, ℤ, ◌&&◌, ◌+◌, ◌==◌, ◌||◌,
  ◌∷◌,
}
use taint_forge_io_t.Progress.Metrics.{IterationObservation}
use taint_forge_io_t.Repair.Plan.{RepairDecision, RepairPlan}
use taint_forge_io_t.Repair.Planner.{plan}
use taint_forge_io_t.Session.Records.{
  IterationRecord, IterationState, SessionError, SessionManifest, SessionState, StopReason, active,
  budget_exhausted, cycle_detected, empty_not_active, execution_crashed,
  execution_exited_without_goal, execution_timed_out, fixed_point, iteration_completed,
  no_automatic_repairs, no_final_result, prepared, prepared_not_active, reason_rank,
  session_completed, session_failed, state_rank, stop_goal_reached, wrong_final_state,
}

abbrev pub prior_observations : List IterationRecord → List IterationObservation
prior_observations [] = []
prior_observations (r ∷ rs) = elim r.observation [
  | none ↦ prior_observations rs
  | some o ↦ o ∷ prior_observations rs
]

abbrev pub same_fingerprint : IterationObservation → IterationObservation → Bool
same_fingerprint a b = a.state_fingerprint == b.state_fingerprint

abbrev pub repeats_last : IterationObservation → Option IterationObservation → Bool
repeats_last o none = false
repeats_last o (some p) = same_fingerprint o p

unfoldable pub decide_stop_reason : SessionManifest → ℕ → IterationObservation → Option StopReason
decide_stop_reason manifest iteration_index o =
    let prior = prior_observations (take iteration_index manifest.iterations) in
    if o.goal_reached
    then some stop_goal_reached
    else if repeats_last o (get_last? prior)
    then some fixed_point
    else if any (same_fingerprint o) (drop_last prior)
    then some cycle_detected
    else if eqb o.metrics.automatic_candidates 0
    then some no_automatic_repairs
    else if leb manifest.max_iterations (iteration_index + 1)
    then some budget_exhausted
    else none

-- `guest_exit_code == 124` of an integer or null.
abbrev pub is_timeout_code : Option ℤ → Bool
is_timeout_code (some (pos n)) = eqb n 124
is_timeout_code _ = false

unfoldable pub outcome_of : IterationObservation → Option ℤ → Bool → AttemptOutcome
outcome_of o guest_exit_code timed_out_flag =
    if o.goal_reached
    then AttemptOutcome.goal_reached
    else if timed_out_flag || is_timeout_code guest_exit_code
    then timed_out
    else if ltb 0 o.metrics.fatal_signals
    then crashed
    else if ltb 0 o.metrics.automatic_candidates
    then repair_required
    else exited

abbrev pub error_code_of : AttemptOutcome → Option String
error_code_of timed_out = some "execution_timeout"
error_code_of crashed = some "fatal_guest_signal"
error_code_of repair_required = some "automatic_repair_candidate"
error_code_of _ = none

abbrev pub automatic_resources : List RepairDecision → List String
automatic_resources [] = []
automatic_resources (d ∷ ds) =
    let rest = automatic_resources ds in if d.automatic_allowed then d.resource ∷ rest else rest

abbrev pub first_resource : List String → Option String
first_resource [] = none
first_resource (s ∷ ss) = some s

unfoldable pub first_automatic_repair_resource : RepairPlan → Option String
first_automatic_repair_resource plan =
    first_resource (sort (λ a b. not (text_lt b a)) (automatic_resources plan.decisions))

-- `make_failure_fingerprint`, a digest of its arguments.
abbrev pub Fingerprint : Type 0
Fingerprint = AttemptOutcome → ExecutionStage → Option ℤ → Option String → Option String → String

module _ (contract_sha256 : AttemptContract → String) (make_failure_fingerprint : Fingerprint) where
  -- The result before the checks of its construction; `observation_sha256` is the digest of the
  -- saved observation, and `finished` the time of the call.
  unfoldable pub build_attempt_result :
      AttemptContract
      → IterationObservation
      → String
      → RepairPlan
      → Option ℤ
      → Bool
      → String
      → AttemptResult
  unfolding outcome_of first_automatic_repair_resource
  build_attempt_result contract o observation_sha256 plan guest_exit_code timed_out_flag finished =
      let outcome = outcome_of o guest_exit_code timed_out_flag in
      record {
        attempt_id = contract.attempt_id;
        contract_sha256 = contract_sha256 contract;
        outcome = outcome;
        initial_stage = contract.initial_stage;
        final_stage = contract.initial_stage;
        progress = record {
          goal_reached = o.goal_reached;
          oracle_reason = o.goal_reason;
          guest_events_total = pos o.metrics.guest_events_total;
          coverage_edges = none;
          observation_sha256 = some observation_sha256;
        };
        transitions = [];
        failure_fingerprint =
            if is_failure outcome
            then some (
                make_failure_fingerprint outcome contract.initial_stage guest_exit_code
                  (error_code_of outcome) (first_automatic_repair_resource plan))
            else none;
        started_at_utc = contract.created_at_utc;
        finished_at_utc = finished;
        schema_version = pos 1;
        result_version = pos 1;
      }

abbrev pub resolve_oracle : Bool → Option StopReason → SessionState × Option StopReason
resolve_oracle repairable (some r) = (session_completed, some r)
resolve_oracle true none = (active, none)
resolve_oracle false none = (session_failed, some execution_exited_without_goal)

unfoldable pub resolve_attempt_session_transition :
    AttemptOutcome → Option StopReason → SessionState × Option StopReason
resolve_attempt_session_transition AttemptOutcome.goal_reached oracle_stop_reason =
    (session_completed, some stop_goal_reached)
resolve_attempt_session_transition timed_out oracle_stop_reason =
    (session_failed, some execution_timed_out)
resolve_attempt_session_transition crashed oracle_stop_reason =
    (session_failed, some execution_crashed)
resolve_attempt_session_transition repair_required oracle_stop_reason =
    resolve_oracle true oracle_stop_reason
resolve_attempt_session_transition _ oracle_stop_reason = resolve_oracle false oracle_stop_reason

abbrev pub same_verdict : SessionState × Option StopReason → SessionState × Option StopReason → Bool
same_verdict (s, r) (t, q) =
    eqb (state_rank s) (state_rank t) && eqb (reason_rank r) (reason_rank q)

-- The check of the latest iteration, in its state, with its result and the session's verdict.
abbrev pub verify_tail :
    Option StopReason
    → SessionState × Option StopReason
    → Option AttemptOutcome
    → IterationState
    → Option StopReason
    → Result SessionError (Unit {0})
verify_tail oracle verdict (some o) prepared reason = err prepared_not_active
verify_tail oracle verdict none prepared reason =
    require (same_verdict verdict (active, none) && eqb (reason_rank reason) 0) prepared_not_active
verify_tail oracle verdict none iteration_completed reason = err no_final_result
verify_tail oracle verdict (some o) iteration_completed reason =
    require
      (same_verdict verdict (resolve_attempt_session_transition o oracle)
        && eqb (reason_rank reason) (reason_rank (resolve_attempt_session_transition o oracle).1))
      wrong_final_state

abbrev pub verify_latest :
    Option StopReason
    → SessionState × Option StopReason
    → Option AttemptOutcome
    → Option IterationRecord
    → Result SessionError (Unit {0})
verify_latest oracle verdict result none =
    require (same_verdict verdict (active, none)) empty_not_active
verify_latest oracle verdict result (some latest) =
    verify_tail oracle verdict result latest.state latest.stop_reason

-- `result` is the outcome of the last iteration, if it has one.
unfoldable pub verify_session_terminal_state :
    SessionManifest → Option AttemptOutcome → Option StopReason → Result SessionError (Unit {0})
verify_session_terminal_state manifest result oracle_stop_reason =
    verify_latest oracle_stop_reason (manifest.state, manifest.stop_reason) result
      (get_last? manifest.iterations)
