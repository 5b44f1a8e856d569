-- ===== src/Session/Completion.antt =====
-- `complete_iteration`: an iteration is judged from its artifacts, its result is stored, and the
-- session takes the state that the result calls for.
use taint_forge_io_t.Attempt.Records.{
  AttemptContract, AttemptResult, validate_progress, validate_result,
}
use taint_forge_io_t.Attempt.Store.{AttemptStore, Slot, load_contract, save_result}
use taint_forge_io_t.Prelude.{
  Bool, Json, List, Option, Result, String, any, eqb, err, get_elem?, length, negsuc, none, ok, pos,
  refuse, require, set, some, suc, zero, ℕ, ℤ, ◌+◌, ◌>>=◌, ◌>>◌, ◌∷◌,
}
use taint_forge_io_t.Progress.Compare.{ProgressDecision, compare_observations}
use taint_forge_io_t.Progress.Events.{ProgressOracleError}
use taint_forge_io_t.Progress.Metrics.{Artifacts, IterationObservation, observe}
use taint_forge_io_t.Repair.Plan.{RepairPlan}
use taint_forge_io_t.Repair.Planner.{plan}
use taint_forge_io_t.Session.Calls.{Externals, replace_session}
use taint_forge_io_t.Session.Controller.{
  Session, of_attempt, some_or, validate_contract_binding, validate_execution_claim,
}
use taint_forge_io_t.Session.Judge.{
  build_attempt_result, decide_stop_reason, resolve_attempt_session_transition,
}
use taint_forge_io_t.Session.Records.{
  IterationRecord, SessionError, SessionManifest, SessionState, StopReason, artifacts_exist,
  bad_artifacts, bad_contract, bad_result, is_active, is_prepared, iteration_completed,
  no_observation, no_such_iteration, not_active, not_latest, not_prepared,
}

-- The arguments of a call and the files that it meets. `repair_plan` is what `RepairPlan.load` reads
-- from the artifacts, if it does not raise.
pub record Completion : Type 0 where
  pub iteration_index : ℤ
  pub artifacts : Artifacts
  pub artifacts_usable : Bool
  pub repair_plan : Option RepairPlan
  pub claim : Slot Json
  pub goal_reached : Bool
  pub goal_reason : Option String
  pub guest_exit_code : Option ℤ
  pub timed_out : Bool

abbrev pub of_oracle : {A : Type 0} → Result ProgressOracleError A → Result SessionError A
of_oracle (ok a) = ok a
of_oracle (err e) = err bad_artifacts

abbrev pub numbered : ℕ → Option IterationRecord → Result SessionError (ℕ × IterationRecord)
numbered n none = err no_such_iteration
numbered n (some r) = ok (n, r)

-- `iterations[i]` for an index in range, and its number.
abbrev pub record_at : ℤ → List IterationRecord → Result SessionError (ℕ × IterationRecord)
record_at (negsuc n) rs = err no_such_iteration
record_at (pos n) rs = numbered n (get_elem? rs n)

unfoldable pub previous_observation :
    SessionManifest → ℕ → Result SessionError (Option IterationObservation)
previous_observation m zero = ok none
previous_observation m (suc i) = do
  previous ← some_or no_observation (get_elem? m.iterations i)
  o ← some_or no_observation previous.observation
  ok (some o)

-- What the call has worked out when it comes to write.
pub record Judgement : Type 0 where
  pub index : ℕ
  pub observation : IterationObservation
  pub plan : RepairPlan
  pub progress : ProgressDecision
  pub result : AttemptResult
  pub attempts : AttemptStore
  pub before : IterationRecord

pub record Observed : Type 0 where
  pub opened : ℕ × IterationRecord × AttemptContract
  pub repair_plan : RepairPlan
  pub seen : IterationObservation
  pub previous : Option IterationObservation

-- The iterations with artifacts after the copy has succeeded or failed.
abbrev pub artifacts_after : Session → Result SessionError Observed → List ℕ
artifacts_after s (ok known) = known.opened.0 ∷ s.artifacts
artifacts_after s (err e) = s.artifacts

module _ (ext : Externals) where
  -- The record that is judged, with its contract.
  unfoldable pub open_iteration :
      Session → Completion → Result SessionError (ℕ × IterationRecord × AttemptContract)
  unfolding validate_contract_binding validate_execution_claim
  open_iteration s c = do
    require (is_active s.manifest.state) not_active
    found ← record_at c.iteration_index s.manifest.iterations
    require (is_prepared found.1.state) not_prepared
    require (eqb (found.0 + 1) (length s.manifest.iterations)) not_latest
    contract ← of_attempt bad_contract (load_contract found.1.attempt_id s.attempts)
    validate_contract_binding s.manifest found.1 contract
    validate_execution_claim c.claim s.manifest.session_id found.1 (ext.contract_sha256 contract)
    require c.artifacts_usable bad_artifacts
    refuse (any (eqb found.0) s.artifacts) artifacts_exist
    ok (found.0, found.1, contract)

  -- What is known when `os.replace` moves the copied artifacts to their place.
  unfoldable pub observe_iteration : Session → Completion → Result SessionError Observed
  unfolding open_iteration previous_observation
  observe_iteration s c = do
    opened ← open_iteration s c
    plan ← some_or bad_artifacts c.repair_plan
    o ← of_oracle (
        observe ext.render ext.canonical_json ext.digests c.artifacts
          opened.1.environment_snapshot_id c.goal_reached c.goal_reason)
    previous ← previous_observation s.manifest opened.0
    ok (record { opened = opened; repair_plan = plan; seen = o; previous = previous })

  -- The result of the attempt, which `AttemptStore.save_result` stores. A result that its own checks
  -- refuse raises their error as it is, which is `bad_result` here as well.
  unfoldable pub store_result : Session → Completion → Observed → Result SessionError Judgement
  unfolding build_attempt_result validate_result validate_progress
  store_result s c known = do
    let result =
        build_attempt_result ext.contract_sha256 ext.make_failure_fingerprint known.opened.2
          known.seen (ext.observation_sha256 known.seen) known.repair_plan c.guest_exit_code
          c.timed_out ext.now
    _ ← of_attempt bad_result (validate_progress result.progress)
    _ ← of_attempt bad_result (validate_result ext.fromisoformat result)
    attempts ←
        of_attempt bad_result (save_result ext.contract_sha256 ext.result_sha256 result s.attempts)
    ok (record {
      index = known.opened.0;
      observation = known.seen;
      plan = known.repair_plan;
      progress = compare_observations ext.canonical_json known.previous known.seen;
      result = result;
      attempts = attempts;
      before = known.opened.1;
    })

  unfoldable pub judge : Session → Completion → Result SessionError Judgement
  unfolding observe_iteration store_result
  judge s c = do known ← observe_iteration s c; store_result s c known

  abbrev pub verdict_of : SessionManifest → Judgement → SessionState × Option StopReason
  verdict_of m j =
      resolve_attempt_session_transition j.result.outcome
        (decide_stop_reason m j.index j.observation)

  abbrev pub completed_record : SessionManifest → Judgement → IterationRecord
  completed_record m j = record {
    index = j.before.index;
    state = iteration_completed;
    environment_snapshot_id = j.before.environment_snapshot_id;
    parent_snapshot_id = j.before.parent_snapshot_id;
    environment_manifest_id = j.before.environment_manifest_id;
    environment_manifest_version = j.before.environment_manifest_version;
    attempt_id = j.before.attempt_id;
    observation = some j.observation;
    repair_plan = some j.plan;
    progress = some j.progress;
    stop_reason = (verdict_of m j).1;
  }

  abbrev pub close : Session → Judgement → Session
  close s j = record {
    manifest =
        replace_session s.manifest
          (set s.manifest.iterations j.index (completed_record s.manifest j))
          (verdict_of s.manifest j).0 (verdict_of s.manifest j).1;
    environments = s.environments;
    attempts = j.attempts;
    artifacts = j.index ∷ s.artifacts;
  }

  -- A call that raises once the artifacts have their place leaves them there.
  abbrev pub settle :
      Session
      → List ℕ
      → Result SessionError Judgement
      → Result SessionError IterationRecord × Session
  settle s artifacts (err e) = (err e, record s { artifacts = artifacts })
  settle s artifacts (ok j) = (ok (completed_record s.manifest j), close s j)

  unfoldable pub complete_iteration :
      Session → Completion → Result SessionError IterationRecord × Session
  unfolding judge
  complete_iteration s c = settle s (artifacts_after s (observe_iteration s c)) (judge s c)
