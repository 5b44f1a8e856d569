-- ===== src/Session/Calls.antt =====
-- `prepare_next` and `complete_iteration`. A call gives its answer and the session that it leaves,
-- also when it raises.
use taint_forge_io_t.Attempt.Records.{
  AttemptContract, AttemptError, AttemptResult, Timestamp, validate_contract,
}
use taint_forge_io_t.Attempt.Stages.{discovery, pre_oep_discovery}
use taint_forge_io_t.Attempt.Store.{AttemptStore, save_contract, verify_attempt}
use taint_forge_io_t.Prelude.{
  Json, List, Option, Result, String, [], err, false, get_elem?, get_last?, leb, length, none, ok,
  pos, refuse, require, some, true, ℕ, ◌++◌, ◌==◌, ◌>>=◌, ◌>>◌, ◌∷◌,
}
use taint_forge_io_t.Progress.Events.{GuestEvent}
use taint_forge_io_t.Progress.Metrics.{Digests, IterationObservation}
use taint_forge_io_t.Repair.Plan.{RepairPlan}
use taint_forge_io_t.Repair.Planner.{plan}
use taint_forge_io_t.Session.Controller.{
  EnvironmentManifest, Session, is_repair_required, of_attempt, save_environment, some_or,
  validate_contract_binding,
}
use taint_forge_io_t.Session.Judge.{Fingerprint}
use taint_forge_io_t.Session.Records.{
  IterationRecord, SessionError, SessionManifest, SessionState, StopReason, bad_attempt,
  bad_contract, budget_spent, incomplete_previous, is_active, is_prepared, no_manifest,
  no_observation, no_repair_inputs, not_active, not_repairable, prepared,
  previous_manifest_mismatch, seed_mismatch, snapshot_mismatch, still_prepared,
}

-- What the code obtains from outside this model: the clock, the digests, the ISO-8601 parser, the
-- name of an attempt, and the application of a repair plan to a copy of a snapshot.
pub record Externals : Type 0 where
  pub now : String
  pub fromisoformat : String → Option Timestamp
  pub contract_sha256 : AttemptContract → String
  pub result_sha256 : AttemptResult → String
  pub observation_sha256 : IterationObservation → String
  pub make_attempt_id : ℕ → String → String → String
  pub make_failure_fingerprint : Fingerprint
  pub render : Json → String
  pub canonical_json : GuestEvent → String
  pub digests : Digests
  pub build_repaired_snapshot :
      IterationRecord
      → RepairPlan
      → EnvironmentManifest
      → AttemptContract
      → AttemptResult
      → Result SessionError (String × EnvironmentManifest)

-- The environment of the next iteration, with the snapshot that it starts from.
pub record Environment : Type 0 where
  pub parent_snapshot_id : Option String
  pub snapshot_id : String
  pub manifest : EnvironmentManifest

abbrev pub replace_session :
    SessionManifest → List IterationRecord → SessionState → Option StopReason → SessionManifest
replace_session m iterations state stop_reason = record m {
  iterations = iterations;
  state = state;
  stop_reason = stop_reason;
}

module _ (ext : Externals) where
  unfoldable pub seed_environment : Session → Result SessionError Environment
  seed_environment s = do
    m ← some_or no_manifest (get_elem? s.environments 0)
    require (m.manifest_id == s.manifest.seed_environment_manifest_id) seed_mismatch
    ok (record {
      parent_snapshot_id = none;
      snapshot_id = s.manifest.seed_snapshot_id;
      manifest = m;
    })

  -- The code also looks for the files runtime_requirements.json and repair_plan.json; a completed
  -- iteration has both, since complete_iteration copies the artifacts only with both, and nothing
  -- else is taken to remove them.
  unfoldable pub repaired_environment : Session → IterationRecord → Result SessionError Environment
  unfolding validate_contract_binding
  repaired_environment s previous = do
    refuse (is_prepared previous.state) incomplete_previous
    plan ← some_or no_repair_inputs previous.repair_plan
    _ ← some_or no_observation previous.observation
    m ← some_or no_manifest (get_elem? s.environments previous.environment_manifest_version)
    verified ←
        of_attempt bad_attempt
          (verify_attempt ext.contract_sha256 ext.result_sha256 previous.attempt_id true s.attempts)
    result ← some_or not_repairable verified.1
    require (is_repair_required result.outcome) not_repairable
    validate_contract_binding s.manifest previous verified.0
    require (m.manifest_id == previous.environment_manifest_id) previous_manifest_mismatch
    require (m.rootfs_snapshot_id == previous.environment_snapshot_id) previous_manifest_mismatch
    built ← ext.build_repaired_snapshot previous plan m verified.0 result
    ok (record {
      parent_snapshot_id = some previous.environment_snapshot_id;
      snapshot_id = built.0;
      manifest = built.1;
    })

  -- `AttemptContract.create` with its checks.
  unfoldable pub create_contract :
      SessionManifest → ℕ → EnvironmentManifest → Result AttemptError AttemptContract
  unfolding validate_contract
  create_contract manifest index m =
      let contract : AttemptContract = record {
        attempt_id = ext.make_attempt_id index manifest.sample_sha256 m.manifest_id;
        attempt_index = pos index;
        purpose = discovery;
        sample_sha256 = manifest.sample_sha256;
        packed_binary_sha256 = manifest.packed_binary_sha256;
        environment_manifest_id = m.manifest_id;
        environment_manifest_version = pos m.manifest_version;
        goal_id = manifest.goal_id;
        initial_stage = pre_oep_discovery;
        schema_version = pos 1;
        contract_version = pos 1;
        created_at_utc = ext.now;
      } in
      validate_contract ext.fromisoformat contract >>= λ _. ok contract

  abbrev pub prepared_record : ℕ → Environment → AttemptContract → IterationRecord
  prepared_record index e contract = record {
    index = index;
    state = prepared;
    environment_snapshot_id = e.snapshot_id;
    parent_snapshot_id = e.parent_snapshot_id;
    environment_manifest_id = e.manifest.manifest_id;
    environment_manifest_version = e.manifest.manifest_version;
    attempt_id = contract.attempt_id;
    observation = none;
    repair_plan = none;
    progress = none;
    stop_reason = none;
  }

  -- The guards of `prepare_next`.
  unfoldable pub check_ready : SessionManifest → Result SessionError (Unit {0})
  check_ready m = do
    require (is_active m.state) not_active
    refuse (elim (get_last? m.iterations) [ none ↦ false | some r ↦ is_prepared r.state ])
        still_prepared
    refuse (leb m.max_iterations (length m.iterations)) budget_spent

  -- The environment, and the environment manifests after it has been saved.
  unfoldable pub next_environment :
      Session → Result SessionError (Environment × List EnvironmentManifest)
  unfolding seed_environment repaired_environment
  next_environment s = elim (get_last? s.manifest.iterations) [
    | none ↦ seed_environment s >>= λ e. ok (e, s.environments)
    | some previous ↦ repaired_environment s previous >>= λ e.
        save_environment s.environments e.manifest >>= λ saved. ok (e, saved)
  ]

  unfoldable pub prepare_attempt :
      SessionManifest
      → Environment
      → AttemptStore
      → Result SessionError (IterationRecord × AttemptStore)
  unfolding create_contract
  prepare_attempt m e attempts = do
    require (e.manifest.rootfs_snapshot_id == e.snapshot_id) snapshot_mismatch
    contract ← of_attempt bad_contract (create_contract m (length m.iterations) e.manifest)
    attempts' ←
        of_attempt bad_contract
          (save_contract ext.contract_sha256 ext.result_sha256 contract attempts)
    ok (prepared_record (length m.iterations) e contract, attempts')

  abbrev pub after_attempt :
      Session
      → List EnvironmentManifest
      → Result SessionError (IterationRecord × AttemptStore)
      → Result SessionError IterationRecord × Session
  after_attempt s saved (err e) = (err e, record s { environments = saved })
  after_attempt s saved (ok (r, attempts)) = (
    ok r,
    record {
      manifest =
          replace_session s.manifest (s.manifest.iterations ++ (r ∷ [])) s.manifest.state none;
      environments = saved;
      attempts = attempts;
      artifacts = s.artifacts;
    },
  )

  abbrev pub after_environment :
      Session
      → Result SessionError (Environment × List EnvironmentManifest)
      → Result SessionError IterationRecord × Session
  after_environment s (err e) = (err e, s)
  after_environment s (ok (e, saved)) =
      after_attempt s saved (prepare_attempt s.manifest e s.attempts)

  abbrev pub after_check :
      Session → Result SessionError (Unit {0}) → Result SessionError IterationRecord × Session
  after_check s (err e) = (err e, s)
  after_check s (ok u) = after_environment s (next_environment s)

  -- A failure after the contract is saved can only come from the file system, and is left out.
  unfoldable pub prepare_next : Session → Result SessionError IterationRecord × Session
  prepare_next s = after_check s (check_ready s.manifest)
