-- ===== src/Session/Records.antt =====
-- The records of a session. A file that a record names by its path is the value that the program
-- reads from it; the paths themselves are functions of the index and are left out.
use taint_forge_io_t.Prelude.{Bool, List, Option, String, false, none, some, true, ℕ}
use taint_forge_io_t.Progress.Compare.{ProgressDecision}
use taint_forge_io_t.Progress.Metrics.{IterationObservation}
use taint_forge_io_t.Repair.Plan.{RepairPlan}

pub data SessionError : Type 0 where
  not_active still_prepared budget_spent no_manifest seed_mismatch : SessionError
  incomplete_previous no_repair_inputs no_observation bad_attempt : SessionError
  not_repairable contract_mismatch previous_manifest_mismatch : SessionError
  snapshot_mismatch repair_failed manifest_immutable parent_mismatch : SessionError
  bad_contract no_such_iteration artifacts_exist not_prepared not_latest : SessionError
  bad_claim claim_mismatch claim_not_ready bad_artifacts : SessionError
  bad_exit_code bad_result empty_not_active prepared_not_active : SessionError
  no_final_result wrong_final_state : SessionError

pub data SessionState : Type 0 where
  active session_completed session_failed : SessionState

pub data IterationState : Type 0 where
  prepared iteration_completed : IterationState

pub data StopReason : Type 0 where
  stop_goal_reached fixed_point cycle_detected no_automatic_repairs : StopReason
  budget_exhausted execution_timed_out execution_crashed : StopReason
  execution_exited_without_goal : StopReason

pub record IterationRecord : Type 0 where
  pub index : ℕ
  pub state : IterationState
  pub environment_snapshot_id : String
  pub parent_snapshot_id : Option String
  pub environment_manifest_id : String
  pub environment_manifest_version : ℕ
  pub attempt_id : String
  pub observation : Option IterationObservation
  pub repair_plan : Option RepairPlan
  pub progress : Option ProgressDecision
  pub stop_reason : Option StopReason

pub record SessionManifest : Type 0 where
  pub session_id : String
  pub seed_snapshot_id : String
  pub seed_environment_manifest_id : String
  pub sample_sha256 : String
  pub packed_binary_sha256 : String
  pub goal_id : String
  pub max_iterations : ℕ
  pub state : SessionState
  pub stop_reason : Option StopReason
  pub iterations : List IterationRecord

-- The order of declaration of the states and the reasons, for `==`.
unfoldable pub state_rank : SessionState → ℕ
state_rank active = 0
state_rank session_completed = 1
state_rank session_failed = 2

unfoldable pub reason_rank : Option StopReason → ℕ
reason_rank none = 0
reason_rank (some stop_goal_reached) = 1
reason_rank (some fixed_point) = 2
reason_rank (some cycle_detected) = 3
reason_rank (some no_automatic_repairs) = 4
reason_rank (some budget_exhausted) = 5
reason_rank (some execution_timed_out) = 6
reason_rank (some execution_crashed) = 7
reason_rank (some execution_exited_without_goal) = 8

abbrev pub is_active : SessionState → Bool
is_active active = true
is_active _ = false

abbrev pub is_prepared : IterationState → Bool
is_prepared prepared = true
is_prepared iteration_completed = false
