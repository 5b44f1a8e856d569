-- ===== src/Attempt/Stages.antt =====
-- The enumerations of attempt.py and its table of allowed stage transitions.
use taint_forge_io_t.Prelude.{Bool, arith, eqb, false, true, ℕ, ◌≡◌}

pub data RunPurpose : Type 0 where
  discovery fuzzing reconstruction : RunPurpose

pub data ExecutionStage : Type 0 where
  static_preflight pre_oep_discovery oep_candidate oep_validation : ExecutionStage
  post_oep_stabilization boundary_discovery boundary_ready fuzzing : ExecutionStage
  reconstruction : ExecutionStage

pub data AttemptOutcome : Type 0 where
  goal_reached repair_required exited timed_out crashed : AttemptOutcome
  unsupported_dependency isolation_violation backend_incompatible : AttemptOutcome
  execution_error : AttemptOutcome

-- `to in _ALLOWED_STAGE_TRANSITIONS[from]`
unfoldable pub allowed : ExecutionStage → ExecutionStage → Bool
allowed static_preflight pre_oep_discovery = true
allowed static_preflight reconstruction = true
allowed pre_oep_discovery oep_candidate = true
allowed oep_candidate pre_oep_discovery = true
allowed oep_candidate oep_validation = true
allowed oep_validation pre_oep_discovery = true
allowed oep_validation oep_candidate = true
allowed oep_validation post_oep_stabilization = true
allowed post_oep_stabilization oep_candidate = true
allowed post_oep_stabilization boundary_discovery = true
allowed boundary_discovery post_oep_stabilization = true
allowed boundary_discovery boundary_ready = true
allowed boundary_ready fuzzing = true
allowed boundary_ready reconstruction = true
allowed fuzzing boundary_ready = true
allowed _ _ = false

-- The stages in the order of their declaration, for `==`.
unfoldable pub stage_rank : ExecutionStage → ℕ
stage_rank static_preflight = 0
stage_rank pre_oep_discovery = 1
stage_rank oep_candidate = 2
stage_rank oep_validation = 3
stage_rank post_oep_stabilization = 4
stage_rank boundary_discovery = 5
stage_rank boundary_ready = 6
stage_rank fuzzing = 7
stage_rank reconstruction = 8

unfoldable pub same_stage : ExecutionStage → ExecutionStage → Bool
unfolding stage_rank
same_stage a b = eqb (stage_rank a) (stage_rank b)

pub same_stage→eq : (a b : ExecutionStage) → same_stage a b ≡ true → a ≡ b
unfolding same_stage
same_stage→eq a b h = ground arith

pub same_stage_refl : (a : ExecutionStage) → same_stage a a ≡ true
unfolding same_stage
same_stage_refl a = ground arith

-- The outcomes that need a failure fingerprint.
unfoldable pub is_failure : AttemptOutcome → Bool
is_failure goal_reached = false
is_failure exited = false
is_failure _ = true

abbrev pub is_goal_reached : AttemptOutcome → Bool
is_goal_reached goal_reached = true
is_goal_reached _ = false
