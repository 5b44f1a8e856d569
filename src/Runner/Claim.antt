-- ===== src/Runner/Claim.antt =====
-- `RunnerStage`, the execution claim and its file. Of the claim, the fields that a later call reads
-- and those that change are kept.
use taint_forge_io_t.Prelude.{Bool, Option, String, false, none, not, true, ℤ, ◌&&◌, ◌||◌}
use taint_forge_io_t.Session.Records.{StopReason}

pub data RunnerStage : Type 0 where
  claimed validated run_prepared executing postprocessing completing run_completed : RunnerStage
  run_failed : RunnerStage

pub record Claim : Type 0 where
  pub attempt_id : String
  pub environment_tree_sha256 : String
  pub stage : RunnerStage
  pub malware_started : Bool
  pub retry_safe : Bool
  pub guest_exit_code : Option ℤ
  pub target_reached : Bool
  pub claim_stop_reason : Option StopReason
  pub is_finished : Bool

-- execution_attempt.json: it may have been created and not written.
pub data ClaimFile : Type 0 where
  unclaimed unwritten : ClaimFile
  written : Claim → ClaimFile

abbrev pub is_failed : RunnerStage → Bool
is_failed run_failed = true
is_failed _ = false

abbrev pub is_final : RunnerStage → Bool
is_final run_completed = true
is_final run_failed = true
is_final _ = false

-- `_create_claim`
abbrev pub first_claim : String → String → Claim
first_claim attempt_id tree_sha256 = record {
  attempt_id = attempt_id;
  environment_tree_sha256 = tree_sha256;
  stage = claimed;
  malware_started = false;
  retry_safe = false;
  guest_exit_code = none;
  target_reached = false;
  claim_stop_reason = none;
  is_finished = false;
}

-- The stage that `_update_claim` sets on top of the updates.
abbrev pub at_stage : RunnerStage → Claim → Claim
at_stage stage c = record c { stage = stage; is_finished = is_final stage || c.is_finished }

-- What `reset_safe_failure` asks of a claim.
abbrev pub is_resettable : Claim → Bool
is_resettable c = is_failed c.stage && not c.malware_started && c.retry_safe

-- The outcome of a step: an exception that `except Exception` catches, or one that it does not, such
-- as a keyboard interrupt.
pub data Exit {ℓ} (A : Type ℓ) : Type ℓ where
  returns : A → Exit A
  raised : Exit A
  interrupted : Exit A
