-- ===== src/Runner/Site.antt =====
-- The steps of a run on the outside, and the site of a prepared iteration that they act on.
use taint_forge_io_t.Prelude.{Bool, Option, String, false, true, ℕ, ℤ}
use taint_forge_io_t.Runner.Claim.{Claim, ClaimFile, Exit, interrupted, raised, returns}
use taint_forge_io_t.Session.Records.{IterationRecord, SessionManifest, StopReason}

pub record RunnerConfig : Type 0 where
  pub iteration_index : ℕ
  pub is_controlled : Bool
  pub is_goal_marked : Bool

-- `run` as a directory entry.
pub data RunDirectory : Type 0 where
  no_run_dir run_dir_there run_dir_symlink : RunDirectory

-- The steps on the outside `W`. The first group only reads.
pub record RunnerSteps (W : Type 0) : Type 0 where
  pub verify : W → Exit SessionManifest
  pub load : W → Exit SessionManifest
  -- The digests of the snapshot of an iteration, and of its execution rootfs if it can be scanned.
  pub snapshot_digest : W → IterationRecord → Exit String
  pub rootfs_digest : W → IterationRecord → Option String
  -- The checks of `validate` on the template, the binaries, the contract and the target.
  pub other_checks : W → SessionManifest → IterationRecord → Exit (Unit {0})
  pub run_directory : W → IterationRecord → RunDirectory
  pub has_marker : W → IterationRecord → Bool
  pub create_claim : W → W × Exit Bool
  pub write_claim : W → Claim → W × Exit (Unit {0})
  pub prepare_run_directory : W → W × Exit (Unit {0})
  pub check_host_dependencies : W → W × Exit (Unit {0})
  pub create_network_backend : W → W × Exit (Unit {0})
  pub setup_network : W → W × Exit (Unit {0})
  pub cleanup_network : W → Bool → W × Exit (Unit {0})
  pub capture_before : W → W × Exit (Unit {0})
  pub execute_guest : W → W × Exit ℤ
  pub normalize_log_ownership : W → W × Exit (Unit {0})
  pub postprocess : W → ℤ → W × Exit (Unit {0})
  pub evaluate_target_state : W → W × Exit (Option Bool)
  pub validate_final_artifacts : W → W × Exit (Unit {0})
  pub complete_iteration : W → Bool → ℤ → Bool → W × Exit (Option StopReason)
  pub remove_run_directory : W → W × Exit (Unit {0})
  pub unlink_claim : W → W × Exit (Unit {0})

-- The claim's file and the outside, with the local variables of `run_and_complete` that its handler
-- reads: whether there is a network backend, and the exit code of the guest.
pub record Site (W : Type 0) : Type 0 where
  pub claim : ClaimFile
  pub outside : W
  pub has_backend : Bool
  pub exit_code : Option ℤ

module _ {W : Type 0} where
  -- One step behind another.
  infixl 10 ◌then◌
  abbrev pub ◌then◌ :
      {A B : Type 0} → Site W × Exit A → (A → Site W → Site W × Exit B) → Site W × Exit B
  (s, returns a) then f = f a s
  (s, raised) then f = (s, raised)
  (s, interrupted) then f = (s, interrupted)

  -- A step of the outside leaves the claim.
  abbrev pub outer : {A : Type 0} → Site W → W × Exit A → Site W × Exit A
  outer s r = (record s { outside = r.0 }, r.1)

  -- A check on what has been read.
  abbrev pub check : Bool → Site W → Site W × Exit (Unit {0})
  check true s = (s, returns tt)
  check false s = (s, raised)

  abbrev pub done : {A : Type 0} → A → Site W → Site W × Exit A
  done a s = (s, returns a)
