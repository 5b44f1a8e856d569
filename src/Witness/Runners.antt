-- ===== src/Witness/Runners.antt =====
-- A runner whose outside is the number of the starts and the marker.
use taint_forge_io_t.Prelude.{
  Bool, [], arith, false, none, pos, refl, some, true, ℕ, ◌+◌, ◌∷◌, ◌≡◌, ◌≤◌,
}
use taint_forge_io_t.Runner.Calls.{make_calls, make_calls-starts, reset_call, run_call}
use taint_forge_io_t.Runner.Claim.{Exit, raised, returns, unclaimed}
use taint_forge_io_t.Runner.Hoare.{IsLawful, Quiet}
use taint_forge_io_t.Runner.Run.{reset_safe_failure, run_and_complete}
use taint_forge_io_t.Runner.Site.{RunnerConfig, RunnerSteps, Site, no_run_dir}
use taint_forge_io_t.Session.Records.{IterationRecord, SessionManifest, active, prepared}

abbrev Outside : Type 0
Outside = ℕ × Bool

abbrev iteration : IterationRecord
iteration = record {
  index = 0;
  state = prepared;
  environment_snapshot_id = "snapshot";
  parent_snapshot_id = none;
  environment_manifest_id = "manifest";
  environment_manifest_version = 0;
  attempt_id = "attempt";
  observation = none;
  repair_plan = none;
  progress = none;
  stop_reason = none;
}

abbrev session : SessionManifest
session = record {
  session_id = "session";
  seed_snapshot_id = "snapshot";
  seed_environment_manifest_id = "manifest";
  sample_sha256 = "sample";
  packed_binary_sha256 = "packed";
  goal_id = "goal";
  max_iterations = 3;
  state = active;
  stop_reason = none;
  iterations = iteration ∷ [];
}

abbrev quietly : Outside → Outside × Exit (Unit {0})
quietly w = (w, returns tt)

-- The session cannot be completed, so the run fails behind the guest.
abbrev steps : RunnerSteps Outside
steps = record {
  verify = λ w. returns session;
  load = λ w. returns session;
  snapshot_digest = λ w r. returns "tree";
  rootfs_digest = λ w r. some "tree";
  other_checks = λ w s r. returns tt;
  run_directory = λ w r. no_run_dir;
  has_marker = λ w r. w.1;
  create_claim = λ w. (w, returns true);
  write_claim = λ w c. quietly w;
  prepare_run_directory = quietly;
  check_host_dependencies = quietly;
  create_network_backend = quietly;
  setup_network = quietly;
  cleanup_network = λ w b. quietly w;
  capture_before = quietly;
  execute_guest = λ w. ((w.0 + 1, true), returns (pos 0));
  normalize_log_ownership = quietly;
  postprocess = λ w code. quietly w;
  evaluate_target_state = λ w. (w, returns none);
  validate_final_artifacts = quietly;
  complete_iteration = λ w g code t. (w, raised);
  remove_run_directory = quietly;
  unlink_claim = quietly;
}

abbrev starts : Outside → ℕ
starts w = w.0

stays : (w : Outside) → Quiet steps starts w w
stays w = (refl, λ r h. h)

steps-IsLawful : IsLawful steps starts
steps-IsLawful = record {
  create_claim_quiet = stays;
  write_claim_quiet = λ w c. stays w;
  prepare_quiet = stays;
  dependencies_quiet = stays;
  backend_quiet = stays;
  setup_quiet = stays;
  cleanup_quiet = λ w b. stays w;
  capture_quiet = stays;
  ownership_quiet = stays;
  postprocess_quiet = λ w code. stays w;
  evaluate_quiet = stays;
  artifacts_quiet = stays;
  complete_quiet = λ w g code t. stays w;
  guest_at_most_once = λ w. omega arith;
  guest_behind_marker = λ w r h. ground (arith, h);
  remove_starts = λ w. refl;
  unlink_starts = λ w. refl;
}

abbrev config : RunnerConfig
config = record { iteration_index = 0; is_controlled = true; is_goal_marked = false }

abbrev site : Site Outside
site = record { claim = unclaimed; outside = (0, false); has_backend = false; exit_code = none }

make_calls-starts_example :
    starts
      (make_calls steps (run_call config ∷ reset_call config ∷ run_call config ∷ []) site).outside
    ≤ 1
make_calls-starts_example =
    make_calls-starts steps starts steps-IsLawful
      (run_call config ∷ reset_call config ∷ run_call config ∷ []) site refl refl

-- The run has started the sample, and the reset has refused.
failed_run : (make_calls steps (run_call config ∷ reset_call config ∷ []) site).outside ≡ (1, true)
unfolding make_calls reset_safe_failure run_and_complete
failed_run = refl
