-- ===== src/Runner/Run.antt =====
-- `run_and_complete` and `reset_safe_failure`, over the steps that act on the outside.
use Prim.Native.Char.{code}
use taint_forge_io_t.Prelude.{
  Bool, Option, String, eqb, false, get_elem?, length, negsuc, none, not, pos, some, true, ℤ, ◌&&◌,
  ◌+◌, ◌==◌, ◌||◌,
}
use taint_forge_io_t.Runner.Claim.{
  Claim, ClaimFile, Exit, at_stage, completing, executing, first_claim, interrupted, is_failed,
  postprocessing, raised, returns, run_completed, run_failed, run_prepared, unclaimed, unwritten,
  validated, written,
}
use taint_forge_io_t.Runner.Site.{
  RunDirectory, RunnerConfig, RunnerSteps, Site, check, done, no_run_dir, outer, run_dir_symlink,
  run_dir_there, ◌then◌,
}
use taint_forge_io_t.Session.Records.{IterationRecord, SessionManifest, is_active, is_prepared}

-- A run that timed out has the exit code 124.
abbrev code_is_timeout : ℤ → Bool
code_is_timeout (pos n) = eqb n 124
code_is_timeout (negsuc n) = false

module _ {W : Type 0} (steps : RunnerSteps W) where
  -- `_update_claim`: the file is replaced where the write succeeds.
  abbrev pub replaced : Claim → Site W → W × Exit (Unit {0}) → Site W × Exit Claim
  replaced new s (w, returns u) = (record s { claim = written new; outside = w }, returns new)
  replaced new s (w, raised) = (record s { outside = w }, raised)
  replaced new s (w, interrupted) = (record s { outside = w }, interrupted)

  abbrev pub update_claim : Claim → Site W → Site W × Exit Claim
  update_claim new s = replaced new s (steps.write_claim s.outside new)

  -- `_create_claim`: the file is created only where there is none; `false` is a failed write.
  abbrev pub created : Claim → Site W → W × Exit Bool → Site W × Exit Claim
  created c s (w, returns true) = (record s { claim = written c; outside = w }, returns c)
  created c s (w, returns false) = (record s { claim = unwritten; outside = w }, raised)
  created c s (w, raised) = (record s { outside = w }, raised)
  created c s (w, interrupted) = (record s { claim = unwritten; outside = w }, interrupted)

  abbrev pub create_claim_in : Claim → ClaimFile → Site W → Site W × Exit Claim
  create_claim_in c unclaimed s = created c s (steps.create_claim s.outside)
  create_claim_in c file s = (s, raised)

  abbrev pub is_unclaimed : ClaimFile → Bool
  is_unclaimed unclaimed = true
  is_unclaimed _ = false

  abbrev pub is_absent : RunDirectory → Bool
  is_absent no_run_dir = true
  is_absent _ = false

  abbrev pub record_or_error : Option IterationRecord → Site W → Site W × Exit IterationRecord
  record_or_error none s = (s, raised)
  record_or_error (some r) s = (s, returns r)

  abbrev pub same_digest : Option String → String → Bool
  same_digest none expected = false
  same_digest (some actual) expected = actual == expected

  -- The latest iteration, prepared, of an active session: the guards of `validate` and of
  -- `reset_safe_failure`.
  abbrev pub latest_prepared :
      RunnerConfig → SessionManifest → Site W → Site W × Exit IterationRecord
  latest_prepared config session s = check (is_active session.state) s then λ _ s.
      record_or_error (get_elem? session.iterations config.iteration_index) s then λ iteration s.
      check (is_prepared iteration.state) s then λ _ s.
      check (eqb (config.iteration_index + 1) (length session.iterations)) s then λ _ s.
      done iteration s

  -- `validate`: the iteration, and the digest of its environment.
  unfoldable pub validate_run : RunnerConfig → Site W → Site W × Exit (IterationRecord × String)
  validate_run config s = (s, steps.verify s.outside) then λ session s.
      latest_prepared config session s then λ iteration s.
      (s, steps.snapshot_digest s.outside iteration) then λ expected s.
      check (same_digest (steps.rootfs_digest s.outside iteration) expected) s then λ _ s.
      (s, steps.other_checks s.outside session iteration) then λ _ s.
      check (is_absent (steps.run_directory s.outside iteration)) s then λ _ s.
      check (is_unclaimed s.claim) s then λ _ s. done (iteration, expected) s

  abbrev pub setup : Bool → Site W → Site W × Exit (Unit {0})
  setup true s = outer s (steps.create_network_backend s.outside) then λ _ s.
      outer (record s { has_backend = true }) (steps.setup_network s.outside)
  setup false s = (s, returns tt)

  -- `finally: network_backend.cleanup(finalize_logs=True)`: an exception of its own replaces the
  -- outcome of the block.
  abbrev pub finally : {A : Type 0} → Bool → Site W × Exit A → Site W × Exit A
  finally false r = r
  finally true (s, x) = outer s (steps.cleanup_network s.outside true) then λ _ t. (t, x)

  abbrev pub guest_steps : RunnerConfig → Claim → Site W → Site W × Exit (Claim × ℤ)
  guest_steps config c s = outer s (steps.capture_before s.outside) then λ _ s.
      update_claim (at_stage executing (record c { malware_started = false })) s then λ c s.
      outer s (steps.execute_guest s.outside) then λ code s.
      done (c, code) (record s { exit_code = some code })

  abbrev pub is_reached : Option Bool → Bool
  is_reached none = false
  is_reached (some b) = b

  -- The `try` block up to the end of the guest.
  unfoldable pub before_guest : RunnerConfig → Claim → Site W → Site W × Exit Claim
  before_guest config c s = update_claim (at_stage validated c) s then λ c s.
      outer s (steps.prepare_run_directory s.outside) then λ _ s.
      update_claim (at_stage run_prepared c) s then λ c s.
      outer s (steps.check_host_dependencies s.outside) then λ _ s.
      setup config.is_controlled s then λ _ s. done c s

  -- Behind the guest: the artifacts, the goal and the session.
  unfoldable pub after_guest : RunnerConfig → Claim → ℤ → Site W → Site W × Exit Claim
  after_guest config c code s =
      update_claim
        (at_stage postprocessing (record c { malware_started = true; guest_exit_code = some code }))
        s
      then λ c s. outer s (steps.normalize_log_ownership s.outside) then λ _ s.
          outer s (steps.postprocess s.outside code) then λ _ s.
          outer s (steps.evaluate_target_state s.outside) then λ evaluation s.
          outer s (steps.validate_final_artifacts s.outside) then λ _ s.
          update_claim
            (at_stage completing
              (record c { guest_exit_code = some code; target_reached = is_reached evaluation }))
            s
          then λ c s.
              outer s (
                steps.complete_iteration s.outside (is_reached evaluation || config.is_goal_marked)
                  code (code_is_timeout code))
              then λ reason s.
                  update_claim
                    (at_stage run_completed (record c {
                      guest_exit_code = some code;
                      claim_stop_reason = reason;
                      retry_safe = false;
                    }))
                    s

  unfoldable pub try_block : RunnerConfig → Claim → Site W → Site W × Exit Claim
  unfolding before_guest after_guest
  try_block config c s = before_guest config c s then λ c s.
      finally s.has_backend (guest_steps config c s) then λ p s. after_guest config p.0 p.1 s

  -- The handler of `run_and_complete`. An exception of its own steps is dropped.
  abbrev pub dropped : {A : Type 0} → Site W × Exit A → Site W × Exit (Unit {0})
  dropped (s, returns a) = (s, returns tt)
  dropped (s, raised) = (s, returns tt)
  dropped (s, interrupted) = (s, interrupted)

  abbrev pub cleanup_quietly : Bool → Site W → Site W × Exit (Unit {0})
  cleanup_quietly true s = dropped (outer s (steps.cleanup_network s.outside false))
  cleanup_quietly false s = (s, returns tt)

  abbrev pub failed_claim : IterationRecord → Site W → Claim → Claim
  failed_claim iteration s c =
      let started = steps.has_marker s.outside iteration in
      at_stage run_failed (record c {
        malware_started = started;
        guest_exit_code = s.exit_code;
        retry_safe =
            not started
            && same_digest (steps.rootfs_digest s.outside iteration) c.environment_tree_sha256;
      })

  -- Inside the `try` block the claim is written.
  abbrev pub mark_failed : IterationRecord → ClaimFile → Site W → Site W × Exit (Unit {0})
  mark_failed iteration (written c) s = dropped (update_claim (failed_claim iteration s c) s)
  mark_failed iteration file s = (s, returns tt)

  abbrev pub handled : IterationRecord → Site W × Exit Claim → Site W × Exit Claim
  handled iteration (s, returns c) = (s, returns c)
  handled iteration (s, raised) = cleanup_quietly s.has_backend s then λ _ s.
      mark_failed iteration s.claim s then λ _ s. (s, raised)
  handled iteration (s, interrupted) = (s, interrupted)

  unfoldable pub run_and_complete : RunnerConfig → Site W → Site W × Exit Claim
  unfolding validate_run try_block
  run_and_complete config s =
      validate_run config (record s { has_backend = false; exit_code = none }) then λ p s.
      create_claim_in (first_claim p.0.attempt_id p.1) s.claim s then λ c s.
      handled p.0 (try_block config c s)

  -- `claim.get(...)` of the object that the file holds.
  abbrev pub load_claim : ClaimFile → Site W → Site W × Exit Claim
  load_claim (written c) s = (s, returns c)
  load_claim file s = (s, raised)

  abbrev pub remove_run : RunDirectory → Site W → Site W × Exit (Unit {0})
  remove_run no_run_dir s = (s, returns tt)
  remove_run run_dir_there s = outer s (steps.remove_run_directory s.outside)
  remove_run run_dir_symlink s = (s, raised)

  abbrev pub unlinked : Site W → W × Exit (Unit {0}) → Site W × Exit (Unit {0})
  unlinked s (w, returns u) = (record s { claim = unclaimed; outside = w }, returns u)
  unlinked s (w, raised) = (record s { outside = w }, raised)
  unlinked s (w, interrupted) = (record s { outside = w }, interrupted)

  abbrev pub reset_files : IterationRecord → Site W → Site W × Exit (Unit {0})
  reset_files iteration s = remove_run (steps.run_directory s.outside iteration) s then λ _ s.
      unlinked s (steps.unlink_claim s.outside)

  abbrev pub reset_claim : IterationRecord → Claim → Site W → Site W × Exit (Unit {0})
  reset_claim iteration c s = check (c.attempt_id == iteration.attempt_id) s then λ _ s.
      check (is_failed c.stage) s then λ _ s. check (not c.malware_started) s then λ _ s.
      check c.retry_safe s then λ _ s.
      (s, steps.snapshot_digest s.outside iteration) then λ expected s.
      check (same_digest (steps.rootfs_digest s.outside iteration) expected) s then λ _ s.
      reset_files iteration s

  -- `reset_safe_failure`, under the lock of the session.
  unfoldable pub reset_safe_failure : RunnerConfig → Site W → Site W × Exit (Unit {0})
  reset_safe_failure config s = (s, steps.load s.outside) then λ session s.
      latest_prepared config session s then λ iteration s.
      load_claim s.claim s then λ c s. reset_claim iteration c s
