-- ===== src/Runner/Calls.antt =====
-- Calls of the runner, one after another, for one prepared iteration.
use taint_forge_io_t.Prelude.{List, [], arith, ℕ, ◌∷◌, ◌≡◌, ◌≤◌}
use taint_forge_io_t.Runner.Claim.{ClaimFile, unclaimed, unwritten, written}
use taint_forge_io_t.Runner.Hoare.{IsLawful, Post-either}
use taint_forge_io_t.Runner.Once.{IsOnce, Once}
use taint_forge_io_t.Runner.Reset.{reset-Once, unstarted-Once}
use taint_forge_io_t.Runner.Run.{reset_safe_failure, run_and_complete}
use taint_forge_io_t.Runner.Site.{RunnerConfig, RunnerSteps, Site}
use taint_forge_io_t.Runner.Started.{run-Once}

pub data RunnerCall : Type 0 where
  run_call reset_call : RunnerConfig → RunnerCall

module _ {W : Type 0} (steps : RunnerSteps W) where
  abbrev pub make_call : RunnerCall → Site W → Site W
  make_call (run_call config) s = (run_and_complete steps config s).0
  make_call (reset_call config) s = (reset_safe_failure steps config s).0

  unfoldable pub make_calls : List RunnerCall → Site W → Site W
  make_calls [] s = s
  make_calls (c ∷ cs) s = make_calls cs (make_call c s)

  module _ (starts : W → ℕ) (lawful : IsLawful steps starts) where
    call-Once :
        (c : RunnerCall) (s : Site W)
        → Once steps starts lawful s
        → Once steps starts lawful (make_call c s)
    call-Once (run_call config) s o =
        Post-either (Once steps starts lawful) (run_and_complete steps config s).0
          (run_and_complete steps config s).1 (run-Once steps starts lawful config s o)
    call-Once (reset_call config) s o =
        Post-either (Once steps starts lawful) (reset_safe_failure steps config s).0
          (reset_safe_failure steps config s).1 (reset-Once steps starts lawful config s o)

    calls-Once :
        (cs : List RunnerCall) (s : Site W)
        → Once steps starts lawful s
        → Once steps starts lawful (make_calls cs s)
    unfolding make_calls
    calls-Once [] s o = o
    calls-Once (c ∷ cs) s o = calls-Once cs (make_call c s) (call-Once c s o)

    Once-bound : (n : ℕ) (file : ClaimFile) → IsOnce steps starts lawful n file → n ≤ 1
    Once-bound n unclaimed h = omega (arith, h)
    Once-bound n unwritten h = omega (arith, h)
    Once-bound n (written c) h = h.0

    -- If only the guest step starts the sample, at most once and behind its marker, then any calls of
    -- run_and_complete and reset_safe_failure for an unclaimed iteration, whatever they raise and
    -- wherever they are interrupted, start the sample at most once.
    pub make_calls-starts :
        (cs : List RunnerCall) (s : Site W)
        → s.claim ≡ unclaimed
        → starts s.outside ≡ 0
        → starts (make_calls cs s).outside ≤ 1
    make_calls-starts cs s u z =
        Once-bound (starts (make_calls cs s).outside) (make_calls cs s).claim
          (calls-Once cs s (unstarted-Once steps starts lawful s z))
