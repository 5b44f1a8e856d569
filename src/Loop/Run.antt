-- ===== src/Loop/Run.antt =====
-- `EnvironmentSynthesisLoop.run` from the opened session on. The loop uses the controller and the
-- runner through an interface; the events and the report that it writes are left out.
use taint_forge_io_t.Attempt.Store.{Slot, absent}
use taint_forge_io_t.Prelude.{
  Bool, Json, List, Option, Result, [], err, false, get_last?, if◌then◌else◌, none, not, ok, some,
  suc, true, zero, ℕ, ◌∷◌,
}
use taint_forge_io_t.Session.Controller.{Session}
use taint_forge_io_t.Session.Records.{
  IterationRecord, SessionError, SessionState, StopReason, active, is_prepared, session_completed,
  session_failed,
}

pub data LoopOutcome : Type 0 where
  loop_completed paused initialized intervention_required : LoopOutcome

-- The two handlers at the end of `run`: for an error of the controller or the runner, and for one
-- of the loop itself.
pub data LoopFailure : Type 0 where
  execution_or_transition_failure operator_intervention_required : LoopFailure

pub data LoopReason : Type 0 where
  of_session : Option StopReason → LoopReason
  invocation_step_limit initialize_only : LoopReason
  of_failure : LoopFailure → LoopReason

-- An exception of the controller or the runner is one that `run` handles: IterationControllerError,
-- PrebuiltRunnerError, OSError or SynthesisLoopError. Any other passes through `run`, which then
-- records no outcome, and is left out.
-- What the loop calls: `prepare_next` and `verify` of the controller, the claim of an iteration, and
-- `run_and_complete` of the runner.
pub record Collaborators : Type 0 where
  pub prepare : Session → Result SessionError IterationRecord × Session
  pub verifies : Session → Bool
  pub claim_of : Session → ℕ → Slot Json
  pub run_and_complete : ℕ → Session → Bool × Session

-- What `_finalize` records, and whether `run` raises. `executed` are the iterations that the runner
-- was called for and returned from, the latest first.
pub record LoopResult : Type 0 where
  pub outcome : LoopOutcome
  pub reason : LoopReason
  pub executed : List ℕ
  pub session : Session
  pub raises : Bool

abbrev pub failed_with : LoopFailure → List ℕ → Session → LoopResult
failed_with f executed s = record {
  outcome = intervention_required;
  reason = of_failure f;
  executed = executed;
  session = s;
  raises = true;
}

abbrev pub returned : LoopOutcome → LoopReason → List ℕ → Session → LoopResult
returned outcome reason executed s = record {
  outcome = outcome;
  reason = reason;
  executed = executed;
  session = s;
  raises = false;
}

-- The tests of the session's state at the head of the loop; `rest` is for an active session.
abbrev pub unless_ended : SessionState → List ℕ → Session → LoopResult → LoopResult
unless_ended session_completed executed s rest =
    returned loop_completed (of_session s.manifest.stop_reason) executed s
unless_ended session_failed executed s rest =
    returned intervention_required (of_session s.manifest.stop_reason) executed s
unless_ended active executed s rest = rest

abbrev pub has_claim : Slot Json → Bool
has_claim absent = false
has_claim _ = true

module _ (c : Collaborators) where
  abbrev pub verified :
      Result SessionError IterationRecord × Session → Result LoopFailure IterationRecord × Session
  verified (err e, s) = (err execution_or_transition_failure, s)
  verified (ok r, s) = (if c.verifies s then ok r else err execution_or_transition_failure, s)

  -- The iteration to execute: the latest if it is still prepared, or a new one.
  unfoldable pub next_iteration : Session → Result LoopFailure IterationRecord × Session
  next_iteration s = elim (get_last? s.manifest.iterations) [
    | none ↦ verified (c.prepare s)
    | some r ↦ if is_prepared r.state then (ok r, s) else verified (c.prepare s)
  ]

  abbrev pub after_run : ℕ → List ℕ → (List ℕ → Session → LoopResult) → Bool × Session → LoopResult
  after_run index executed go (false, s) = failed_with execution_or_transition_failure executed s
  after_run index executed go (true, s) =
      if c.verifies s
      then go (index ∷ executed) s
      else failed_with execution_or_transition_failure (index ∷ executed) s

  -- One round: `go` is the loop after it.
  abbrev pub round_ :
      List ℕ
      → (List ℕ → Session → LoopResult)
      → Result LoopFailure IterationRecord × Session
      → LoopResult
  round_ executed go (err f, s) = failed_with f executed s
  round_ executed go (ok r, s) =
      if has_claim (c.claim_of s r.index)
      then failed_with operator_intervention_required executed s
      else after_run r.index executed go (c.run_and_complete r.index s)

  -- The loop with the number of executions that `max_steps` still allows.
  unfoldable pub loop : ℕ → List ℕ → Session → LoopResult
  unfolding next_iteration
  loop zero executed s =
      unless_ended s.manifest.state executed s (returned paused invocation_step_limit executed s)
  loop (suc n) executed s =
      unless_ended s.manifest.state executed s
        (round_ executed (λ executed' s'. loop n executed' s') (next_iteration s))

  unfoldable pub run : ℕ → Bool → Session → LoopResult
  unfolding loop
  run max_steps is_initialize_only s =
      if not (c.verifies s)
      then failed_with execution_or_transition_failure [] s
      else if is_initialize_only
      then returned initialized initialize_only [] s
      else loop max_steps [] s
