-- ===== src/Loop/Limits.antt =====
-- What an invocation of the loop may do, and what its outcome says of the session.
use taint_forge_io_t.Loop.Run.{
  Collaborators, LoopFailure, LoopOutcome, LoopResult, after_run, execution_or_transition_failure,
  failed_with, has_claim, initialized, intervention_required, loop, loop_completed, next_iteration,
  operator_intervention_required, paused, round_, run, unless_ended,
}
use taint_forge_io_t.Prelude.{
  Bool, Bool-cases, List, Result, [], arith, err, false, inl, inr, length, ok, refl, suc, true,
  zero, ℕ, ◌+◌, ◌∷◌, ◌≡◌, ◌≤◌, ◌⊎◌,
}
use taint_forge_io_t.Session.Controller.{Session}
use taint_forge_io_t.Session.Records.{
  IterationRecord, SessionState, active, session_completed, session_failed,
}

-- The outcome agrees with the session that the invocation leaves.
abbrev pub Agrees : ℕ → LoopOutcome → LoopResult → Type 0
Agrees max_steps loop_completed r = r.session.manifest.state ≡ session_completed
Agrees max_steps paused r = (r.session.manifest.state ≡ active) × (length r.executed ≡ max_steps)
Agrees max_steps initialized r = r.executed ≡ []
Agrees max_steps intervention_required r =
    (r.raises ≡ true) ⊎ (r.session.manifest.state ≡ session_failed)

-- At most `max_steps` executions, and an outcome that agrees with the session.
pub record IsSound (max_steps : ℕ) (r : LoopResult) : Type 0 where
  pub limited : length r.executed ≤ max_steps
  pub agrees : Agrees max_steps r.outcome r

failed_with-IsSound :
    (max_steps : ℕ) (f : LoopFailure) (executed : List ℕ) (s : Session)
    → length executed ≤ max_steps
    → IsSound max_steps (failed_with f executed s)
failed_with-IsSound max_steps f executed s h = record { limited = h; agrees = inl refl }

unless_ended-IsSound :
    (max_steps : ℕ) (state : SessionState) (executed : List ℕ) (s : Session) (rest : LoopResult)
    → s.manifest.state ≡ state
    → length executed ≤ max_steps
    → (state ≡ active → IsSound max_steps rest)
    → IsSound max_steps (unless_ended state executed s rest)
unless_ended-IsSound max_steps session_completed executed s rest e h k = record {
  limited = h;
  agrees = e;
}
unless_ended-IsSound max_steps session_failed executed s rest e h k = record {
  limited = h;
  agrees = inr e;
}
unless_ended-IsSound max_steps active executed s rest e h k = k refl

module _ (c : Collaborators) (max_steps : ℕ) where
  after_run-IsSound :
      (index : ℕ) (executed : List ℕ) (go : List ℕ → Session → LoopResult) (p : Bool × Session)
      → suc (length executed) ≤ max_steps
      → ((s : Session) → IsSound max_steps (go (index ∷ executed) s))
      → IsSound max_steps (after_run c index executed go p)
  after_run-IsSound index executed go (false, s) h k =
      failed_with-IsSound max_steps execution_or_transition_failure executed s (omega arith)
  after_run-IsSound index executed go (true, s) h k = elim (Bool-cases (c.verifies s)) [
    | inl e ↦ rw e (k s)
    | inr e ↦
        rw e (failed_with-IsSound max_steps execution_or_transition_failure (index ∷ executed) s h)
  ]

  round_-IsSound :
      (executed : List ℕ) (go : List ℕ → Session → LoopResult)
      (p : Result LoopFailure IterationRecord × Session)
      → suc (length executed) ≤ max_steps
      → ((i : ℕ) (s : Session) → IsSound max_steps (go (i ∷ executed) s))
      → IsSound max_steps (round_ c executed go p)
  round_-IsSound executed go (err f, s) h k =
      failed_with-IsSound max_steps f executed s (omega arith)
  round_-IsSound executed go (ok r, s) h k = elim (Bool-cases (has_claim (c.claim_of s r.index))) [
    | inl e ↦
        rw e (failed_with-IsSound max_steps operator_intervention_required executed s (omega arith))
    | inr e ↦ rw e (
        after_run-IsSound r.index executed go (c.run_and_complete r.index s) h (λ s'. k r.index s'))
  ]

  loop-IsSound :
      (n : ℕ) (executed : List ℕ) (s : Session)
      → n + length executed ≡ max_steps
      → IsSound max_steps (loop c n executed s)
  unfolding loop
  loop-IsSound zero executed s h =
      unless_ended-IsSound max_steps s.manifest.state executed s _ refl (omega arith)
        (λ e. record { limited = omega arith; agrees = (e, omega arith) })
  loop-IsSound (suc n) executed s h =
      unless_ended-IsSound max_steps s.manifest.state executed s _ refl (omega arith) (λ e.
        round_-IsSound executed (λ executed' s'. loop c n executed' s') (next_iteration c s)
          (omega arith) (λ i s'. loop-IsSound n (i ∷ executed) s' (omega arith)))

-- Whatever the controller and the runner do, an invocation executes at most `max_steps` iterations.
-- It reports a completed session only of one that is completed, and a pause only of an active
-- session when all the executions are used up; a report that asks for intervention goes with an
-- error or with a failed session.
pub run-IsSound :
    (c : Collaborators) (max_steps : ℕ) (is_initialize_only : Bool) (s : Session)
    → IsSound max_steps (run c max_steps is_initialize_only s)
unfolding run
run-IsSound c max_steps is_initialize_only s = elim (Bool-cases (c.verifies s)) [
  | inl e ↦ elim (Bool-cases is_initialize_only) [
    | inl i ↦ rw (e, i) (record { limited = omega arith; agrees = refl })
    | inr i ↦ rw (e, i) (loop-IsSound c max_steps max_steps [] s (omega arith))
  ]
  | inr e ↦ rw e (failed_with-IsSound max_steps execution_or_transition_failure [] s (omega arith))
]
