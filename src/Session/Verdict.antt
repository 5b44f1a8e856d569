-- ===== src/Session/Verdict.antt =====
-- How a completed iteration leaves the session.
use taint_forge_io_t.Attempt.Stages.{AttemptOutcome, crashed, exited, repair_required, timed_out}
use taint_forge_io_t.Prelude.{
  Bool, List, Option, [], any, ap, arith, drop_last, eqb, false, get_last?, get_last?-set,
  if◌then◌else◌, leb, ltb, none, not, ok, refl, some, take, take-set, true, ℕ, ◌&&◌, ◌+◌, ◌<◌, ◌||◌,
  ◌↔◌, ◌∷◌, ◌≡◌, ◌≢◌,
}
use taint_forge_io_t.Progress.Metrics.{IterationObservation}
use taint_forge_io_t.Session.Calls.{Externals}
use taint_forge_io_t.Session.Completion.{
  Completion, Judgement, close, complete_iteration, completed_record, judge, settle, verdict_of,
  artifacts_after, observe_iteration,
}
use taint_forge_io_t.Session.Controller.{Session}
use taint_forge_io_t.Session.Judge.{
  decide_stop_reason, is_timeout_code, outcome_of, prior_observations, repeats_last,
  resolve_attempt_session_transition, same_fingerprint, same_verdict, verify_session_terminal_state,
}
use taint_forge_io_t.Session.Judged.{judge-ok}
use taint_forge_io_t.Session.Records.{
  SessionManifest, SessionState, StopReason, budget_exhausted, cycle_detected,
  execution_exited_without_goal, fixed_point, is_active, no_automatic_repairs, reason_rank,
  stop_goal_reached,
}

same_verdict_refl : (v : SessionState × Option StopReason) → same_verdict v v ≡ true
same_verdict_refl (s, r) = ground arith

module _ (ext : Externals) (s : Session) (c : Completion) (j : Judgement) where
  pub complete_iteration-judge :
      judge ext s c ≡ ok j
      → complete_iteration ext s c ≡ (ok (completed_record ext s.manifest j), close ext s j)
  unfolding complete_iteration
  complete_iteration-judge h = ap (settle ext s (artifacts_after s (observe_iteration ext s c))) h

  -- The decision after the write is the decision before it.
  decide_stop_reason-close :
      decide_stop_reason (close ext s j).manifest j.index j.observation
      ≡ decide_stop_reason s.manifest j.index j.observation
  unfolding decide_stop_reason
  decide_stop_reason-close = rw take-set refl

  -- When an iteration can be completed, the call writes a session that the check of `verify` accepts
  -- for the result stored and for the decision taken anew from the session written.
  pub completion_verifies :
      judge ext s c ≡ ok j
      → verify_session_terminal_state
          (complete_iteration ext s c).1.manifest
          (some j.result.outcome)
          (decide_stop_reason (complete_iteration ext s c).1.manifest j.index j.observation)
        ≡ ok tt
  unfolding verify_session_terminal_state
  completion_verifies h =
      let judged = judge-ok ext s c j h in
      let latest =
        get_last?-set j.index s.manifest.iterations (completed_record ext s.manifest j)
          judged.opened.was_latest in
      rw (complete_iteration-judge h, decide_stop_reason-close, latest)
        (ground (arith, same_verdict_refl (verdict_of ext s.manifest j)))

-- What keeps a session going, in terms of what the iteration showed.
pub record Continues (m : SessionManifest) (n : ℕ) (o : IterationObservation) (c : Completion)
    : Type 0 where
  pub short_of_goal : o.goal_reached ≡ false
  pub in_time : (c.timed_out || is_timeout_code c.guest_exit_code) ≡ false
  pub no_signal : o.metrics.fatal_signals ≡ 0
  pub repairable : 0 < o.metrics.automatic_candidates
  pub new_state : any (same_fingerprint o) (prior_observations (take n m.iterations)) ≡ false
  pub budget_left : n + 1 < m.max_iterations

any-last :
    (o : IterationObservation) (xs : List IterationObservation)
    → any (same_fingerprint o) xs
      ≡ (repeats_last o (get_last? xs) || any (same_fingerprint o) (drop_last xs))
any-last o [] = refl
any-last o (x ∷ []) = refl
any-last o (x ∷ y ∷ xs) = ground (arith, any-last o (y ∷ xs))

-- The seven tests behind a verdict, in the order in which the code makes them.
module _ (goal late fatal repairable same old spent : Bool) where
  tested_outcome : AttemptOutcome
  tested_outcome =
      if goal
      then AttemptOutcome.goal_reached
      else if late
      then timed_out
      else if fatal
      then crashed
      else if repairable
      then repair_required
      else exited

  tested_reason : Option StopReason
  tested_reason =
      if goal
      then some stop_goal_reached
      else if same
      then some fixed_point
      else if old
      then some cycle_detected
      else if not repairable
      then some no_automatic_repairs
      else if spent
      then some budget_exhausted
      else none

  tested_active :
      is_active (resolve_attempt_session_transition tested_outcome tested_reason).0
      ≡ (not goal && not late && not fatal && repairable && not (same || old) && not spent)
  unfolding tested_outcome tested_reason resolve_attempt_session_transition
  tested_active = ground arith

  tested_reason_rank :
      reason_rank (resolve_attempt_session_transition tested_outcome tested_reason).1 < 8
  unfolding tested_outcome tested_reason resolve_attempt_session_transition reason_rank
  tested_reason_rank = ground arith

module _ (m : SessionManifest) (n : ℕ) (o : IterationObservation) (c : Completion) where
  resolved : SessionState × Option StopReason
  resolved =
      resolve_attempt_session_transition (outcome_of o c.guest_exit_code c.timed_out)
        (decide_stop_reason m n o)

  prior : List IterationObservation
  prior = prior_observations (take n m.iterations)

  not_zero : (k : ℕ) → eqb k 0 ≡ not (ltb 0 k)
  not_zero k = ground arith

  resolved-tests : resolved ≡ (
      let late = c.timed_out || is_timeout_code c.guest_exit_code in
      let fatal = ltb 0 o.metrics.fatal_signals in
      let repairable = ltb 0 o.metrics.automatic_candidates in
      let same = repeats_last o (get_last? prior) in
      let old = any (same_fingerprint o) (drop_last prior) in
      let spent = leb m.max_iterations (n + 1) in
      resolve_attempt_session_transition
        (tested_outcome o.goal_reached late fatal repairable same old spent)
        (tested_reason o.goal_reached late fatal repairable same old spent))
  unfolding resolved outcome_of decide_stop_reason tested_outcome tested_reason prior
  resolved-tests = rw not_zero refl

  active_iff : (is_active resolved.0 ≡ true) ↔ Continues m n o c
  unfolding prior
  active_iff =
      rw (resolved-tests, tested_active)
        (
          λ h. record {
            short_of_goal = ground arith;
            in_time = ground arith;
            no_signal = ground arith;
            repairable = ground arith;
            new_state = ground (arith, any-last o prior);
            budget_left = ground arith;
          },
          λ k. ground (
            arith,
            any-last o prior,
            k.short_of_goal,
            k.in_time,
            k.no_signal,
            k.repairable,
            k.new_state,
            k.budget_left,
          ),
        )

  reason_rank-resolved : reason_rank resolved.1 < 8
  reason_rank-resolved = rw resolved-tests (
      tested_reason_rank o.goal_reached (c.timed_out || is_timeout_code c.guest_exit_code)
        (ltb 0 o.metrics.fatal_signals) (ltb 0 o.metrics.automatic_candidates)
        (repeats_last o (get_last? prior)) (any (same_fingerprint o) (drop_last prior))
        (leb m.max_iterations (n + 1)))

not_exited : (r : Option StopReason) → reason_rank r < 8 → r ≢ some execution_exited_without_goal
unfolding reason_rank
not_exited r h = ground arith

-- A completed iteration leaves the session active exactly when it fell short of the goal, ended in
-- time and without a fatal signal, offers an automatic repair, shows a state that no earlier
-- iteration showed, and leaves room in the budget for another iteration. No session ever stops with
-- the reason `execution_exited_without_goal`.
pub completion-Continues :
    (ext : Externals) (s : Session) (c : Completion) (j : Judgement)
    → judge ext s c ≡ ok j
    → ((is_active (complete_iteration ext s c).1.manifest.state ≡ true)
        ↔ Continues s.manifest j.index j.observation c)
      × ((complete_iteration ext s c).1.manifest.stop_reason ≢ some execution_exited_without_goal)
unfolding resolved
completion-Continues ext s c j h =
    let judged = judge-ok ext s c j h in
    let rank = reason_rank-resolved s.manifest j.index j.observation c in
    rw (complete_iteration-judge ext s c j h, judged.outcome)
      (active_iff s.manifest j.index j.observation c, not_exited _ rank)
