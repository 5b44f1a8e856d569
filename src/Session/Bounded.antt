-- ===== src/Session/Bounded.antt =====
-- `prepare_next` and `complete_iteration` against the budget of iterations.
use mathlib.Core.Path.{subst}
use taint_forge_io_t.Attempt.Store.{AttemptStore, save_contract}
use taint_forge_io_t.Prelude.{
  Bool-cases, List, Option, Result, [], arith, bind-eq-ok, err, false, get_last?,
  get_last?-get_elem?, get_last?-set, get_last?-snoc, if◌then◌else◌, inl, inr, length,
  length-append, length-set, none, ok, ok-inj, refl, require, some, true, ℕ, ◌*◌, ◌++◌, ◌+◌, ◌-◌,
  ◌<◌, ◌==◌, ◌∷◌, ◌≡◌, ◌≤◌, ◌⊎◌,
}
use taint_forge_io_t.Session.Calls.{
  Environment, Externals, after_attempt, after_check, after_environment, check_ready,
  create_contract, next_environment, prepare_attempt, prepare_next, replace_session,
}
use taint_forge_io_t.Session.Completion.{
  Completion, Judgement, close, complete_iteration, completed_record, judge, settle,
}
use taint_forge_io_t.Session.Controller.{EnvironmentManifest, Session, of_attempt}
use taint_forge_io_t.Session.Judged.{judge-ok}
use taint_forge_io_t.Session.Records.{
  IterationRecord, SessionError, SessionManifest, bad_contract, is_active, is_prepared,
  snapshot_mismatch,
}
use taint_forge_io_t.Session.Verdict.{complete_iteration-judge, completion-Continues}

abbrev pub open_count : Option IterationRecord → ℕ
open_count none = 0
open_count (some r) = if is_prepared r.state then 1 else 0

-- The calls that a session can still make: two for each iteration that has not begun, and one for
-- an iteration that is prepared.
unfoldable pub calls_left : SessionManifest → ℕ
calls_left m = 2 * (m.max_iterations - length m.iterations) + open_count (get_last? m.iterations)

-- A session within its budget, which is not spent while the session waits for the next iteration.
pub record IsBounded (m : SessionManifest) : Type 0 where
  pub within : length m.iterations ≤ m.max_iterations
  pub room :
      (is_active m.state ≡ false)
      ⊎ (open_count (get_last? m.iterations) ≡ 1)
      ⊎ (length m.iterations < m.max_iterations)

-- What a call may do to the manifest: leave it, or go one call forward within the budget.
pub record Steps (m m' : SessionManifest) : Type 0 where
  pub same_budget : m'.max_iterations ≡ m.max_iterations
  pub one_less : calls_left m ≡ 1 + calls_left m'
  pub bounded : IsBounded m'

module _ (ext : Externals) (s : Session) where
  -- The manifest with one more iteration, which is prepared.
  abbrev Extended : SessionManifest → Type 0
  Extended m =
      (r : IterationRecord) × (is_prepared r.state ≡ true)
      × (m ≡ replace_session s.manifest (s.manifest.iterations ++ (r ∷ [])) s.manifest.state none)

  prepare_attempt-prepared :
      (e : Environment) (p : IterationRecord × AttemptStore)
      → prepare_attempt ext s.manifest e s.attempts ≡ ok p
      → is_prepared p.0.state ≡ true
  unfolding prepare_attempt
  prepare_attempt-prepared e p h =
      let (u, e1, h1) =
        bind-eq-ok (require (e.manifest.rootfs_snapshot_id == e.snapshot_id) snapshot_mismatch) _
          h in
      let (contract, e2, h2) =
        bind-eq-ok
          (of_attempt bad_contract
            (create_contract ext s.manifest (length s.manifest.iterations) e.manifest))
          _ h1 in
      let (attempts, e3, h3) =
        bind-eq-ok
          (of_attempt bad_contract
            (save_contract ext.contract_sha256 ext.result_sha256 contract s.attempts))
          _ h2 in
      subst (λ (q : IterationRecord × AttemptStore). is_prepared q.0.state ≡ true) (ok-inj h3) refl

  after_attempt-Extended :
      (saved : List EnvironmentManifest) (a : Result SessionError (IterationRecord × AttemptStore))
      (r : IterationRecord)
      → ((p : IterationRecord × AttemptStore) → a ≡ ok p → is_prepared p.0.state ≡ true)
      → (after_attempt ext s saved a).0 ≡ ok r
      → Extended (after_attempt ext s saved a).1.manifest
  after_attempt-Extended saved (err e) r f h = cc
  after_attempt-Extended saved (ok p) r f h = (p.0, f p refl, refl)

  after_environment-Extended :
      (e : Result SessionError (Environment × List EnvironmentManifest)) (r : IterationRecord)
      → (after_environment ext s e).0 ≡ ok r
      → Extended (after_environment ext s e).1.manifest
  after_environment-Extended (err e) r h = cc
  after_environment-Extended (ok (e, saved)) r h =
      after_attempt-Extended saved (prepare_attempt ext s.manifest e s.attempts) r
        (prepare_attempt-prepared e) h

  after_check-Extended :
      (u : Result SessionError (Unit {0})) (r : IterationRecord)
      → (after_check ext s u).0 ≡ ok r
      → (u ≡ ok tt) × Extended (after_check ext s u).1.manifest
  after_check-Extended (err e) r h = cc
  after_check-Extended (ok u) r h = (refl, after_environment-Extended (next_environment ext s) r h)

  check_ready-ok :
      check_ready ext s.manifest ≡ ok tt
      → (length s.manifest.iterations < s.manifest.max_iterations)
        × (open_count (get_last? s.manifest.iterations) ≡ 0)
  unfolding check_ready
  check_ready-ok h = (ground arith, ground arith)

  Steps-Extended :
      (m : SessionManifest) → check_ready ext s.manifest ≡ ok tt → Extended m → Steps s.manifest m
  unfolding calls_left
  Steps-Extended m ready (r, is_prep, same) =
      let latest = get_last?-snoc s.manifest.iterations r in
      let size = length-append s.manifest.iterations (r ∷ []) in
      let (below, closed) = check_ready-ok ready in
      rw same (record {
        same_budget = refl;
        one_less = rw (latest, size, closed, is_prep) (omega arith);
        bounded = record {
          within = rw size (omega arith);
          room = rw (latest, is_prep) (inr (inl refl));
        };
      })

  prepare_next-Steps :
      (r : IterationRecord)
      → (prepare_next ext s).0 ≡ ok r
      → Steps s.manifest (prepare_next ext s).1.manifest
  unfolding prepare_next
  prepare_next-Steps r h =
      let (ready, extended) = after_check-Extended (check_ready ext s.manifest) r h in
      Steps-Extended _ ready extended

  complete_iteration-Steps :
      (c : Completion) (j : Judgement)
      → IsBounded s.manifest
      → judge ext s c ≡ ok j
      → Steps s.manifest (close ext s j).manifest
  unfolding calls_left
  complete_iteration-Steps c j b h =
      let judged = judge-ok ext s c j h in
      let latest =
        get_last?-set j.index s.manifest.iterations (completed_record ext s.manifest j)
          judged.opened.was_latest in
      let size = length-set s.manifest.iterations j.index (completed_record ext s.manifest j) in
      let before = get_last?-get_elem? j.index s.manifest.iterations judged.opened.was_latest in
      let at_index = judged.opened.at_index in
      let opened = judged.opened.was_prepared in
      let late = judged.opened.was_latest in
      let room_left : (is_active (close ext s j).manifest.state ≡ false)
          ⊎ (open_count (get_last? (close ext s j).manifest.iterations) ≡ 1)
          ⊎ (length (close ext s j).manifest.iterations < s.manifest.max_iterations) =
        elim (Bool-cases (is_active (close ext s j).manifest.state)) [
          | inl a ↦
              let k =
                (completion-Continues ext s c j h).0.0
                  (rw (complete_iteration-judge ext s c j h) a) in
              inr (inr (rw size (ground (arith, k.budget_left))))
          | inr a ↦ inl a
        ] in
      record {
        same_budget = refl;
        one_less = rw (latest, size, before, at_index) (ground arith);
        bounded = record { within = rw size b.within; room = room_left };
      }

-- A call of the controller.
pub data Call : Type 0 where
  prepare : Call
  complete : Completion → Call

abbrev pub and_then : Option Session → (Session → Option Session) → Option Session
and_then none f = none
and_then (some s) f = f s

and_then-some :
    (o : Option Session) (f : Session → Option Session) (s' : Session)
    → and_then o f ≡ some s'
    → (t : Session) × (o ≡ some t) × (f t ≡ some s')
and_then-some none f s' h = cc
and_then-some (some s) f s' h = (s, refl, h)

module _ (ext : Externals) where
  abbrev pub keep_ok : Result SessionError IterationRecord × Session → Option Session
  keep_ok (ok r, s) = some s
  keep_ok (err e, s) = none

  abbrev pub call : Call → Session → Option Session
  call prepare s = keep_ok (prepare_next ext s)
  call (complete c) s = keep_ok (complete_iteration ext s c)

  -- The session after a list of calls that all return.
  abbrev pub call_all : List Call → Session → Option Session
  call_all [] s = some s
  call_all (x ∷ xs) s = and_then (call x s) (λ s'. call_all xs s')

  keep_ok-some :
      (p : Result SessionError IterationRecord × Session) (s' : Session)
      → keep_ok p ≡ some s'
      → (r : IterationRecord) × (p.0 ≡ ok r) × (p.1 ≡ s')
  keep_ok-some (ok r, s) s' h = (r, refl, cc)
  keep_ok-some (err e, s) s' h = cc

  settled-some :
      (s s' : Session) (moved : List ℕ) (a : Result SessionError Judgement)
      → keep_ok (settle ext s moved a) ≡ some s'
      → (j : Judgement) × (a ≡ ok j) × (close ext s j ≡ s')
  settled-some s s' moved (ok j) h = (j, refl, cc)
  settled-some s s' moved (err e) h = cc

  call-Steps :
      (x : Call) (s s' : Session)
      → IsBounded s.manifest
      → call x s ≡ some s'
      → Steps s.manifest s'.manifest
  unfolding complete_iteration
  call-Steps prepare s s' b h =
      let (r, e, same) = keep_ok-some (prepare_next ext s) s' h in
      subst (λ t. Steps s.manifest t.manifest) same (prepare_next-Steps ext s r e)
  call-Steps (complete c) s s' b h =
      let (j, e, same) = settled-some s s' _ (judge ext s c) h in
      subst (λ t. Steps s.manifest t.manifest) same (complete_iteration-Steps ext s c j b e)

  -- From a session within its budget, each call that returns uses up exactly one of the calls that
  -- are left, two for each iteration of the budget that has not begun and one for an iteration that
  -- is prepared; the session stays within its budget, and while it is active without a prepared
  -- iteration the budget is not spent.
  pub calls-IsBounded :
      (xs : List Call) (s s' : Session)
      → IsBounded s.manifest
      → call_all xs s ≡ some s'
      → (length xs + calls_left s'.manifest ≡ calls_left s.manifest) × IsBounded s'.manifest
  calls-IsBounded [] s s' b h =
      let same : s ≡ s' = cc in
      subst (λ t. (0 + calls_left t.manifest ≡ calls_left s.manifest) × IsBounded t.manifest) same
        (omega arith, b)
  calls-IsBounded (x ∷ xs) s s' b h =
      let (t, e, rest) = and_then-some (call x s) (λ s'. call_all xs s') s' h in
      let step = call-Steps x s t b e in
      let (count_, bounded) = calls-IsBounded xs t s' step.bounded rest in
      (omega (arith, step.one_less), bounded)
