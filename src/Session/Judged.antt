-- ===== src/Session/Judged.antt =====
-- What a call of `complete_iteration` that returns has found and written.
use mathlib.Core.Path.{subst}
use taint_forge_io_t.Attempt.Records.{AttemptContract, validate_result, validate_progress}
use taint_forge_io_t.Attempt.Store.{load_contract, save_result}
use taint_forge_io_t.Prelude.{
  List, Option, ap, arith, bind-eq-ok, eqb, eqb_iff, get_elem?, length, negsuc, none, ok, ok-inj,
  pos, refl, require, some, sym, true, ℕ, ℤ, ◌+◌, ◌≡◌, refuse, any,
}
use taint_forge_io_t.Progress.Metrics.{observe}
use taint_forge_io_t.Repair.Planner.{plan}
use taint_forge_io_t.Session.Calls.{Externals}
use taint_forge_io_t.Session.Completion.{
  Completion, Judgement, judge, numbered, of_oracle, open_iteration, previous_observation,
  record_at, store_result, observe_iteration, Observed,
}
use taint_forge_io_t.Session.Controller.{
  Session, of_attempt, some_or, validate_contract_binding, validate_execution_claim,
}
use taint_forge_io_t.Session.Judge.{build_attempt_result, outcome_of}
use taint_forge_io_t.Session.Records.{
  IterationRecord, bad_artifacts, bad_contract, bad_result, is_active, is_prepared, not_active,
  not_latest, not_prepared, artifacts_exist,
}

module _ (ext : Externals) (s : Session) (c : Completion) where
  pub record IsOpened (n : ℕ) (r : IterationRecord) : Type 0 where
    pub was_active : is_active s.manifest.state ≡ true
    pub at_index : get_elem? s.manifest.iterations n ≡ some r
    pub was_prepared : is_prepared r.state ≡ true
    pub was_latest : n + 1 ≡ length s.manifest.iterations

  numbered-ok :
      (n : ℕ) (o : Option IterationRecord) (found : ℕ × IterationRecord)
      → numbered n o ≡ ok found
      → (found.0 ≡ n) × (o ≡ some found.1)
  numbered-ok n none found h = cc
  numbered-ok n (some r) found h = (ap (λ f. f.0) (sym (ok-inj h)), ap (λ f. some f.1) (ok-inj h))

  record_at-ok :
      (z : ℤ) (rs : List IterationRecord) (found : ℕ × IterationRecord)
      → record_at z rs ≡ ok found
      → get_elem? rs found.0 ≡ some found.1
  record_at-ok (negsuc n) rs found h = cc
  record_at-ok (pos n) rs found h =
      let (same, there) = numbered-ok n (get_elem? rs n) found h in rw same there

  open_iteration-ok :
      (o : ℕ × IterationRecord × AttemptContract) → open_iteration ext s c ≡ ok o → IsOpened o.0 o.1
  unfolding open_iteration
  open_iteration-ok o h =
      let (u1, e1, h1) = bind-eq-ok (require (is_active s.manifest.state) not_active) _ h in
      let (found, e2, h2) = bind-eq-ok (record_at c.iteration_index s.manifest.iterations) _ h1 in
      let (u3, e3, h3) = bind-eq-ok (require (is_prepared found.1.state) not_prepared) _ h2 in
      let (u4, e4, h4) =
        bind-eq-ok (require (eqb (found.0 + 1) (length s.manifest.iterations)) not_latest) _ h3 in
      let (contract, e5, h5) =
        bind-eq-ok (of_attempt bad_contract (load_contract found.1.attempt_id s.attempts)) _ h4 in
      let (u6, e6, h6) = bind-eq-ok (validate_contract_binding s.manifest found.1 contract) _ h5 in
      let (u7, e7, h7) =
        bind-eq-ok
          (validate_execution_claim c.claim s.manifest.session_id found.1
            (ext.contract_sha256 contract))
          _ h6 in
      let (u8, e8, h8) = bind-eq-ok (require c.artifacts_usable bad_artifacts) _ h7 in
      let (u9, e9, h9) = bind-eq-ok (refuse (any (eqb found.0) s.artifacts) artifacts_exist) _ h8 in
      subst (λ (o' : ℕ × IterationRecord × AttemptContract). IsOpened o'.0 o'.1) (ok-inj h9)
        (record {
          was_active = ground arith;
          at_index = record_at-ok c.iteration_index s.manifest.iterations found e2;
          was_prepared = ground arith;
          was_latest = ground (arith, eqb_iff (found.0 + 1) (length s.manifest.iterations));
        })

  pub record IsJudged (j : Judgement) : Type 0 where
    pub opened : IsOpened j.index j.before
    pub outcome : j.result.outcome ≡ outcome_of j.observation c.guest_exit_code c.timed_out

  observe_iteration-ok :
      (known : Observed)
      → observe_iteration ext s c ≡ ok known
      → IsOpened known.opened.0 known.opened.1
  unfolding observe_iteration
  observe_iteration-ok known h =
      let (o, e1, h1) = bind-eq-ok (open_iteration ext s c) _ h in
      let (plan, e2, h2) = bind-eq-ok (some_or bad_artifacts c.repair_plan) _ h1 in
      let (seen, e3, h3) =
        bind-eq-ok
          (of_oracle (
            observe ext.render ext.canonical_json ext.digests c.artifacts
              o.1.environment_snapshot_id c.goal_reached c.goal_reason))
          _ h2 in
      let (previous, e4, h4) = bind-eq-ok (previous_observation s.manifest o.0) _ h3 in
      subst (λ (k : Observed). IsOpened k.opened.0 k.opened.1) (ok-inj h4) (open_iteration-ok o e1)

  pub judge-ok : (j : Judgement) → judge ext s c ≡ ok j → IsJudged j
  unfolding judge store_result build_attempt_result
  judge-ok j h =
      let (known, e, h0) = bind-eq-ok (observe_iteration ext s c) _ h in
      let result =
        build_attempt_result ext.contract_sha256 ext.make_failure_fingerprint known.opened.2
          known.seen (ext.observation_sha256 known.seen) known.repair_plan c.guest_exit_code
          c.timed_out ext.now in
      let (u1, e1, h1) =
        bind-eq-ok (of_attempt bad_result (validate_progress result.progress)) _ h0 in
      let (u2, e2, h2) =
        bind-eq-ok (of_attempt bad_result (validate_result ext.fromisoformat result)) _ h1 in
      let (attempts, e3, h3) =
        bind-eq-ok
          (of_attempt bad_result
            (save_result ext.contract_sha256 ext.result_sha256 result s.attempts))
          _ h2 in
      subst IsJudged (ok-inj h3) (record { opened = observe_iteration-ok known e; outcome = refl })
