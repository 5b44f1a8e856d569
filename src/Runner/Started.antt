-- ===== src/Runner/Started.antt =====
-- `run_and_complete` on how often the sample starts.
use mathlib.Core.Path.{subst}
use taint_forge_io_t.Prelude.{
  Bool, Option, String, eqb, false, get_elem?, length, none, refl, some, sym, true, ℕ, ◌+◌, ◌∙◌,
  ◌≡◌,
}
use taint_forge_io_t.Runner.Claim.{
  Claim, ClaimFile, Exit, first_claim, is_failed, unclaimed, unwritten, written,
}
use taint_forge_io_t.Runner.Hoare.{
  Before, IsLawful, Post, Post-weaken, check-Post, reads-Post, then-Post,
}
use taint_forge_io_t.Runner.Once.{Once, Once-unclaimed, created-Once, handled-Once, try_block-After}
use taint_forge_io_t.Runner.Run.{
  create_claim_in, handled, is_absent, is_unclaimed, latest_prepared, record_or_error,
  run_and_complete, same_digest, try_block, validate_run,
}
use taint_forge_io_t.Runner.Site.{RunnerConfig, RunnerSteps, Site, check, done, ◌then◌}
use taint_forge_io_t.Session.Records.{IterationRecord, SessionManifest, is_active, is_prepared}

module _ {W : Type 0} (steps : RunnerSteps W) (starts : W → ℕ)
    (lawful : IsLawful steps starts) where
  pub latest_prepared-reads :
      (config : RunnerConfig) (session : SessionManifest) (s : Site W)
      → Post (λ _ t. t ≡ s) (λ t. t ≡ s) (latest_prepared steps config session s)
  latest_prepared-reads config session s =
      next _ _ (reads-check (is_active session.state) s refl) (λ _ t e.
        next _ _ (reads-record (get_elem? session.iterations config.iteration_index) t e) (λ r t e.
          next _ _ (reads-check (is_prepared r.state) t e) (λ _ t e.
            next _ _
              (reads-check (eqb (config.iteration_index + 1) (length session.iterations)) t e)
              (λ _ t e. e))))
    where
      next :
          {A B : Type 0} (r : Site W × Exit A) (f : A → Site W → Site W × Exit B)
          → Post (λ _ t. t ≡ s) (λ t. t ≡ s) r
          → ((a : A) (t : Site W) → t ≡ s → Post (λ _ t. t ≡ s) (λ t. t ≡ s) (f a t))
          → Post (λ _ t. t ≡ s) (λ t. t ≡ s) (r then f)
      next r f = then-Post (λ _ t. t ≡ s) (λ _ t. t ≡ s) (λ t. t ≡ s) r f

      reads-check : (b : Bool) (t : Site W) → t ≡ s → Post (λ _ t. t ≡ s) (λ t. t ≡ s) (check b t)
      reads-check true t e = e
      reads-check false t e = e

      reads-record :
          (o : Option IterationRecord) (t : Site W)
          → t ≡ s
          → Post (λ _ t. t ≡ s) (λ t. t ≡ s) (record_or_error steps o t)
      reads-record none t e = e
      reads-record (some r) t e = e

  -- Behind the guards nothing has changed, and there is no claim.
  validate_run-reads :
      (config : RunnerConfig) (s : Site W)
      → Post
          (λ _ t. (t ≡ s) × (is_unclaimed steps s.claim ≡ true))
          (λ t. t ≡ s)
          (validate_run steps config s)
  unfolding validate_run
  validate_run-reads config s =
      on _ _ (reads-Post (λ t. t ≡ s) s (steps.verify s.outside) refl) (λ session t e.
        on _ _
          (at t (latest_prepared steps config session t) e (latest_prepared-reads config session t))
          (λ r t e.
            on _ _ (reads-Post (λ t. t ≡ s) t (steps.snapshot_digest t.outside r) e) (λ d t e.
              on _ _ (checked (same_digest steps (steps.rootfs_digest t.outside r) d) t e) (λ _ t e.
                on _ _ (reads-Post (λ t. t ≡ s) t (steps.other_checks t.outside session r) e)
                  (λ _ t e.
                    on _ _ (checked (is_absent steps (steps.run_directory t.outside r)) t e)
                      (λ _ t e.
                        then-Post (λ _ u. (u ≡ s) × (is_unclaimed steps t.claim ≡ true))
                          (λ _ u. (u ≡ s) × (is_unclaimed steps s.claim ≡ true)) (λ u. u ≡ s)
                          (check (is_unclaimed steps t.claim) t) (λ _ u. done (r, d) u)
                          (check-Post (λ u. u ≡ s) (is_unclaimed steps t.claim) t e)
                          (λ _ u h.
                            (h.0, subst (λ v. is_unclaimed steps v.claim ≡ true) e h.1))))))))
    where
      on :
          {A B : Type 0} (r : Site W × Exit A) (f : A → Site W → Site W × Exit B)
          → Post (λ _ t. t ≡ s) (λ t. t ≡ s) r
          → ((a : A) (t : Site W)
              → t ≡ s
              → Post (λ _ t. (t ≡ s) × (is_unclaimed steps s.claim ≡ true)) (λ t. t ≡ s) (f a t))
          → Post (λ _ t. (t ≡ s) × (is_unclaimed steps s.claim ≡ true)) (λ t. t ≡ s) (r then f)
      on r f =
          then-Post (λ _ t. t ≡ s) (λ _ t. (t ≡ s) × (is_unclaimed steps s.claim ≡ true))
            (λ t. t ≡ s) r f

      at :
          {A : Type 0} (t : Site W) (r : Site W × Exit A)
          → t ≡ s
          → Post (λ _ u. u ≡ t) (λ u. u ≡ t) r
          → Post (λ _ u. u ≡ s) (λ u. u ≡ s) r
      at t r e h =
          Post-weaken (λ _ u. u ≡ t) (λ _ u. u ≡ s) (λ u. u ≡ t) (λ u. u ≡ s) r (λ a u k. k ∙ e)
            (λ u k. k ∙ e) h

      checked : (b : Bool) (t : Site W) → t ≡ s → Post (λ _ u. u ≡ s) (λ u. u ≡ s) (check b t)
      checked true t e = e
      checked false t e = e

  -- A claim is created where there was none, and the sample has not been started.
  create-Once :
      (c : Claim) (file : ClaimFile) (s : Site W)
      → Once steps starts lawful s
      → is_unclaimed steps s.claim ≡ true
      → is_failed c.stage ≡ false
      → Post
          (λ _ t. Before steps starts 0 t)
          (Once steps starts lawful)
          (create_claim_in steps c file s)
  create-Once c unclaimed s o u f =
      created-Once steps starts lawful c s (steps.create_claim s.outside)
        (Once-unclaimed steps starts lawful (starts s.outside) s.claim o u) u f
        (lawful.create_claim_quiet s.outside)
  create-Once c unwritten s o u f = o
  create-Once c (written d) s o u f = o

  pub run-Once :
      (config : RunnerConfig) (s : Site W)
      → Once steps starts lawful s
      → Post
          (λ _ t. Once steps starts lawful t)
          (Once steps starts lawful)
          (run_and_complete steps config s)
  unfolding run_and_complete
  run-Once config s o =
      let begin : Site W = record s { has_backend = false; exit_code = none } in
      then-Post {A = IterationRecord × String} {B = Claim}
        (λ _ t. (t ≡ begin) × (is_unclaimed steps s.claim ≡ true))
        (λ _ t. Once steps starts lawful t) (Once steps starts lawful)
        (validate_run steps config begin)
        (λ p t. create_claim_in steps (first_claim p.0.attempt_id p.1) t.claim t then λ c u.
          handled steps p.0 (try_block steps config c u))
        (Post-weaken (λ _ t. (t ≡ begin) × (is_unclaimed steps s.claim ≡ true))
          (λ _ t. (t ≡ begin) × (is_unclaimed steps s.claim ≡ true)) (λ t. t ≡ begin)
          (Once steps starts lawful) (validate_run steps config begin) (λ a t h. h)
          (λ t e. subst (Once steps starts lawful) (sym e) o) (validate_run-reads config begin))
        (λ p t h.
          then-Post {A = Claim} {B = Claim} (λ _ t. Before steps starts 0 t)
            (λ _ t. Once steps starts lawful t) (Once steps starts lawful)
            (create_claim_in steps (first_claim p.0.attempt_id p.1) t.claim t)
            (λ c u. handled steps p.0 (try_block steps config c u))
            (create-Once (first_claim p.0.attempt_id p.1) t.claim t
              (subst (Once steps starts lawful) (sym (h.0)) o)
              (subst (λ (v : Site W). is_unclaimed steps v.claim ≡ true) (sym (h.0)) h.1) refl)
            (λ c u b.
              handled-Once steps starts lawful p.0 (try_block steps config c u)
                (try_block-After steps starts lawful 0 config c u b)))
