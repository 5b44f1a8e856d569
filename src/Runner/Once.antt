-- ===== src/Runner/Once.antt =====
-- The `try` block of `run_and_complete`, its handler and the reset, on how often the sample starts.
use Prim.Native.Char.{code}
use taint_forge_io_t.Prelude.{Bool, arith, false, refl, true, ℕ, ℤ, ◌∙◌, ◌≡◌, ◌≤◌}
use taint_forge_io_t.Runner.Claim.{
  Claim, ClaimFile, Exit, at_stage, executing, interrupted, is_failed, is_resettable, raised,
  returns, run_prepared, unclaimed, unwritten, validated, written,
}
use taint_forge_io_t.Runner.Hoare.{
  After, Before, IsLawful, IsOpen, Post, Post-either, Post-weaken, Quiet, Quiet-After, outer-After,
  outer-Before, reads-Post, then-Post, update-After, update-Before,
}
use taint_forge_io_t.Runner.Run.{
  after_guest, before_guest, cleanup_quietly, created, dropped, failed_claim, finally, guest_steps,
  handled, is_unclaimed, mark_failed, replaced, setup, try_block, update_claim,
}
use taint_forge_io_t.Runner.Site.{RunnerConfig, RunnerSteps, Site, outer, ◌then◌}
use taint_forge_io_t.Session.Records.{IterationRecord}

module _ {W : Type 0} (steps : RunnerSteps W) (starts : W → ℕ)
    (lawful : IsLawful steps starts) where
  abbrev pub Pre : ℕ → Site W → Type 0
  Pre k s = Before steps starts k s

  abbrev pub Aft : ℕ → Site W → Type 0
  Aft k s = After steps starts k s

  setup-Before :
      (k : ℕ) (b : Bool) (s : Site W) → Pre k s → Post (λ _ t. Pre k t) (Aft k) (setup steps b s)
  setup-Before k false s h = h
  setup-Before k true s h =
      then-Post (λ _ t. Pre k t) (λ _ t. Pre k t) (Aft k) _ _
        (outer-Before steps starts k s (steps.create_network_backend s.outside) h
          (lawful.backend_quiet s.outside))
        (λ _ t b.
          outer-Before steps starts k (record t { has_backend = true })
            (steps.setup_network t.outside) b (lawful.setup_quiet t.outside))

  before_guest-Before :
      (k : ℕ) (config : RunnerConfig) (c : Claim) (s : Site W)
      → Pre k s
      → Post (λ _ t. Pre k t) (Aft k) (before_guest steps config c s)
  unfolding before_guest
  before_guest-Before k config c s h =
      then-Post (λ d t. Pre k t × (d ≡ at_stage validated c)) (λ _ t. Pre k t) (Aft k) _ _
        (update-Before steps starts lawful k (at_stage validated c) s h refl)
        (λ d t b.
          then-Post (λ _ t. Pre k t) (λ _ t. Pre k t) (Aft k) _ _
            (outer-Before steps starts k t (steps.prepare_run_directory t.outside) b.0
              (lawful.prepare_quiet t.outside))
            (λ _ t b.
              then-Post (λ e t. Pre k t × (e ≡ at_stage run_prepared d)) (λ _ t. Pre k t) (Aft k) _
                _ (update-Before steps starts lawful k (at_stage run_prepared d) t b refl)
                (λ e t b.
                  then-Post (λ _ t. Pre k t) (λ _ t. Pre k t) (Aft k) _ _
                    (outer-Before steps starts k t (steps.check_host_dependencies t.outside) b.0
                      (lawful.dependencies_quiet t.outside))
                    (λ _ t b.
                      then-Post (λ _ t. Pre k t) (λ _ t. Pre k t) (Aft k) _ _
                        (setup-Before k config.is_controlled t b) (λ _ t b. b)))))

  guest-After :
      (k : ℕ) (s : Site W)
      → Pre k s
      → Post (λ _ t. Aft k t) (Aft k) (outer s (steps.execute_guest s.outside))
  guest-After k s h =
      reads-Post (Aft k) (record s { outside = (steps.execute_guest s.outside).0 })
        (steps.execute_guest s.outside).1
        (
          omega (arith, lawful.guest_at_most_once s.outside, h.0),
          λ r m. lawful.guest_behind_marker s.outside r m ∙ h.0,
          h.1,
        )

  guest_steps-After :
      (k : ℕ) (config : RunnerConfig) (c : Claim) (s : Site W)
      → Pre k s
      → Post (λ _ t. Aft k t) (Aft k) (guest_steps steps config c s)
  guest_steps-After k config c s h =
      then-Post (λ _ t. Pre k t) (λ _ t. Aft k t) (Aft k) _ _
        (outer-Before steps starts k s (steps.capture_before s.outside) h
          (lawful.capture_quiet s.outside))
        (λ _ t b.
          then-Post
            (λ d t. Pre k t × (d ≡ at_stage executing (record c { malware_started = false })))
            (λ _ t. Aft k t) (Aft k) _ _
            (update-Before steps starts lawful k
              (at_stage executing (record c { malware_started = false })) t b refl)
            (λ d t b.
              then-Post (λ _ t. Aft k t) (λ _ t. Aft k t) (Aft k) _ _ (guest-After k t b.0)
                (λ code t a. a)))

  finally-After :
      {A : Type 0} (k : ℕ) (b : Bool) (r : Site W × Exit A)
      → Post (λ _ t. Aft k t) (Aft k) r
      → Post (λ _ t. Aft k t) (Aft k) (finally steps b r)
  finally-After k false r h = h
  finally-After k true (s, x) h =
      then-Post (λ _ t. Aft k t) (λ _ t. Aft k t) (Aft k) _ _
        (outer-After steps starts k s (steps.cleanup_network s.outside true)
          (Post-either (Aft k) s x h) (lawful.cleanup_quiet s.outside true))
        (λ _ t a. reads-Post (Aft k) t x a)

  after_guest-After :
      (k : ℕ) (config : RunnerConfig) (c : Claim) (code : ℤ) (s : Site W)
      → Aft k s
      → Post (λ _ t. Aft k t) (Aft k) (after_guest steps config c code s)
  unfolding after_guest
  after_guest-After k config c code s h =
      next _ _ (update-After steps starts lawful k _ s h refl) (λ d t a.
        next _ _
          (outer-After steps starts k t (steps.normalize_log_ownership t.outside) a
            (lawful.ownership_quiet t.outside))
          (λ _ t a.
            next _ _
              (outer-After steps starts k t (steps.postprocess t.outside code) a
                (lawful.postprocess_quiet t.outside code))
              (λ _ t a.
                next _ _
                  (outer-After steps starts k t (steps.evaluate_target_state t.outside) a
                    (lawful.evaluate_quiet t.outside))
                  (λ e t a.
                    next _ _
                      (outer-After steps starts k t (steps.validate_final_artifacts t.outside) a
                        (lawful.artifacts_quiet t.outside))
                      (λ _ t a. next _ _ (update-After steps starts lawful k _ t a refl) (λ d t a.
                        next _ _
                          (outer-After steps starts k t
                            (steps.complete_iteration t.outside _ code _) a
                            (lawful.complete_quiet t.outside _ code _))
                          (λ reason t a. update-After steps starts lawful k _ t a refl)))))))
    where
      next :
          {A B : Type 0} (r : Site W × Exit A) (f : A → Site W → Site W × Exit B)
          → Post (λ _ t. Aft k t) (Aft k) r
          → ((a : A) (t : Site W) → Aft k t → Post (λ _ t. Aft k t) (Aft k) (f a t))
          → Post (λ _ t. Aft k t) (Aft k) (r then f)
      next r f = then-Post (λ _ t. Aft k t) (λ _ t. Aft k t) (Aft k) r f

  pub try_block-After :
      (k : ℕ) (config : RunnerConfig) (c : Claim) (s : Site W)
      → Pre k s
      → Post (λ _ t. Aft k t) (Aft k) (try_block steps config c s)
  unfolding try_block
  try_block-After k config c s h =
      then-Post (λ _ t. Pre k t) (λ _ t. Aft k t) (Aft k) _ _ (before_guest-Before k config c s h)
        (λ d t b.
          then-Post (λ _ t. Aft k t) (λ _ t. Aft k t) (Aft k) _ _
            (finally-After k t.has_backend (guest_steps steps config d t)
              (guest_steps-After k config d t b))
            (λ p t a. after_guest-After k config p.0 p.1 t a))

  -- What a reset needs to know of a claim.
  abbrev pub IsOnce : ℕ → ClaimFile → Type 0
  IsOnce n (written c) = (n ≤ 1) × ((is_resettable c ≡ true) → n ≡ 0)
  IsOnce n _ = n ≡ 0

  abbrev pub Once : Site W → Type 0
  Once s = IsOnce (starts s.outside) s.claim

  After-IsOnce : (n : ℕ) (file : ClaimFile) → n ≤ 1 → IsOpen steps starts file → IsOnce n file
  After-IsOnce n (written c) l o = (l, λ r. ground (arith, o, r))
  After-IsOnce n unclaimed l o = absurd o
  After-IsOnce n unwritten l o = absurd o

  After-Once : (s : Site W) → Aft 0 s → Once s
  After-Once s h = After-IsOnce (starts s.outside) s.claim (omega (arith, h.0)) h.2

  dropped-Post :
      {A : Type 0} (P : Site W → Type 0) (r : Site W × Exit A)
      → Post (λ _ t. P t) P r
      → Post (λ _ t. P t) P (dropped steps r)
  dropped-Post P (s, returns a) h = h
  dropped-Post P (s, raised) h = h
  dropped-Post P (s, interrupted) h = h

  -- A claim that is marked as failed can be reset only where the sample has not been started.
  failed-resettable :
      (r : IterationRecord) (s : Site W) (c : Claim)
      → is_resettable (failed_claim steps r s c) ≡ true
      → steps.has_marker s.outside r ≡ false
  failed-resettable r s c h = ground (arith, h)

  marked-Once :
      (r : IterationRecord) (c : Claim) (s : Site W) (x : W × Exit (Unit {0}))
      → Aft 0 s
      → Quiet steps starts s.outside x.0
      → Post (λ _ t. Once t) Once (replaced steps (failed_claim steps r s c) s x)
  marked-Once r c s (w, returns u) h q =
      (omega (arith, h.0, q.0), λ e. q.0 ∙ h.1 r (failed-resettable r s c e))
  marked-Once r c s (w, raised) h q =
      After-Once (record s { outside = w }) (Quiet-After steps starts 0 s w h q)
  marked-Once r c s (w, interrupted) h q =
      After-Once (record s { outside = w }) (Quiet-After steps starts 0 s w h q)

  mark_failed-Once :
      (r : IterationRecord) (file : ClaimFile) (s : Site W)
      → Aft 0 s
      → Post (λ _ t. Once t) Once (mark_failed steps r file s)
  mark_failed-Once r (written c) s h =
      dropped-Post Once (update_claim steps (failed_claim steps r s c) s) (
        marked-Once r c s (steps.write_claim s.outside (failed_claim steps r s c)) h
          (lawful.write_claim_quiet s.outside (failed_claim steps r s c)))
  mark_failed-Once r unclaimed s h = After-Once s h
  mark_failed-Once r unwritten s h = After-Once s h

  cleanup-After :
      (b : Bool) (s : Site W) → Aft 0 s → Post (λ _ t. Aft 0 t) Once (cleanup_quietly steps b s)
  cleanup-After false s h = h
  cleanup-After true s h =
      Post-weaken (λ _ t. Aft 0 t) (λ _ t. Aft 0 t) (Aft 0) Once
        (dropped steps (outer s (steps.cleanup_network s.outside false))) (λ a t p. p) After-Once
        (dropped-Post (Aft 0) (outer s (steps.cleanup_network s.outside false)) (
          outer-After steps starts 0 s (steps.cleanup_network s.outside false) h
            (lawful.cleanup_quiet s.outside false)))

  pub handled-Once :
      (r : IterationRecord) (x : Site W × Exit Claim)
      → Post (λ _ t. Aft 0 t) (Aft 0) x
      → Post (λ _ t. Once t) Once (handled steps r x)
  handled-Once r (s, returns c) h = After-Once s h
  handled-Once r (s, interrupted) h = After-Once s h
  handled-Once r (s, raised) h =
      then-Post {A = Unit {0}} {B = Claim} (λ _ t. Aft 0 t) (λ _ t. Once t) Once
        (cleanup_quietly steps s.has_backend s)
        (λ _ t. mark_failed steps r t.claim t then λ _ u. (u, raised))
        (cleanup-After s.has_backend s h)
        (λ _ t a.
          then-Post {A = Unit {0}} {B = Claim} (λ _ u. Once u) (λ _ u. Once u) Once
            (mark_failed steps r t.claim t) (λ _ u. (u, raised)) (mark_failed-Once r t.claim t a)
            (λ _ u o. o))

  -- Where the claim is not there, the sample has not been started.
  pub Once-unclaimed :
      (n : ℕ) (file : ClaimFile) → IsOnce n file → is_unclaimed steps file ≡ true → n ≡ 0
  Once-unclaimed n unclaimed h e = h
  Once-unclaimed n unwritten h e = h
  Once-unclaimed n (written c) h e = ground (arith, e)

  pub created-Once :
      (c : Claim) (s : Site W) (x : W × Exit Bool)
      → starts s.outside ≡ 0
      → is_unclaimed steps s.claim ≡ true
      → is_failed c.stage ≡ false
      → Quiet steps starts s.outside x.0
      → Post (λ _ t. Pre 0 t) Once (created steps c s x)
  created-Once c s (w, returns true) h u o q = (q.0 ∙ h, o)
  created-Once c s (w, returns false) h u o q = q.0 ∙ h
  created-Once c s (w, raised) h u o q = unclaimed-Once (starts w) s.claim (q.0 ∙ h) u
    where
      unclaimed-Once :
          (n : ℕ) (file : ClaimFile) → n ≡ 0 → is_unclaimed steps file ≡ true → IsOnce n file
      unclaimed-Once n unclaimed h u = h
      unclaimed-Once n unwritten h u = h
      unclaimed-Once n (written c) h u = ground (arith, u)
  created-Once c s (w, interrupted) h u o q = q.0 ∙ h
