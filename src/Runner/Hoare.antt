-- ===== src/Runner/Hoare.antt =====
-- What holds behind a step, for each of its outcomes, and the laws that the steps of the outside
-- keep: `starts` counts how often the sample has been started.
use taint_forge_io_t.Prelude.{
  Bool, Bool-cases, arith, false, inl, inr, refl, true, ℕ, ℤ, ◌+◌, ◌∙◌, ◌≡◌, ◌≤◌,
}
use taint_forge_io_t.Runner.Claim.{
  Claim, ClaimFile, Exit, interrupted, is_failed, raised, returns, written,
}
use taint_forge_io_t.Runner.Run.{replaced, update_claim}
use taint_forge_io_t.Runner.Site.{RunnerSteps, Site, check, outer, ◌then◌}
use taint_forge_io_t.Session.Records.{IterationRecord}

module _ {W : Type 0} where
  abbrev pub Post :
      {A : Type 0} → (A → Site W → Type 0) → (Site W → Type 0) → Site W × Exit A → Type 0
  Post P E (s, returns a) = P a s
  Post P E (s, raised) = E s
  Post P E (s, interrupted) = E s

  pub then-Post :
      {A B : Type 0} (P : A → Site W → Type 0) (Q : B → Site W → Type 0) (E : Site W → Type 0)
      (r : Site W × Exit A) (f : A → Site W → Site W × Exit B)
      → Post P E r
      → ((a : A) (s : Site W) → P a s → Post Q E (f a s))
      → Post Q E (r then f)
  then-Post P Q E (s, returns a) f h k = k a s h
  then-Post P Q E (s, raised) f h k = h
  then-Post P Q E (s, interrupted) f h k = h

  pub Post-weaken :
      {A : Type 0} (P Q : A → Site W → Type 0) (E F : Site W → Type 0) (r : Site W × Exit A)
      → ((a : A) (s : Site W) → P a s → Q a s)
      → ((s : Site W) → E s → F s)
      → Post P E r
      → Post Q F r
  Post-weaken P Q E F (s, returns a) p e h = p a s h
  Post-weaken P Q E F (s, raised) p e h = e s h
  Post-weaken P Q E F (s, interrupted) p e h = e s h

  -- A step that reads keeps the site.
  pub reads-Post :
      {A : Type 0} (P : Site W → Type 0) (s : Site W) (x : Exit A)
      → P s
      → Post (λ _ t. P t) P (s, x)
  reads-Post P s (returns a) h = h
  reads-Post P s raised h = h
  reads-Post P s interrupted h = h

  -- What holds in each case holds.
  pub Post-either :
      {A : Type 0} (P : Site W → Type 0) (s : Site W) (x : Exit A)
      → Post (λ _ t. P t) P (s, x)
      → P s
  Post-either P s (returns a) h = h
  Post-either P s raised h = h
  Post-either P s interrupted h = h

  pub check-Post :
      (P : Site W → Type 0) (b : Bool) (s : Site W)
      → P s
      → Post (λ _ t. P t × (b ≡ true)) P (check b s)
  check-Post P true s h = (h, refl)
  check-Post P false s h = h

  module _ (steps : RunnerSteps W) (starts : W → ℕ) where
    -- The sample is not started, and its marker stays.
    abbrev pub Quiet : W → W → Type 0
    Quiet w w' =
        (starts w' ≡ starts w)
        × ((r : IterationRecord) → steps.has_marker w r ≡ true → steps.has_marker w' r ≡ true)

    -- Only the guest step starts the sample, at most once, and behind its marker.
    pub record IsLawful : Type 0 where
      pub create_claim_quiet : (w : W) → Quiet w (steps.create_claim w).0
      pub write_claim_quiet : (w : W) (c : Claim) → Quiet w (steps.write_claim w c).0
      pub prepare_quiet : (w : W) → Quiet w (steps.prepare_run_directory w).0
      pub dependencies_quiet : (w : W) → Quiet w (steps.check_host_dependencies w).0
      pub backend_quiet : (w : W) → Quiet w (steps.create_network_backend w).0
      pub setup_quiet : (w : W) → Quiet w (steps.setup_network w).0
      pub cleanup_quiet : (w : W) (b : Bool) → Quiet w (steps.cleanup_network w b).0
      pub capture_quiet : (w : W) → Quiet w (steps.capture_before w).0
      pub ownership_quiet : (w : W) → Quiet w (steps.normalize_log_ownership w).0
      pub postprocess_quiet : (w : W) (code : ℤ) → Quiet w (steps.postprocess w code).0
      pub evaluate_quiet : (w : W) → Quiet w (steps.evaluate_target_state w).0
      pub artifacts_quiet : (w : W) → Quiet w (steps.validate_final_artifacts w).0
      pub complete_quiet :
          (w : W) (g : Bool) (code : ℤ) (t : Bool) → Quiet w (steps.complete_iteration w g code t).0
      pub guest_at_most_once : (w : W) → starts (steps.execute_guest w).0 ≤ starts w + 1
      pub guest_behind_marker :
          (w : W) (r : IterationRecord)
          → steps.has_marker (steps.execute_guest w).0 r ≡ false
          → starts (steps.execute_guest w).0 ≡ starts w
      pub remove_starts : (w : W) → starts (steps.remove_run_directory w).0 ≡ starts w
      pub unlink_starts : (w : W) → starts (steps.unlink_claim w).0 ≡ starts w

    -- The claim is written, and not one that a reset accepts.
    abbrev pub IsOpen : ClaimFile → Type 0
    IsOpen (written c) = is_failed c.stage ≡ false
    IsOpen _ = ⊥

    -- The sample has been started `k` times.
    abbrev pub Before : ℕ → Site W → Type 0
    Before k s = (starts s.outside ≡ k) × IsOpen s.claim

    -- It may have been started once more, behind its marker.
    abbrev pub After : ℕ → Site W → Type 0
    After k s =
        (starts s.outside ≤ k + 1)
        × ((r : IterationRecord) → steps.has_marker s.outside r ≡ false → starts s.outside ≡ k)
        × IsOpen s.claim

    pub Before-After : (k : ℕ) (s : Site W) → Before k s → After k s
    Before-After k s h = (omega (arith, h.0), λ r m. h.0, h.1)

    Quiet-marker :
        (w w' : W) (r : IterationRecord)
        → Quiet w w'
        → steps.has_marker w' r ≡ false
        → steps.has_marker w r ≡ false
    Quiet-marker w w' r q h = elim (Bool-cases (steps.has_marker w r)) [
      | inr m ↦ m
      | inl m ↦ ground (arith, h, q.1 r m)
    ]

    Quiet-Before :
        (k : ℕ) (s : Site W) (w : W)
        → Before k s
        → Quiet s.outside w
        → Before k (record s { outside = w })
    Quiet-Before k s w h q = (q.0 ∙ h.0, h.1)

    pub Quiet-After :
        (k : ℕ) (s : Site W) (w : W)
        → After k s
        → Quiet s.outside w
        → After k (record s { outside = w })
    Quiet-After k s w h q =
        (omega (arith, h.0, q.0), λ r m. q.0 ∙ h.1 r (Quiet-marker s.outside w r q m), h.2)

    pub outer-Before :
        {A : Type 0} (k : ℕ) (s : Site W) (r : W × Exit A)
        → Before k s
        → Quiet s.outside r.0
        → Post (λ _ t. Before k t) (After k) (outer s r)
    outer-Before k s r h q =
        Post-weaken (λ _ t. Before k t) (λ _ t. Before k t) (Before k) (After k) (outer s r)
          (λ a t b. b) (Before-After k)
          (reads-Post (Before k) (record s { outside = r.0 }) r.1 (Quiet-Before k s r.0 h q))

    pub outer-After :
        {A : Type 0} (k : ℕ) (s : Site W) (r : W × Exit A)
        → After k s
        → Quiet s.outside r.0
        → Post (λ _ t. After k t) (After k) (outer s r)
    outer-After k s r h q =
        reads-Post (After k) (record s { outside = r.0 }) r.1 (Quiet-After k s r.0 h q)

    replaced-Before :
        (k : ℕ) (new : Claim) (s : Site W) (r : W × Exit (Unit {0}))
        → Before k s
        → is_failed new.stage ≡ false
        → Quiet s.outside r.0
        → Post (λ c t. Before k t × (c ≡ new)) (After k) (replaced steps new s r)
    replaced-Before k new s (w, returns u) h e q = ((q.0 ∙ h.0, e), refl)
    replaced-Before k new s (w, raised) h e q =
        Before-After k (record s { outside = w }) (Quiet-Before k s w h q)
    replaced-Before k new s (w, interrupted) h e q =
        Before-After k (record s { outside = w }) (Quiet-Before k s w h q)

    replaced-After :
        (k : ℕ) (new : Claim) (s : Site W) (r : W × Exit (Unit {0}))
        → After k s
        → is_failed new.stage ≡ false
        → Quiet s.outside r.0
        → Post (λ c t. After k t) (After k) (replaced steps new s r)
    replaced-After k new s (w, returns u) h e q = let a = Quiet-After k s w h q in (a.0, a.1, e)
    replaced-After k new s (w, raised) h e q = Quiet-After k s w h q
    replaced-After k new s (w, interrupted) h e q = Quiet-After k s w h q

    module _ (lawful : IsLawful) where
      pub update-Before :
          (k : ℕ) (new : Claim) (s : Site W)
          → Before k s
          → is_failed new.stage ≡ false
          → Post (λ c t. Before k t × (c ≡ new)) (After k) (update_claim steps new s)
      update-Before k new s h e =
          replaced-Before k new s (steps.write_claim s.outside new) h e
            (lawful.write_claim_quiet s.outside new)

      pub update-After :
          (k : ℕ) (new : Claim) (s : Site W)
          → After k s
          → is_failed new.stage ≡ false
          → Post (λ c t. After k t) (After k) (update_claim steps new s)
      update-After k new s h e =
          replaced-After k new s (steps.write_claim s.outside new) h e
            (lawful.write_claim_quiet s.outside new)
