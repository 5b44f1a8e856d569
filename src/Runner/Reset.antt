-- ===== src/Runner/Reset.antt =====
-- `reset_safe_failure` on how often the sample has been started.
use mathlib.Core.Path.{subst}
use taint_forge_io_t.Prelude.{Bool, String, arith, false, not, refl, sym, true, ℕ, ◌==◌, ◌∙◌, ◌≡◌}
use taint_forge_io_t.Runner.Claim.{
  Claim, ClaimFile, Exit, interrupted, is_failed, is_resettable, raised, returns, unclaimed,
  unwritten, written,
}
use taint_forge_io_t.Runner.Hoare.{IsLawful, Post, Post-weaken, reads-Post, then-Post}
use taint_forge_io_t.Runner.Once.{IsOnce, Once}
use taint_forge_io_t.Runner.Run.{
  latest_prepared, load_claim, remove_run, reset_claim, reset_files, reset_safe_failure,
  same_digest, unlinked,
}
use taint_forge_io_t.Runner.Site.{
  RunDirectory, RunnerConfig, RunnerSteps, Site, check, no_run_dir, run_dir_symlink, run_dir_there,
  ◌then◌,
}
use taint_forge_io_t.Runner.Started.{latest_prepared-reads}
use taint_forge_io_t.Session.Records.{IterationRecord, SessionManifest}

module _ {W : Type 0} (steps : RunnerSteps W) (starts : W → ℕ)
    (lawful : IsLawful steps starts) where
  abbrev IsUnstarted : Site W → Type 0
  IsUnstarted s = starts s.outside ≡ 0

  unstarted-IsOnce : (n : ℕ) (file : ClaimFile) → n ≡ 0 → IsOnce steps starts lawful n file
  unstarted-IsOnce n unclaimed h = h
  unstarted-IsOnce n unwritten h = h
  unstarted-IsOnce n (written c) h = (omega (arith, h), λ _. h)

  pub unstarted-Once : (s : Site W) → IsUnstarted s → Once steps starts lawful s
  unstarted-Once s h = unstarted-IsOnce (starts s.outside) s.claim h

  remove_run-IsUnstarted :
      (d : RunDirectory) (s : Site W)
      → IsUnstarted s
      → Post (λ _ t. IsUnstarted t) (Once steps starts lawful) (remove_run steps d s)
  remove_run-IsUnstarted no_run_dir s h = h
  remove_run-IsUnstarted run_dir_symlink s h = unstarted-Once s h
  remove_run-IsUnstarted run_dir_there s h =
      let after : Site W = record s { outside = (steps.remove_run_directory s.outside).0 } in
      Post-weaken (λ _ t. IsUnstarted t) (λ _ t. IsUnstarted t) IsUnstarted
        (Once steps starts lawful) (after, (steps.remove_run_directory s.outside).1) (λ a t k. k)
        unstarted-Once
        (reads-Post IsUnstarted after (steps.remove_run_directory s.outside).1
          (lawful.remove_starts s.outside ∙ h))

  unlinked-Once :
      (s : Site W) (x : W × Exit (Unit {0}))
      → IsUnstarted s
      → starts x.0 ≡ starts s.outside
      → Post (λ _ t. Once steps starts lawful t) (Once steps starts lawful) (unlinked steps s x)
  unlinked-Once s (w, returns u) h e = e ∙ h
  unlinked-Once s (w, raised) h e = unstarted-Once (record s { outside = w }) (e ∙ h)
  unlinked-Once s (w, interrupted) h e = unstarted-Once (record s { outside = w }) (e ∙ h)

  load_claim-written :
      (file : ClaimFile) (s : Site W)
      → Once steps starts lawful s
      → IsOnce steps starts lawful (starts s.outside) file
      → Post
          (λ c t. Once steps starts lawful t × (is_resettable c ≡ true → IsUnstarted t))
          (Once steps starts lawful)
          (load_claim steps file s)
  load_claim-written (written c) s o h = (o, h.1)
  load_claim-written unclaimed s o h = o
  load_claim-written unwritten s o h = o

  -- A step behind which a site is as it was.
  on_same :
      {A B : Type 0} (P : Site W → Type 0) (s : Site W) (r : Site W × Exit A)
      (f : A → Site W → Site W × Exit B)
      → P s
      → ((t : Site W) → P t → Once steps starts lawful t)
      → Post (λ _ t. t ≡ s) (λ t. t ≡ s) r
      → ((a : A) (t : Site W)
          → P t
          → Post (λ _ u. Once steps starts lawful u) (Once steps starts lawful) (f a t))
      → Post (λ _ u. Once steps starts lawful u) (Once steps starts lawful) (r then f)
  on_same {A = A} {B = B} P s r f p o h k =
      then-Post {A = A} {B = B} (λ _ t. P t) (λ _ t. Once steps starts lawful t)
        (Once steps starts lawful) r f
        (Post-weaken (λ _ t. t ≡ s) (λ _ t. P t) (λ t. t ≡ s) (Once steps starts lawful) r
          (λ a t e. subst P (sym e) p) (λ t e. o t (subst P (sym e) p)) h)
        k

  -- A check, with what it has shown.
  on_check :
      {B : Type 0} (P : Site W → Type 0) (b : Bool) (s : Site W)
      (f : Unit {0} → Site W → Site W × Exit B)
      → P s
      → ((t : Site W) → P t → Once steps starts lawful t)
      → (b ≡ true
          → (t : Site W) → P t
          → Post (λ _ u. Once steps starts lawful u) (Once steps starts lawful) (f tt t))
      → Post (λ _ u. Once steps starts lawful u) (Once steps starts lawful) (check b s then f)
  on_check P true s f p o k = k refl s p
  on_check P false s f p o k = o s p

  abbrev O : Site W → Type 0
  O t = Once steps starts lawful t

  -- A claim that allows a reset says that the sample has not been started.
  abbrev Kept : Claim → Site W → Type 0
  Kept c u = O u × (is_resettable c ≡ true → IsUnstarted u)

  reset_files-Once :
      (r : IterationRecord) (s : Site W)
      → IsUnstarted s
      → Post (λ _ t. O t) O (reset_files steps r s)
  reset_files-Once r s z =
      then-Post {A = Unit {0}} {B = Unit {0}} (λ _ u. IsUnstarted u) (λ _ u. O u) O
        (remove_run steps (steps.run_directory s.outside r) s)
        (λ _ t. unlinked steps t (steps.unlink_claim t.outside))
        (remove_run-IsUnstarted (steps.run_directory s.outside r) s z)
        (λ _ t z. unlinked-Once t (steps.unlink_claim t.outside) z (lawful.unlink_starts t.outside))

  reset_claim-Once :
      (r : IterationRecord) (c : Claim) (s : Site W)
      → Kept c s
      → Post (λ _ t. O t) O (reset_claim steps r c s)
  reset_claim-Once r c s h =
      on_check {B = Unit {0}} (Kept c) (c.attempt_id == r.attempt_id) s _ h (λ u k. k.0)
        (λ _ t h.
          on_check {B = Unit {0}} (Kept c) (is_failed c.stage) t _ h (λ u k. k.0)
            (λ failed t h.
              on_check {B = Unit {0}} (Kept c) (not c.malware_started) t _ h (λ u k. k.0)
                (λ unstarted t h.
                  on_check {B = Unit {0}} (Kept c) c.retry_safe t _ h (λ u k. k.0)
                    (λ safe t h.
                      on_same {A = String} {B = Unit {0}} IsUnstarted t
                        (t, steps.snapshot_digest t.outside r)
                        (λ expected u.
                          check (same_digest steps (steps.rootfs_digest u.outside r) expected) u
                          then λ _ v. reset_files steps r v)
                        (h.1 (rw (failed, unstarted, safe) refl)) unstarted-Once
                        (reads-Post (λ u. u ≡ t) t (steps.snapshot_digest t.outside r) refl)
                        (λ d t z.
                          on_check {B = Unit {0}} IsUnstarted
                            (same_digest steps (steps.rootfs_digest t.outside r) d) t
                            (λ _ v. reset_files steps r v) z unstarted-Once
                            (λ _ t z. reset_files-Once r t z))))))

  pub reset-Once :
      (config : RunnerConfig) (s : Site W)
      → O s
      → Post (λ _ t. O t) O (reset_safe_failure steps config s)
  unfolding reset_safe_failure
  reset-Once config s o =
      on_same {A = SessionManifest} {B = Unit {0}} O s (s, steps.load s.outside)
        (λ session t. latest_prepared steps config session t then λ r u.
          load_claim steps u.claim u then λ c v. reset_claim steps r c v)
        o (λ u k. k) (reads-Post (λ t. t ≡ s) s (steps.load s.outside) refl)
        (λ session t o.
          on_same {A = IterationRecord} {B = Unit {0}} O t (latest_prepared steps config session t)
            (λ r u. load_claim steps u.claim u then λ c v. reset_claim steps r c v) o (λ u k. k)
            (latest_prepared-reads steps starts lawful config session t)
            (λ r t o.
              then-Post {A = Claim} {B = Unit {0}} (λ c u. Kept c u) (λ _ u. O u) O
                (load_claim steps t.claim t) (λ c v. reset_claim steps r c v)
                (load_claim-written t.claim t o o) (λ c t h. reset_claim-Once r c t h)))
