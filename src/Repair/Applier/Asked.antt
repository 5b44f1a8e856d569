-- ===== src/Repair/Applier/Asked.antt =====
-- Which paths the preflight of repair_applier.py prepares, and what an application that returns has
-- changed.
use mathlib.Core.Path.{subst}
use taint_forge_io_t.Attempt.Stages.{allowed}
use taint_forge_io_t.Guest.Paths.{as_posix, components}
use taint_forge_io_t.Prelude.{
  All, All-map, Bool, Bool-cases, List, Option, Result, Text, [], arith, bind-eq-ok, codes, err,
  false, get_elem?, if◌then◌else◌, inl, inr, none, not, ok, ok-inj, refl, some, some-inj, suc, sym,
  true, ℕ, ◌++◌, ◌==◌, ◌∙◌, ◌∷◌, ◌≡◌,
}
use taint_forge_io_t.Repair.Applier.Apply.{
  Application, RepairApplicationReport, RepairApplicationState, Transaction, after_preflight,
  apply_file, apply_prepared, completed, dry_run, fail, failed, finish, finish_apply,
}
use taint_forge_io_t.Repair.Applier.Guard.{RepairApplicationError, parse_mode}
use taint_forge_io_t.Repair.Applier.Preflight.{
  PreparedDirectoryRepair, RepairDecisionResult, created_of, inspect, join_path, paths_to_create,
  preflight, prepared_of, select, select_automatic,
}
use taint_forge_io_t.Repair.Applier.Rootfs.{Faults, NodePath, Rootfs}
use taint_forge_io_t.Repair.Applier.Success.{
  directory_target, prepare_directory-ok, select_automatic-ok,
}
use taint_forge_io_t.Repair.Applier.Touched.{AllAsked, IsTouched, apply_prepared-IsTouched}
use taint_forge_io_t.Repair.Plan.{RepairDecision, dict_get}

All-listed :
    {A : Type 0} (Q : A → Type 0) (xs : List A)
    → ((i : ℕ) (x : A) → get_elem? xs i ≡ some x → Q x)
    → All Q xs
All-listed Q [] h = tt
All-listed Q (x ∷ xs) h = (h 0 x refl, All-listed Q xs (λ i y e. h (suc i) y e))

module _ (faults : Faults) where
  -- A decision asks for a directory with its mode: for its target, or for a path on the way to it.
  abbrev pub Asks : RepairDecision → NodePath → ℕ → Type 0
  Asks d q m =
      (d.automatic_allowed ≡ true)
      × (parse_mode (dict_get "mode" d.parameters) ≡ ok m)
      × ((cs : List Text) × (directory_target faults d ≡ join_path q cs))

  -- Some decision of the plan asks for it.
  abbrev pub IsAsked : List RepairDecision → NodePath → ℕ → Type 0
  IsAsked ds q m = (i : ℕ) × (d : RepairDecision) × (get_elem? ds i ≡ some d) × Asks d q m

  paths_to_create-on_way :
      (fs : Rootfs) (virtually_created : List NodePath) (current : NodePath) (cs : List Text)
      (ps : List NodePath)
      → paths_to_create faults fs virtually_created current cs ≡ ok ps
      → All (λ p. (rest : List Text) × (join_path current cs ≡ join_path p rest)) ps
  unfolding paths_to_create
  paths_to_create-on_way fs virtually_created current [] ps h = rw (← ok-inj h) tt
  paths_to_create-on_way fs virtually_created current (c ∷ cs) ps h =
      let (is_missing, e, h') =
        bind-eq-ok (inspect faults fs virtually_created (c ∷ current)) _ h in
      let (rest, e', h'') =
        bind-eq-ok (paths_to_create faults fs virtually_created (c ∷ current) cs) _ h' in
      let later = paths_to_create-on_way fs virtually_created (c ∷ current) cs rest e' in
      rw (← ok-inj h'') (with_head is_missing rest later)
    where
      with_head :
          (b : Bool) (rest : List NodePath)
          → All (λ p. (ds : List Text) × (join_path (c ∷ current) cs ≡ join_path p ds)) rest
          → All
              (λ p. (ds : List Text) × (join_path (c ∷ current) cs ≡ join_path p ds))
              (if b then (c ∷ current) ∷ rest else rest)
      with_head true rest later = ((cs, refl), later)
      with_head false rest later = later

  select-selected :
      (fs : Rootfs) (d : RepairDecision) (virtually_created : List NodePath)
      (r : PreparedDirectoryRepair)
      → select faults fs d virtually_created ≡ ok (some r)
      → (d.automatic_allowed ≡ true)
        × (select_automatic faults fs d virtually_created ≡ ok (some r))
  unfolding select
  select-selected fs d virtually_created r h = elim (Bool-cases (not d.automatic_allowed)) [
    | inl e ↦ ground (arith, rw e at h)
    | inr e ↦ (ground arith, sym (rw e refl) ∙ h)
  ]

  module _ (P : NodePath → ℕ → Type 0) where
    -- What a decision asks for is admitted.
    abbrev Admits : RepairDecision → Type 0
    Admits d = (q : NodePath) (m : ℕ) → Asks d q m → P q m

    select-AllAsked :
        (fs : Rootfs) (d : RepairDecision) (virtually_created : List NodePath)
        (o : Option PreparedDirectoryRepair) (rs : List PreparedDirectoryRepair)
        → Admits d
        → select faults fs d virtually_created ≡ ok o
        → AllAsked faults P rs
        → AllAsked faults P (prepared_of o rs)
    select-AllAsked fs d virtually_created none rs admits h later = later
    select-AllAsked fs d virtually_created (some r) rs admits h later =
        let (allowed, chosen) = select-selected fs d virtually_created r h in
        let (r', ready, same) = select_automatic-ok faults fs d virtually_created (some r) chosen in
        let (paths, mode) = prepare_directory-ok faults fs d virtually_created r' ready in
        (
          subst (λ (u : PreparedDirectoryRepair). All (λ p. P p u.mode) u.create_paths)
              (some-inj same)
              (All-map _ _ r'.create_paths (λ p on_way. admits p r'.mode (allowed, mode, on_way))
                (paths_to_create-on_way fs virtually_created []
                  (components (as_posix (codes d.resource))) r'.create_paths paths)),
          later,
        )

    preflight-AllAsked :
        (fs : Rootfs) (ds : List RepairDecision) (virtually_created : List NodePath)
        (p : List PreparedDirectoryRepair × List RepairDecisionResult)
        → All Admits ds
        → preflight faults fs ds virtually_created ≡ ok p
        → AllAsked faults P p.0
    unfolding preflight
    preflight-AllAsked fs [] virtually_created p admits h = rw (← ok-inj h) tt
    preflight-AllAsked fs (d ∷ ds) virtually_created p admits h =
        let (o, e, h1) = bind-eq-ok (select faults fs d virtually_created) _ h in
        let (rest, e2, h2) =
          bind-eq-ok (preflight faults fs ds (created_of o ++ virtually_created)) _ h1 in
        rw (← ok-inj h2) (
          select-AllAsked fs d virtually_created o rest.0 admits.0 e
            (preflight-AllAsked fs ds (created_of o ++ virtually_created) rest admits.1 e2))

  finish-IsTouched :
      (save_fails : RepairApplicationState → Bool) (a : Application)
      (state : RepairApplicationState) (before results : List RepairDecisionResult)
      (t : Transaction) (report : RepairApplicationReport) (fs : Rootfs) (q : NodePath)
      (P : NodePath → ℕ → Type 0)
      → IsTouched P fs t.rootfs q
      → (finish faults save_fails a state before results t).outcome ≡ ok report
      → IsTouched P fs (finish faults save_fails a state before results t).rootfs q
  unfolding fail
  finish-IsTouched save_fails a state before results t report fs q P now h =
      elim (Bool-cases (save_fails state)) [
        | inl e ↦ elim (Bool-cases (save_fails failed)) [
          | inl e' ↦ ground (arith, rw (e, e') at h)
          | inr e' ↦ ground (arith, rw (e, e') at h)
        ]
        | inr e ↦ rw e now
      ]

  finish_apply-IsTouched :
      (save_fails : RepairApplicationState → Bool) (a : Application)
      (before : List RepairDecisionResult)
      (s : Result RepairApplicationError (List RepairDecisionResult) × Transaction)
      (report : RepairApplicationReport) (fs : Rootfs) (q : NodePath) (P : NodePath → ℕ → Type 0)
      → IsTouched P fs s.1.rootfs q
      → (finish_apply faults save_fails a before s).outcome ≡ ok report
      → IsTouched P fs (finish_apply faults save_fails a before s).rootfs q
  unfolding fail
  finish_apply-IsTouched save_fails a before (ok results, t) report fs q P now h =
      finish-IsTouched save_fails a completed results results t report fs q P now h
  finish_apply-IsTouched save_fails a before (err e, t) report fs q P now h = ground arith

  after_preflight-IsTouched :
      (save_fails : RepairApplicationState → Bool) (a : Application) (fs : Rootfs)
      (report : RepairApplicationReport) (q : NodePath)
      (p : Result RepairApplicationError (List PreparedDirectoryRepair × List RepairDecisionResult))
      → preflight faults fs a.plan.decisions [] ≡ p
      → (after_preflight faults save_fails a fs p).outcome ≡ ok report
      → IsTouched (IsAsked a.plan.decisions) fs (after_preflight faults save_fails a fs p).rootfs q
  unfolding fail
  after_preflight-IsTouched save_fails a fs report q (err e) same h = ground arith
  after_preflight-IsTouched save_fails a fs report q (ok (rs, before)) same h =
      let asked = IsAsked a.plan.decisions in
      let start : Transaction = record { rootfs = fs; created = [] } in
      elim (Bool-cases a.is_dry_run) [
        | inl e ↦ rw e (
            finish-IsTouched save_fails a dry_run before before start report fs q asked (inl refl)
              (rw e at h))
        | inr e ↦ rw e (
            finish_apply-IsTouched save_fails a before (apply_prepared faults rs before start)
              report fs q asked
              (apply_prepared-IsTouched faults asked q rs before start (
                preflight-AllAsked asked fs a.plan.decisions [] (rs, before)
                  (All-listed _ a.plan.decisions (λ i d listed q' m asks. (i, d, listed, asks)))
                  same))
              (rw e at h))
      ]

  -- When an application returns, a dry run or not, each path of the rootfs is as it was, or it was
  -- absent and is a directory now, with the mode that an automatic decision of the plan asks for,
  -- and it is the target of that decision or a path on the way to it.
  pub apply_file_touches :
      (save_fails : RepairApplicationState → Bool) (a : Application) (fs : Rootfs)
      (report : RepairApplicationReport) (q : NodePath)
      → (apply_file faults save_fails a fs).outcome ≡ ok report
      → IsTouched (IsAsked a.plan.decisions) fs (apply_file faults save_fails a fs).rootfs q
  unfolding apply_file
  apply_file_touches save_fails a fs report q h =
      elim (Bool-cases (a.requirements_sha256 == a.plan.source_sha256)) [
        | inl s ↦ rw s (after_preflight-IsTouched save_fails a fs report q _ refl (rw s at h))
        | inr s ↦ ground (arith, rw s at h)
      ]
