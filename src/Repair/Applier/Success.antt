-- ===== src/Repair/Applier/Success.antt =====
-- `apply_file` of repair_applier.py when it returns.
use mathlib.Core.Path.{subst}
use taint_forge_io_t.Attempt.Stages.{allowed}
use taint_forge_io_t.Guest.Paths.{as_posix, components}
use taint_forge_io_t.Prelude.{
  All, All-get_elem?, All-map, Bool, Bool-cases, List, Option, Result, Text, [], ap, arith,
  bind-eq-ok, codes, err, false, get_elem?, inl, inr, none, ok, ok-inj, refl, require, some, sym,
  true, ℕ, ◌++◌, ◌==◌, ◌∷◌, ◌≡◌,
}
use taint_forge_io_t.Repair.Applier.Apply.{
  Application, RepairApplicationReport, RepairApplicationState, Transaction, after_preflight,
  apply_file, apply_prepared, completed, fail, finish_apply,
}
use taint_forge_io_t.Repair.Applier.Created.{AllMade}
use taint_forge_io_t.Repair.Applier.Guard.{
  RepairApplicationError, action_not_enabled, is_true_parameter, not_auto_candidate,
  parents_not_true, parse_mode, validate_guest_path,
}
use taint_forge_io_t.Repair.Applier.Preflight.{
  PreparedDirectoryRepair, RepairDecisionResult, created_of, is_create_directory, join_path,
  path_in, paths_to_create, preflight, prepare_directory, prepared_of, select, select_automatic,
}
use taint_forge_io_t.Repair.Applier.Rootfs.{Faults, NodePath, Rootfs, is_directory_node, lstat}
use taint_forge_io_t.Repair.Applier.Targets.{
  AppliedAll, IsReady, all_paths, apply_prepared-AppliedAll, path_in-append,
  paths_to_create-IsReady,
}
use taint_forge_io_t.Repair.Plan.{RepairDecision, dict_get, is_auto_candidate}
use taint_forge_io_t.Runner.Site.{done}
use taint_forge_io_t.Target.Parse.{known}

module _ (faults : Faults) where
  -- The path in the rootfs that a decision's resource names.
  abbrev pub directory_target : RepairDecision → NodePath
  directory_target d = join_path [] (components (as_posix (codes d.resource)))

  -- The target of every automatic decision is a directory.
  abbrev pub TargetsAreDirectories : List RepairDecision → Rootfs → Type 0
  TargetsAreDirectories ds fs =
      All
        (λ (d : RepairDecision).
          d.automatic_allowed ≡ true → is_directory_node (lstat (directory_target d) fs) ≡ true)
        ds

  validate_guest_path-ok :
      (path guest_path : Text)
      → validate_guest_path path ≡ ok guest_path
      → guest_path ≡ as_posix path
  unfolding validate_guest_path
  validate_guest_path-ok path guest_path h = ground arith

  pub prepare_directory-ok :
      (fs : Rootfs) (d : RepairDecision) (virtually_created : List NodePath)
      (r : PreparedDirectoryRepair)
      → prepare_directory faults fs d virtually_created ≡ ok r
      → (paths_to_create faults fs virtually_created [] (components (as_posix (codes d.resource)))
          ≡ ok r.create_paths)
        × (parse_mode (dict_get "mode" d.parameters) ≡ ok r.mode)
  unfolding prepare_directory
  prepare_directory-ok fs d virtually_created r h =
      let (guest_path, e, h1) = bind-eq-ok (validate_guest_path (codes d.resource)) _ h in
      let (u, e2, h2) =
        bind-eq-ok (require (is_true_parameter (dict_get "parents" d.parameters)) parents_not_true)
          _ h1 in
      let (mode, e3, h3) = bind-eq-ok (parse_mode (dict_get "mode" d.parameters)) _ h2 in
      let (ps, e4, h4) =
        bind-eq-ok (paths_to_create faults fs virtually_created [] (components guest_path)) _ h3 in
      (
        rw (← validate_guest_path-ok (codes d.resource) guest_path e, e4)
            (ap (λ r'. ok r'.create_paths) (ok-inj h4)),
        rw e3 (ap (λ r'. ok r'.mode) (ok-inj h4)),
      )

  pub select_automatic-ok :
      (fs : Rootfs) (d : RepairDecision) (virtually_created : List NodePath)
      (o : Option PreparedDirectoryRepair)
      → select_automatic faults fs d virtually_created ≡ ok o
      → (r : PreparedDirectoryRepair) × (prepare_directory faults fs d virtually_created ≡ ok r)
        × (some r ≡ o)
  unfolding select_automatic
  select_automatic-ok fs d virtually_created o h =
      let (u, e, h1) =
        bind-eq-ok (require (is_auto_candidate d.disposition) not_auto_candidate) _ h in
      let (v, e2, h2) =
        bind-eq-ok (require (is_create_directory d.action) action_not_enabled) _ h1 in
      let (r, e3, h3) = bind-eq-ok (prepare_directory faults fs d virtually_created) _ h2 in
      (r, e3, ok-inj h3)

  select-IsReady :
      (fs : Rootfs) (d : RepairDecision) (virtually_created known : List NodePath)
      (o : Option PreparedDirectoryRepair)
      → ((q : NodePath) → path_in q virtually_created ≡ true → path_in q known ≡ true)
      → d.automatic_allowed ≡ true
      → select faults fs d virtually_created ≡ ok o
      → IsReady fs (directory_target d) (created_of o ++ known)
  unfolding select lstat
  select-IsReady fs d virtually_created known o within allowed h =
      let (r, e, same) = select_automatic-ok fs d virtually_created o (ground arith) in
      rw (← same) (
        paths_to_create-IsReady faults fs virtually_created known []
          (components (as_posix (codes d.resource))) r.create_paths within (ground arith)
          (prepare_directory-ok fs d virtually_created r e).0)

  IsReady-within :
      (fs : Rootfs) (p : NodePath) (xs ys : List NodePath)
      → ((q : NodePath) → path_in q xs ≡ true → path_in q ys ≡ true)
      → IsReady fs p xs
      → IsReady fs p ys
  IsReady-within fs p xs ys within h = ground (arith, within p)

  all_paths-prepared_of :
      (q : NodePath) (o : Option PreparedDirectoryRepair) (rs : List PreparedDirectoryRepair)
      (known : List NodePath)
      → path_in q (all_paths rs ++ (created_of o ++ known)) ≡ true
      → path_in q (all_paths (prepared_of o rs) ++ known) ≡ true
  all_paths-prepared_of q none rs known h = h
  all_paths-prepared_of q (some r) rs known h = ground (
    arith,
    path_in-append q (all_paths rs) (r.create_paths ++ known),
    path_in-append q r.create_paths known,
    path_in-append q (r.create_paths ++ all_paths rs) known,
    path_in-append q r.create_paths (all_paths rs),
  )

  -- Every automatic decision's target is a directory or created by what is prepared.
  abbrev pub TargetsAreReady : List RepairDecision → Rootfs → List NodePath → Type 0
  TargetsAreReady ds fs ps =
      All (λ (d : RepairDecision). d.automatic_allowed ≡ true → IsReady fs (directory_target d) ps)
        ds

  TargetsAreReady-cons :
      (fs : Rootfs) (d : RepairDecision) (ds : List RepairDecision)
      (virtually_created : List NodePath) (o : Option PreparedDirectoryRepair)
      (rest : List PreparedDirectoryRepair)
      → select faults fs d virtually_created ≡ ok o
      → TargetsAreReady ds fs (all_paths rest ++ (created_of o ++ virtually_created))
      → TargetsAreReady (d ∷ ds) fs (all_paths (prepared_of o rest) ++ virtually_created)
  TargetsAreReady-cons fs d ds virtually_created o rest e later =
      let within : (q : NodePath)
          → path_in q (all_paths rest ++ (created_of o ++ virtually_created)) ≡ true
          → path_in q (all_paths (prepared_of o rest) ++ virtually_created) ≡ true =
        λ q. all_paths-prepared_of q o rest virtually_created in
      (
        λ allowed.
            IsReady-within fs (directory_target d) (created_of o ++ virtually_created)
              (all_paths (prepared_of o rest) ++ virtually_created)
              (λ q k. within q (
                ground
                  (arith, path_in-append q (all_paths rest) (created_of o ++ virtually_created))))
              (select-IsReady fs d virtually_created virtually_created o (λ q k. k) allowed e),
        All-map _ _ ds
            (λ d' ready allowed.
              IsReady-within fs (directory_target d')
                (all_paths rest ++ (created_of o ++ virtually_created))
                (all_paths (prepared_of o rest) ++ virtually_created) within (ready allowed))
            later,
      )

  preflight-TargetsAreReady :
      (fs : Rootfs) (ds : List RepairDecision) (virtually_created : List NodePath)
      (p : List PreparedDirectoryRepair × List RepairDecisionResult)
      → preflight faults fs ds virtually_created ≡ ok p
      → TargetsAreReady ds fs (all_paths p.0 ++ virtually_created)
  unfolding preflight
  preflight-TargetsAreReady fs [] virtually_created p h = tt
  preflight-TargetsAreReady fs (d ∷ ds) virtually_created p h =
      let (o, e, h1) = bind-eq-ok (select faults fs d virtually_created) _ h in
      let (rest, e2, h2) =
        bind-eq-ok (preflight faults fs ds (created_of o ++ virtually_created)) _ h1 in
      subst (λ p'. TargetsAreReady (d ∷ ds) fs (all_paths p'.0 ++ virtually_created)) (ok-inj h2)
        (TargetsAreReady-cons fs d ds virtually_created o rest.0 e
          (preflight-TargetsAreReady fs ds (created_of o ++ virtually_created) rest e2))

  abbrev pub HasTargets : List RepairDecision → Rootfs → Rootfs → Type 0
  HasTargets ds fs fs' =
      TargetsAreDirectories ds fs'
      × ((q : NodePath)
          → is_directory_node (lstat q fs) ≡ true
          → is_directory_node (lstat q fs') ≡ true)

  IsReady-created :
      (fs : Rootfs) (p : NodePath) (ps : List NodePath) (t : Transaction)
      → IsReady fs p (ps ++ [])
      → AllMade faults ps t
      → ((q : NodePath)
          → is_directory_node (lstat q fs) ≡ true
          → is_directory_node (lstat q t.rootfs) ≡ true)
      → is_directory_node (lstat p t.rootfs) ≡ true
  IsReady-created fs p ps t ready all_made keeps = elim (Bool-cases (path_in p ps)) [
    | inl e ↦ all_made p e
    | inr e ↦ keeps p (ground (arith, path_in-append p ps []))
  ]

  finish_apply-HasTargets :
      (save_fails : RepairApplicationState → Bool) (a : Application) (fs : Rootfs)
      (report : RepairApplicationReport) (rs : List PreparedDirectoryRepair)
      (before : List RepairDecisionResult)
      (s : Result RepairApplicationError (List RepairDecisionResult) × Transaction)
      → TargetsAreReady a.plan.decisions fs (all_paths rs ++ [])
      → AppliedAll faults rs (record { rootfs = fs; created = [] }) s
      → (finish_apply faults save_fails a before s).outcome ≡ ok report
      → HasTargets a.plan.decisions fs (finish_apply faults save_fails a before s).rootfs
  unfolding AppliedAll fail
  finish_apply-HasTargets save_fails a fs report rs before (err e, t) ready done h = ground arith
  finish_apply-HasTargets save_fails a fs report rs before (ok results, t) ready done h =
      let (keeps, all_made) = done results refl in
      elim (Bool-cases (save_fails completed)) [
        | inl s ↦ ground arith
        | inr s ↦ rw s (
          All-map _ _ a.plan.decisions
              (λ d d_ready allowed.
                IsReady-created fs (directory_target d) (all_paths rs) t (d_ready allowed) all_made
                  keeps.keeps)
              ready,
          keeps.keeps,
        )
      ]

  after_preflight-HasTargets :
      (save_fails : RepairApplicationState → Bool) (a : Application) (fs : Rootfs)
      (report : RepairApplicationReport)
      (p : Result RepairApplicationError (List PreparedDirectoryRepair × List RepairDecisionResult))
      → p ≡ preflight faults fs a.plan.decisions []
      → a.is_dry_run ≡ false
      → (after_preflight faults save_fails a fs p).outcome ≡ ok report
      → HasTargets a.plan.decisions fs (after_preflight faults save_fails a fs p).rootfs
  unfolding fail
  after_preflight-HasTargets save_fails a fs report (err e) same wet h = ground arith
  after_preflight-HasTargets save_fails a fs report (ok (rs, before)) same wet h = rw wet (
      finish_apply-HasTargets save_fails a fs report rs before
        (apply_prepared faults rs before (record { rootfs = fs; created = [] }))
        (preflight-TargetsAreReady fs a.plan.decisions [] (rs, before) (sym same))
        (apply_prepared-AppliedAll faults rs before (record { rootfs = fs; created = [] }))
        (rw wet at h))

  apply_file-HasTargets :
      (save_fails : RepairApplicationState → Bool) (a : Application) (fs : Rootfs)
      (report : RepairApplicationReport)
      → a.is_dry_run ≡ false
      → (apply_file faults save_fails a fs).outcome ≡ ok report
      → HasTargets a.plan.decisions fs (apply_file faults save_fails a fs).rootfs
  unfolding apply_file
  apply_file-HasTargets save_fails a fs report wet h =
      elim (Bool-cases (a.requirements_sha256 == a.plan.source_sha256)) [
        | inl s ↦ rw s (after_preflight-HasTargets save_fails a fs report _ refl wet (rw s at h))
        | inr s ↦ ground arith
      ]

  -- When an application that is not a dry run returns, the target of every automatic decision of
  -- its plan is a directory of the rootfs.
  pub apply_file_targets :
      (save_fails : RepairApplicationState → Bool) (a : Application) (fs : Rootfs)
      (report : RepairApplicationReport) (i : ℕ) (d : RepairDecision)
      → a.is_dry_run ≡ false
      → (apply_file faults save_fails a fs).outcome ≡ ok report
      → get_elem? a.plan.decisions i ≡ some d
      → d.automatic_allowed ≡ true
      → is_directory_node (lstat (directory_target d) (apply_file faults save_fails a fs).rootfs)
        ≡ true
  apply_file_targets save_fails a fs report i d wet h listed allowed =
      All-get_elem? _ a.plan.decisions i d (apply_file-HasTargets save_fails a fs report wet h).0
        listed allowed
