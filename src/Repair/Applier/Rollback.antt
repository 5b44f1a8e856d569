-- ===== src/Repair/Applier/Rollback.antt =====
-- `apply_file` of repair_applier.py when it raises, and dry runs.
-- Undoing what the transaction created gives the rootfs `start` back.
use taint_forge_io_t.Prelude.{
  All, Bool, Bool-cases, List, Option, Result, Text, [], arith, err, false, inl, inr, none, ok,
  refl, some, true, ℕ, ◌==◌, ◌∷◌, ◌≡◌,
}
use taint_forge_io_t.Repair.Applier.Apply.{
  Application, Applied, RepairApplicationReport, RepairApplicationState, Transaction, add_path,
  after_create, after_make, after_preflight, apply_file, apply_prepared, completed, create_all,
  dry_run, existing_error, fail, failed, finish, finish_apply, rollback, stop_or,
}
use taint_forge_io_t.Repair.Applier.Guard.{RepairApplicationError, cannot_save}
use taint_forge_io_t.Repair.Applier.Preflight.{
  PreparedDirectoryRepair, RepairDecisionResult, is_satisfied,
}
use taint_forge_io_t.Repair.Applier.Rootfs.{
  Faults, Made, NodePath, Rootfs, exists_already, find_node, is_directory_node, lstat, made,
  make_directory, refused,
}
use taint_forge_io_t.Repair.Applier.Tree.{
  IsTree, grown, grown-IsTree, make_directory-made, remove_directory-made,
}

module _ (faults : Faults) (start : Rootfs) where
  pub record Undoable (t : Transaction) : Type 0 where
    pub undone : rollback faults t.created t.rootfs ≡ (start, [])
    pub tree : IsTree t.rootfs

  module _ (permitted : (q : NodePath) → faults.chmod_fails q ≡ false)
      (removable : (q : NodePath) → faults.rmdir_fails q ≡ false) where
    Undoable-grown :
        (c : Text) (p : NodePath) (mode : ℕ) (t : Transaction)
        → find_node (c ∷ p) t.rootfs ≡ none
        → is_directory_node (lstat p t.rootfs) ≡ true
        → Undoable t
        → Undoable (record { rootfs = grown c p mode t.rootfs; created = (c ∷ p) ∷ t.created })
    unfolding rollback
    Undoable-grown c p mode t gone parent u = record {
      undone =
          rw (remove_directory-made faults c p mode t.rootfs removable u.tree gone, u.undone) refl;
      tree = grown-IsTree c p mode t.rootfs u.tree parent;
    }

    make_directory-refused :
        (p : NodePath) (mode : ℕ) (fs fs' : Rootfs)
        → make_directory faults p mode fs ≡ refused fs'
        → fs' ≡ fs
    unfolding make_directory
    make_directory-refused [] mode fs fs' h = ground arith
    make_directory-refused (c ∷ p) mode fs fs' h = ground (arith, permitted (c ∷ p))

    add_path-1 :
        (p : NodePath) (s : Result RepairApplicationError (List NodePath) × Transaction)
        → (add_path p s).1 ≡ s.1
    add_path-1 p (ok ps, t) = refl
    add_path-1 p (err e, t) = refl

    stop_or-Undoable :
        (o : Option RepairApplicationError) (t : Transaction)
        (s : Result RepairApplicationError (List NodePath) × Transaction)
        → Undoable t
        → Undoable s.1
        → Undoable (stop_or o t s).1
    stop_or-Undoable none t s u v = v
    stop_or-Undoable (some e) t s u v = u

    after_make-Undoable :
        (p : NodePath) (mode : ℕ) (t : Transaction)
        (go : Transaction → Result RepairApplicationError (List NodePath) × Transaction)
        → ((t' : Transaction) → Undoable t' → Undoable (go t').1)
        → Undoable t
        → (m : Made) → make_directory faults p mode t.rootfs ≡ m
        → Undoable (after_make p t go m).1
    unfolding make_directory
    after_make-Undoable [] mode t go rest u (made fs) e = ground arith
    after_make-Undoable (c ∷ p) mode t go rest u (made fs) e =
        let (gone, parent, same) = make_directory-made faults c p mode t.rootfs fs e in
        rw (add_path-1, same) (rest _ (Undoable-grown c p mode t gone parent u))
    after_make-Undoable p mode t go rest u exists_already e =
        stop_or-Undoable (existing_error (lstat p t.rootfs)) t (go t) u (rest t u)
    after_make-Undoable p mode t go rest u (refused fs) e =
        rw (make_directory-refused p mode t.rootfs fs e) u

    create_all-Undoable :
        (mode : ℕ) (ps : List NodePath) (t : Transaction)
        → Undoable t
        → Undoable (create_all faults mode ps t).1
    unfolding create_all
    create_all-Undoable mode [] t u = u
    create_all-Undoable mode (p ∷ ps) t u =
        after_make-Undoable p mode t (λ t'. create_all faults mode ps t')
          (λ t' v. create_all-Undoable mode ps t' v) u (make_directory faults p mode t.rootfs) refl

    after_create-Undoable :
        (r : PreparedDirectoryRepair) (results : List RepairDecisionResult)
        (go : List RepairDecisionResult
          → Transaction
          → Result RepairApplicationError (List RepairDecisionResult) × Transaction)
        (s : Result RepairApplicationError (List NodePath) × Transaction)
        → ((results' : List RepairDecisionResult) (t : Transaction)
            → Undoable t
            → Undoable (go results' t).1)
        → Undoable s.1
        → Undoable (after_create r results go s).1
    after_create-Undoable r results go (ok ps, t) rest u = rest _ t u
    after_create-Undoable r results go (err e, t) rest u = u

    apply_prepared-Undoable :
        (repairs : List PreparedDirectoryRepair) (results : List RepairDecisionResult)
        (t : Transaction)
        → Undoable t
        → Undoable (apply_prepared faults repairs results t).1
    unfolding apply_prepared
    apply_prepared-Undoable [] results t u = u
    apply_prepared-Undoable (r ∷ rs) results t u = elim (Bool-cases (is_satisfied r.create_paths)) [
      | inl e ↦ rw e (apply_prepared-Undoable rs results t u)
      | inr e ↦ rw e (
          after_create-Undoable r results (λ results' t'. apply_prepared faults rs results' t')
            (create_all faults r.mode r.create_paths t)
            (λ results' t' v. apply_prepared-Undoable rs results' t' v)
            (create_all-Undoable r.mode r.create_paths t u))
    ]

module _ (faults : Faults) (save_fails : RepairApplicationState → Bool) where
  -- What a call that raises leaves behind: the rootfs as it was, and reports without an error of
  -- the rollback.
  pub record Restored (start : Rootfs) (a : Applied) : Type 0 where
    pub same_rootfs : a.rootfs ≡ start
    pub no_errors : All (λ (report : RepairApplicationReport). report.rollback_errors ≡ []) a.saved

  fail-Restored :
      (start : Rootfs) (a : Application) (results : List RepairDecisionResult)
      (e : RepairApplicationError) (t : Transaction)
      → Undoable faults start t
      → Restored start (fail faults save_fails a results e t)
  unfolding fail
  fail-Restored start a results e t u = elim (Bool-cases (save_fails failed)) [
    | inl s ↦ rw (u.undone, s) (record { same_rootfs = refl; no_errors = tt })
    | inr s ↦ rw (u.undone, s) (record { same_rootfs = refl; no_errors = (refl, tt) })
  ]

  finish-Restored :
      (start : Rootfs) (a : Application) (state : RepairApplicationState)
      (before results : List RepairDecisionResult) (t : Transaction) (e : RepairApplicationError)
      → Undoable faults start t
      → (finish faults save_fails a state before results t).outcome ≡ err e
      → Restored start (finish faults save_fails a state before results t)
  finish-Restored start a state before results t e u h = elim (Bool-cases (save_fails state)) [
    | inl s ↦ rw s (fail-Restored start a before cannot_save t u)
    | inr s ↦ ground arith
  ]

  finish_apply-Restored :
      (start : Rootfs) (a : Application) (before : List RepairDecisionResult)
      (s : Result RepairApplicationError (List RepairDecisionResult) × Transaction)
      (e : RepairApplicationError)
      → Undoable faults start s.1
      → (finish_apply faults save_fails a before s).outcome ≡ err e
      → Restored start (finish_apply faults save_fails a before s)
  finish_apply-Restored start a before (ok results, t) e u h =
      finish-Restored start a completed results results t e u h
  finish_apply-Restored start a before (err e', t) e u h = fail-Restored start a before e' t u

  unchanged : (fs : Rootfs) → IsTree fs → Undoable faults fs (record { rootfs = fs; created = [] })
  unfolding rollback
  unchanged fs tree = record { undone = refl; tree = tree }

  finish_dry-Restored :
      (fs : Rootfs) (a : Application) (before : List RepairDecisionResult)
      → IsTree fs
      → Restored fs
          (finish faults save_fails a dry_run before before (record { rootfs = fs; created = [] }))
  finish_dry-Restored fs a before tree = elim (Bool-cases (save_fails dry_run)) [
    | inl s ↦ rw s (fail-Restored fs a before cannot_save _ (unchanged fs tree))
    | inr s ↦ rw s (record { same_rootfs = refl; no_errors = (refl, tt) })
  ]

  after_preflight-dry :
      (a : Application) (fs : Rootfs)
      (p : Result RepairApplicationError (List PreparedDirectoryRepair × List RepairDecisionResult))
      → IsTree fs
      → a.is_dry_run ≡ true
      → Restored fs (after_preflight faults save_fails a fs p)
  unfolding fail
  after_preflight-dry a fs (err e) tree h = fail-Restored fs a [] e _ (unchanged fs tree)
  after_preflight-dry a fs (ok (prepared, results)) tree h =
      rw h (finish_dry-Restored fs a results tree)

  after_preflight-raised :
      (a : Application) (fs : Rootfs) (e : RepairApplicationError)
      (p : Result RepairApplicationError (List PreparedDirectoryRepair × List RepairDecisionResult))
      → ((q : NodePath) → faults.chmod_fails q ≡ false)
      → ((q : NodePath) → faults.rmdir_fails q ≡ false)
      → IsTree fs
      → (after_preflight faults save_fails a fs p).outcome ≡ err e
      → Restored fs (after_preflight faults save_fails a fs p)
  unfolding fail
  after_preflight-raised a fs e (err e') permitted removable tree h =
      fail-Restored fs a [] e' _ (unchanged fs tree)
  after_preflight-raised a fs e (ok (prepared, results)) permitted removable tree h =
      elim (Bool-cases a.is_dry_run) [
        | inl dry ↦ rw dry (finish_dry-Restored fs a results tree)
        | inr wet ↦ rw wet (
            finish_apply-Restored fs a results
              (apply_prepared faults prepared results (record { rootfs = fs; created = [] })) e
              (apply_prepared-Undoable faults fs permitted removable prepared results _
                (unchanged fs tree))
              (rw wet at h))
      ]

  -- A dry run leaves the rootfs exactly as it was, whether it returns or raises and whichever calls
  -- fail, if every node of the rootfs stands in a directory.
  pub dry_run_unchanged :
      (a : Application) (fs : Rootfs)
      → IsTree fs
      → a.is_dry_run ≡ true
      → Restored fs (apply_file faults save_fails a fs)
  unfolding apply_file
  dry_run_unchanged a fs tree h =
      elim (Bool-cases (a.requirements_sha256 == a.plan.source_sha256)) [
        | inl s ↦ rw s (after_preflight-dry a fs _ tree h)
        | inr s ↦ rw s (record { same_rootfs = refl; no_errors = tt })
      ]

  -- If no `chmod` and no `rmdir` fails and every node of the rootfs stands in a directory, then an
  -- application that raises leaves the rootfs exactly as it was, and the reports that it saves hold
  -- no error of the rollback.
  pub apply_file_atomic :
      (a : Application) (fs : Rootfs) (e : RepairApplicationError)
      → ((q : NodePath) → faults.chmod_fails q ≡ false)
      → ((q : NodePath) → faults.rmdir_fails q ≡ false)
      → IsTree fs
      → (apply_file faults save_fails a fs).outcome ≡ err e
      → Restored fs (apply_file faults save_fails a fs)
  unfolding apply_file
  apply_file_atomic a fs e permitted removable tree h =
      elim (Bool-cases (a.requirements_sha256 == a.plan.source_sha256)) [
        | inl s ↦ rw s (after_preflight-raised a fs e _ permitted removable tree (rw s at h))
        | inr s ↦ rw s (record { same_rootfs = refl; no_errors = tt })
      ]
