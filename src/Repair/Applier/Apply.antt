-- ===== src/Repair/Applier/Apply.antt =====
-- `_apply_prepared`, `_rollback`, `_mark_rolled_back` and `apply_file`.
use taint_forge_io_t.Prelude.{
  Bool, List, Option, Result, String, [], err, false, if◌then◌else◌, none, ok, some, ℕ, ◌==◌, ◌||◌,
  ◌∷◌,
}
use taint_forge_io_t.Repair.Applier.Guard.{
  RepairApplicationError, became_non_directory, became_symlink, cannot_create, cannot_save,
  digest_mismatch,
}
use taint_forge_io_t.Repair.Applier.Preflight.{
  PreparedDirectoryRepair, RepairDecisionResult, already_satisfied, applied, is_satisfied, path_in,
  preflight, rolled_back,
}
use taint_forge_io_t.Repair.Applier.Rootfs.{
  Faults, Made, Node, NodePath, Rootfs, exists_already, lstat, made, make_directory, refused,
  regular_node, remove_directory, symlink_node,
}
use taint_forge_io_t.Repair.Plan.{RepairPlan}

-- The rootfs and `created_paths`, the latest first.
pub record Transaction : Type 0 where
  pub rootfs : Rootfs
  pub created : List NodePath

-- What a step leaves behind when it returns and when it raises.
abbrev pub Step : Type 0 → Type 0
Step A = Transaction → Result RepairApplicationError A × Transaction

abbrev pub add_path :
    NodePath
    → Result RepairApplicationError (List NodePath) × Transaction
    → Result RepairApplicationError (List NodePath) × Transaction
add_path p (ok ps, t) = (ok (p ∷ ps), t)
add_path p (err e, t) = (err e, t)

-- The handler of `FileExistsError`: `none` goes on with the loop. Its `lstat` does not fail: the
-- preflight has made the same call on every path to create, and which calls fail is fixed.
abbrev pub existing_error : Option Node → Option RepairApplicationError
existing_error (some symlink_node) = some became_symlink
existing_error (some regular_node) = some became_non_directory
existing_error _ = none

abbrev pub stop_or :
    Option RepairApplicationError
    → Transaction
    → Result RepairApplicationError (List NodePath) × Transaction
    → Result RepairApplicationError (List NodePath) × Transaction
stop_or (some e) t rest = (err e, t)
stop_or none t rest = rest

-- What the loop over the paths does with the answer for one path; `go` is the rest of it.
abbrev pub after_make :
    NodePath
    → Transaction
    → (Transaction → Result RepairApplicationError (List NodePath) × Transaction)
    → Made
    → Result RepairApplicationError (List NodePath) × Transaction
after_make p t go (made fs) = add_path p (go (record { rootfs = fs; created = p ∷ t.created }))
after_make p t go exists_already = stop_or (existing_error (lstat p t.rootfs)) t (go t)
after_make p t go (refused fs) = (err cannot_create, record t { rootfs = fs })

abbrev pub applied_result : PreparedDirectoryRepair → List NodePath → RepairDecisionResult
applied_result repair actually_created = record {
  decision_id = repair.decision.decision_id;
  requirement_id = repair.decision.requirement_id;
  action = repair.decision.action;
  resource = repair.decision.resource;
  status = if is_satisfied actually_created then already_satisfied else applied;
  target_path = some repair.target_path;
  created_paths = actually_created;
}

-- `by_decision[id] = result`, for distinct ids.
abbrev pub replace_result :
    RepairDecisionResult → List RepairDecisionResult → List RepairDecisionResult
replace_result new [] = []
replace_result new (r ∷ rs) =
    let rest = replace_result new rs in
    if r.decision_id == new.decision_id then new ∷ rest else r ∷ rest

-- The outcome of one item's paths, and the rest of the items, `go`.
abbrev pub after_create :
    PreparedDirectoryRepair
    → List RepairDecisionResult
    → (List RepairDecisionResult
        → Transaction
        → Result RepairApplicationError (List RepairDecisionResult) × Transaction)
    → Result RepairApplicationError (List NodePath) × Transaction
    → Result RepairApplicationError (List RepairDecisionResult) × Transaction
after_create repair results go (ok actually_created, t) =
    go (replace_result (applied_result repair actually_created) results) t
after_create repair results go (err e, t) = (err e, t)

module _ (faults : Faults) where
  -- The loop over the paths of one item: the paths that it created.
  unfoldable pub create_all : ℕ → List NodePath → Step (List NodePath)
  create_all mode [] t = (ok [], t)
  create_all mode (p ∷ ps) t =
      after_make p t (λ t'. create_all mode ps t') (make_directory faults p mode t.rootfs)

  -- The loop over the items.
  unfoldable pub apply_prepared :
      List PreparedDirectoryRepair → List RepairDecisionResult → Step (List RepairDecisionResult)
  apply_prepared [] results t = (ok results, t)
  apply_prepared (repair ∷ repairs) results t =
      if is_satisfied repair.create_paths
      then apply_prepared repairs results t
      else after_create repair results (λ results' t'. apply_prepared repairs results' t')
          (create_all repair.mode repair.create_paths t)

  -- Over `reversed(created_paths)`: the rootfs, and the paths that could not be removed.
  unfoldable pub rollback : List NodePath → Rootfs → Rootfs × List NodePath
  rollback [] fs = (fs, [])
  rollback (p ∷ ps) fs =
      let (fs', is_left) = remove_directory faults p fs in
      let (fs'', errors) = rollback ps fs' in (fs'', if is_left then p ∷ errors else errors)

abbrev pub any_in : List NodePath → List NodePath → Bool
any_in [] qs = false
any_in (p ∷ ps) qs = path_in p qs || any_in ps qs

unfoldable pub mark_rolled_back :
    List RepairDecisionResult → List NodePath → List RepairDecisionResult
mark_rolled_back [] created = []
mark_rolled_back (r ∷ rs) created =
    (if any_in r.created_paths created then record r { status = rolled_back } else r)
    ∷ mark_rolled_back rs created

pub data RepairApplicationState : Type 0 where
  dry_run completed failed : RepairApplicationState

pub record RepairApplicationReport : Type 0 where
  pub state : RepairApplicationState
  pub plan_sha256 : String
  pub requirements_sha256 : String
  pub results : List RepairDecisionResult
  pub rollback_errors : List NodePath
  pub error : Option RepairApplicationError

-- The inputs of `apply_file` after the files are read and the plan is loaded.
pub record Application : Type 0 where
  pub plan : RepairPlan
  pub plan_sha256 : String
  pub requirements_sha256 : String
  pub is_dry_run : Bool

-- What a call leaves: the rootfs, the reports saved in order, and what it returns or raises.
pub record Applied : Type 0 where
  pub rootfs : Rootfs
  pub saved : List RepairApplicationReport
  pub outcome : Result RepairApplicationError RepairApplicationReport

-- `save_fails` says of which reports the saving raises; the report is taken to be written outside
-- the rootfs, and a failed saving to leave no report.
module _ (faults : Faults) (save_fails : RepairApplicationState → Bool) where
  abbrev pub report_of :
      Application
      → RepairApplicationState
      → List RepairDecisionResult
      → List NodePath
      → Option RepairApplicationError
      → RepairApplicationReport
  report_of a state results rollback_errors error = record {
    state = state;
    plan_sha256 = a.plan_sha256;
    requirements_sha256 = a.requirements_sha256;
    results = results;
    rollback_errors = rollback_errors;
    error = error;
  }

  -- The `except` branch: the error goes on, unless saving the report raises another.
  unfoldable pub fail :
      Application → List RepairDecisionResult → RepairApplicationError → Transaction → Applied
  fail a results e t =
      let (fs, errors) = rollback faults t.created t.rootfs in
      let report = report_of a failed (mark_rolled_back results t.created) errors (some e) in
      if save_fails failed
      then record { rootfs = fs; saved = []; outcome = err cannot_save }
      else record { rootfs = fs; saved = report ∷ []; outcome = err e }

  -- Saves a report and returns it, or handles the error of saving.
  abbrev pub finish :
      Application
      → RepairApplicationState
      → List RepairDecisionResult
      → List RepairDecisionResult
      → Transaction
      → Applied
  finish a state preflight_results results t =
      let report = report_of a state results [] none in
      if save_fails state
      then fail a preflight_results cannot_save t
      else record { rootfs = t.rootfs; saved = report ∷ []; outcome = ok report }

  -- `results` names the new list only once `_apply_prepared` has returned.
  abbrev pub finish_apply :
      Application
      → List RepairDecisionResult
      → Result RepairApplicationError (List RepairDecisionResult) × Transaction
      → Applied
  finish_apply a preflight_results (ok results, t) = finish a completed results results t
  finish_apply a preflight_results (err e, t) = fail a preflight_results e t

  abbrev pub after_preflight :
      Application
      → Rootfs
      → Result RepairApplicationError (List PreparedDirectoryRepair × List RepairDecisionResult)
      → Applied
  after_preflight a fs (err e) = fail a [] e (record { rootfs = fs; created = [] })
  after_preflight a fs (ok (prepared, results)) =
      let start : Transaction = record { rootfs = fs; created = [] } in
      if a.is_dry_run
      then finish a dry_run results results start
      else finish_apply a results (apply_prepared faults prepared results start)

  unfoldable pub apply_file : Application → Rootfs → Applied
  apply_file a fs =
      if a.requirements_sha256 == a.plan.source_sha256
      then after_preflight a fs (preflight faults fs a.plan.decisions [])
      else record { rootfs = fs; saved = []; outcome = err digest_mismatch }
