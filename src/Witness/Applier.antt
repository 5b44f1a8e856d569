-- ===== src/Witness/Applier.antt =====
-- The repair applier on a rootfs with one directory, and a plan that creates /var/run.
use taint_forge_io_t.Guest.Paths.{as_posix, components, is_below}
use taint_forge_io_t.Prelude.{
  Bool, Result, [], arith, boolean, codes, err, false, none, ok, refl, rstrip, string, true, ◌∷◌,
  ◌≡◌,
}
use taint_forge_io_t.Repair.Applier.Apply.{
  Application, Applied, RepairApplicationReport, RepairApplicationState, apply_file, apply_prepared,
  create_all, fail, failed, rollback,
}
use taint_forge_io_t.Repair.Applier.Asked.{IsAsked, apply_file_touches}
use taint_forge_io_t.Repair.Applier.Guard.{
  RepairApplicationError, cannot_create, parse_mode, validate_guest_path,
}
use taint_forge_io_t.Repair.Applier.Preflight.{
  inspect, paths_to_create, preflight, prepare_directory, select, select_automatic,
}
use taint_forge_io_t.Repair.Applier.Rollback.{Restored, apply_file_atomic, dry_run_unchanged}
use taint_forge_io_t.Repair.Applier.Rootfs.{
  Faults, NodePath, Rootfs, directory_node, find_node, is_directory_node, lstat, make_directory,
  path_eq, remove_directory,
}
use taint_forge_io_t.Repair.Applier.Success.{apply_file_targets}
use taint_forge_io_t.Repair.Applier.Touched.{IsTouched}
use taint_forge_io_t.Repair.Applier.Tree.{IsTree}
use taint_forge_io_t.Repair.Plan.{
  RepairDecision, RepairRisk, auto_candidate, create_directory, filesystem, high,
}

abbrev create_var_run : RepairDecision
create_var_run = record {
  decision_id = "decision";
  requirement_id = "requirement";
  requirement_kind = filesystem;
  resource = "/var/run";
  operation = "directory_exists";
  action = create_directory;
  disposition = auto_candidate;
  priority = high;
  risk = RepairRisk.low;
  automatic_allowed = true;
  parameters = ("mode", string "0755") ∷ ("parents", boolean true) ∷ [];
}

abbrev application : Bool → Application
application is_dry_run = record {
  plan = record {
    source_requirements = "requirements.json";
    source_sha256 = "digest";
    decisions = create_var_run ∷ [];
    warnings = [];
  };
  plan_sha256 = "plan";
  requirements_sha256 = "digest";
  is_dry_run = is_dry_run;
}

abbrev etc : NodePath
etc = codes "etc" ∷ []

abbrev var_run : NodePath
var_run = codes "run" ∷ codes "var" ∷ []

abbrev small_rootfs : Rootfs
small_rootfs = (etc, directory_node 0o755) ∷ []

-- Every call succeeds, and then `mkdir` of /var/run fails.
abbrev no_faults : Faults
no_faults = record {
  lstat_fails = λ p. false;
  mkdir_fails = λ p. false;
  chmod_fails = λ p. false;
  rmdir_fails = λ p. false;
}

abbrev mkdir_fault : Faults
mkdir_fault = record no_faults { mkdir_fails = path_eq var_run }

abbrev save_works : RepairApplicationState → Bool
save_works s = false

small_rootfs-IsTree : IsTree small_rootfs
unfolding find_node lstat
small_rootfs-IsTree c [] h = refl
small_rootfs-IsTree c (d ∷ p) h = ground arith

apply_file_atomic_example :
    Restored mkdir_fault save_works small_rootfs
      (apply_file mkdir_fault save_works (application false) small_rootfs)
unfolding apply_file preflight select select_automatic prepare_directory paths_to_create inspect
    validate_guest_path parse_mode apply_prepared create_all make_directory rollback
    remove_directory find_node lstat fail components as_posix rstrip is_below
apply_file_atomic_example =
    apply_file_atomic mkdir_fault save_works (application false) small_rootfs cannot_create
      (λ q. refl) (λ q. refl) small_rootfs-IsTree refl

dry_run_unchanged_example :
    Restored mkdir_fault save_works small_rootfs
      (apply_file mkdir_fault save_works (application true) small_rootfs)
dry_run_unchanged_example =
    dry_run_unchanged mkdir_fault save_works (application true) small_rootfs small_rootfs-IsTree
      refl

-- The report of a run that returns.
abbrev blank_report : RepairApplicationReport
blank_report = record {
  state = failed;
  plan_sha256 = "";
  requirements_sha256 = "";
  results = [];
  rollback_errors = [];
  error = none;
}

abbrev report_from : Result RepairApplicationError RepairApplicationReport → RepairApplicationReport
report_from (ok r) = r
report_from (err e) = blank_report

abbrev full_run : Applied
full_run = apply_file no_faults save_works (application false) small_rootfs

apply_file_targets_example : is_directory_node (lstat var_run full_run.rootfs) ≡ true
unfolding apply_file preflight select select_automatic prepare_directory paths_to_create inspect
    validate_guest_path parse_mode apply_prepared create_all make_directory rollback
    remove_directory find_node lstat fail components as_posix rstrip is_below
apply_file_targets_example =
    apply_file_targets no_faults save_works (application false) small_rootfs
      (report_from full_run.outcome) 0 create_var_run refl refl refl refl

apply_file_touches_example :
    IsTouched (IsAsked no_faults (create_var_run ∷ [])) small_rootfs full_run.rootfs var_run
unfolding apply_file preflight select select_automatic prepare_directory paths_to_create inspect
    validate_guest_path parse_mode apply_prepared create_all make_directory rollback
    remove_directory find_node lstat fail components as_posix rstrip is_below
apply_file_touches_example =
    apply_file_touches no_faults save_works (application false) small_rootfs
      (report_from full_run.outcome) var_run refl
