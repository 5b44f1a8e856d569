-- ===== src/Repair/Applier/Preflight.antt =====
-- `_preflight` and `_prepare_directory`: the checks before the first change, with the default
-- configuration, which enables the creation of directories alone.
use taint_forge_io_t.Guest.Paths.{components}
use taint_forge_io_t.Prelude.{
  Bool, List, Option, Result, String, Text, [], codes, err, false, if◌then◌else◌, none, not, ok,
  require, some, true, ℕ, ◌++◌, ◌>>=◌, ◌>>◌, ◌||◌, ◌∷◌,
}
use taint_forge_io_t.Repair.Applier.Guard.{
  RepairApplicationError, action_not_enabled, cannot_inspect, crosses_symlink, is_true_parameter,
  not_auto_candidate, not_directory, parents_not_true, parse_mode, validate_guest_path,
}
use taint_forge_io_t.Repair.Applier.Rootfs.{
  Faults, Node, NodePath, Rootfs, directory_node, lstat, path_eq, regular_node, symlink_node,
}
use taint_forge_io_t.Repair.Plan.{
  RepairActionKind, RepairDecision, create_directory, dict_get, is_auto_candidate,
}

pub data RepairResultStatus : Type 0 where
  not_selected planned applied already_satisfied rolled_back : RepairResultStatus

pub record RepairDecisionResult : Type 0 where
  pub decision_id : String
  pub requirement_id : String
  pub action : RepairActionKind
  pub resource : String
  pub status : RepairResultStatus
  pub target_path : Option NodePath
  pub created_paths : List NodePath

pub record PreparedDirectoryRepair : Type 0 where
  pub decision : RepairDecision
  pub guest_path : Text
  pub target_path : NodePath
  pub mode : ℕ
  pub create_paths : List NodePath

abbrev pub path_in : NodePath → List NodePath → Bool
path_in p [] = false
path_in p (q ∷ qs) = path_eq p q || path_in p qs

-- `already_satisfied`: the loop clears it exactly where it adds a path to create.
abbrev pub is_satisfied : List NodePath → Bool
is_satisfied [] = true
is_satisfied (p ∷ ps) = false

abbrev pub is_create_directory : RepairActionKind → Bool
is_create_directory create_directory = true
is_create_directory _ = false

abbrev pub inspect_node : Option Node → Result RepairApplicationError Bool
inspect_node none = ok true
inspect_node (some symlink_node) = err crosses_symlink
inspect_node (some regular_node) = err not_directory
inspect_node (some (directory_node m)) = ok false

-- `rootfs.joinpath(*components)`
abbrev pub join_path : NodePath → List Text → NodePath
join_path p [] = p
join_path p (c ∷ cs) = join_path (c ∷ p) cs

abbrev pub created_of : Option PreparedDirectoryRepair → List NodePath
created_of none = []
created_of (some repair) = repair.create_paths

abbrev pub prepared_of :
    Option PreparedDirectoryRepair → List PreparedDirectoryRepair → List PreparedDirectoryRepair
prepared_of none rest = rest
prepared_of (some repair) rest = repair ∷ rest

abbrev pub result_of : RepairDecision → Option PreparedDirectoryRepair → RepairDecisionResult
result_of d none = record {
  decision_id = d.decision_id;
  requirement_id = d.requirement_id;
  action = d.action;
  resource = d.resource;
  status = not_selected;
  target_path = none;
  created_paths = [];
}
result_of d (some repair) = record {
  decision_id = d.decision_id;
  requirement_id = d.requirement_id;
  action = d.action;
  resource = d.resource;
  status = if is_satisfied repair.create_paths then already_satisfied else planned;
  target_path = some repair.target_path;
  created_paths = repair.create_paths;
}

module _ (faults : Faults) (fs : Rootfs) where
  -- Whether a component must be created, or the reason why it cannot be.
  unfoldable pub inspect : List NodePath → NodePath → Result RepairApplicationError Bool
  inspect virtually_created p =
      if path_in p virtually_created
      then ok false
      else if faults.lstat_fails p
      then err cannot_inspect
      else inspect_node (lstat p fs)

  -- The loop over the components: the paths to create, outermost first.
  unfoldable pub paths_to_create :
      List NodePath → NodePath → List Text → Result RepairApplicationError (List NodePath)
  unfolding inspect
  paths_to_create virtually_created current [] = ok []
  paths_to_create virtually_created current (c ∷ cs) = do
    is_missing ← inspect virtually_created (c ∷ current)
    rest ← paths_to_create virtually_created (c ∷ current) cs
    ok (if is_missing then (c ∷ current) ∷ rest else rest)

  unfoldable pub prepare_directory :
      RepairDecision → List NodePath → Result RepairApplicationError PreparedDirectoryRepair
  unfolding paths_to_create
  prepare_directory d virtually_created = do
    guest_path ← validate_guest_path (codes d.resource)
    require (is_true_parameter (dict_get "parents" d.parameters)) parents_not_true
    mode ← parse_mode (dict_get "mode" d.parameters)
    create_paths ← paths_to_create virtually_created [] (components guest_path)
    ok (record {
      decision = d;
      guest_path = guest_path;
      target_path = join_path [] (components guest_path);
      mode = mode;
      create_paths = create_paths;
    })

  unfoldable pub select_automatic :
      RepairDecision
      → List NodePath
      → Result RepairApplicationError (Option PreparedDirectoryRepair)
  unfolding prepare_directory
  select_automatic d virtually_created = do
    require (is_auto_candidate d.disposition) not_auto_candidate
    require (is_create_directory d.action) action_not_enabled
    repair ← prepare_directory d virtually_created
    ok (some repair)

  -- One decision: nothing is prepared unless it is automatic.
  unfoldable pub select :
      RepairDecision
      → List NodePath
      → Result RepairApplicationError (Option PreparedDirectoryRepair)
  unfolding select_automatic
  select d virtually_created =
      if not d.automatic_allowed then ok none else select_automatic d virtually_created

  unfoldable pub preflight :
      List RepairDecision
      → List NodePath
      → Result RepairApplicationError (List PreparedDirectoryRepair × List RepairDecisionResult)
  unfolding select
  preflight [] virtually_created = ok ([], [])
  preflight (d ∷ ds) virtually_created = do
    repair ← select d virtually_created
    rest ← preflight ds (created_of repair ++ virtually_created)
    ok (prepared_of repair rest.0, result_of d repair ∷ rest.1)
