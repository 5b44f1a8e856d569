-- ===== src/Repair/Planner.antt =====
-- taintforge_env/repair_planner.py. The digest behind a decision's id and `urllib`'s `urlsplit` are
-- parameters. The explanatory text of a decision is left out.
pub mod Automatic
pub mod Order
use taint_forge_io_t.Guest.Paths.{as_posix, components, has_parent_part, is_below, is_slash}
use taint_forge_io_t.Prelude.{
  Bool, Json, List, Option, Result, String, [], any, boolean, codes, eqb, false, has_code,
  if◌then◌else◌, integer, leb, ltb, none, not, ok, pos, refuse, rstrip, some, sort, string, text_eq,
  text_starts_with, texts_le, traverse, true, ℕ, ◌&&◌, ◌++◌, ◌==◌, ◌>>=◌, ◌>>◌, ◌||◌, ◌∷◌,
}
use taint_forge_io_t.Repair.Plan.{
  BlockingAssessment, RepairActionKind, RepairDecision, RepairDisposition, RepairPlan,
  RepairPriority, RepairRisk, RequirementKind, RequirementStatus, RuntimeRequirement,
  adjust_path_access, auto_candidate, configure_tcp_service, configure_udp_service,
  create_directory, critical, device, dict_get, execution, filesystem, high, is_auto_candidate,
  library, likely, make_path_writable, manual_analysis, medium, network, no_action, normal,
  not_required, possible, provide_device_backend, provide_executable, provide_file,
  provide_interpreter, provided, repair_path_layout, resolve_library, review_required,
  syscall_support, unlikely, unmet,
}

pub data RepairPlanningError : Type 0 where
  automatic_without_auto_candidate : RepairPlanningError

-- What `urlsplit` gives: `none` where it raises, and for the port `none` where reading it raises.
pub record SplitUrl : Type 0 where
  pub scheme : String
  pub hostname : Option String
  pub port : Option (Option ℕ)
  pub path : String
  pub query : String
  pub fragment : String

abbrev pub priority_from_blocking : BlockingAssessment → RepairPriority
priority_from_blocking likely = critical
priority_from_blocking possible = high
priority_from_blocking BlockingAssessment.unknown = normal
priority_from_blocking unlikely = RepairPriority.low

abbrev pub priority_order : RepairPriority → ℕ
priority_order critical = 0
priority_order RepairPriority.high = 1
priority_order normal = 2
priority_order RepairPriority.low = 3

-- `_validate_guest_path(path) is None`
unfoldable pub is_guest_path : String → Bool
is_guest_path resource =
    let path = codes resource in
    not (has_code 0 path)
    && text_starts_with path (codes "/")
    && not (has_parent_part (components path))
    && (text_eq (as_posix path) (rstrip is_slash path) || text_eq path (codes "/"))

unfoldable pub is_pseudo_filesystem_path : String → Bool
is_pseudo_filesystem_path resource =
    any (is_below (codes resource)) (codes "/proc" ∷ codes "/sys" ∷ codes "/dev" ∷ [])

-- `details.get("semantic_satisfaction") != "confirmed"`
abbrev pub is_confirmed : Option String → Bool
is_confirmed none = false
is_confirmed (some s) = s == "confirmed"

abbrev pub needs_review : RequirementKind → List (String × String) → Bool
needs_review network details = not (is_confirmed (dict_get "semantic_satisfaction" details))
needs_review _ details = false

abbrev pub needs_semantic_network_review : RuntimeRequirement → Bool
needs_semantic_network_review r = needs_review r.kind r.details

abbrev pub is_provided : RequirementStatus → Bool
is_provided provided = true
is_provided _ = false

abbrev pub is_unmet : RequirementStatus → Bool
is_unmet unmet = true
is_unmet _ = false

-- The parsed endpoint: transport, host and port.
abbrev pub Endpoint : Type 0
Endpoint = String × String × ℕ

abbrev pub endpoint_of : SplitUrl → Option String → Option (Option ℕ) → Option Endpoint
endpoint_of url (some host) (some (some port)) =
    if host == ""
    then none
    else if not (url.path == "" || url.path == "/")
        || not (url.query == "")
        || not (url.fragment == "")
    then none
    else if leb 1 port && leb port 65535
    then some (url.scheme, host, port)
    else none
endpoint_of url _ _ = none

abbrev pub split_endpoint : Option SplitUrl → Option Endpoint
split_endpoint none = none
split_endpoint (some url) =
    if url.scheme == "tcp" || url.scheme == "udp"
    then endpoint_of url url.hostname url.port
    else none

abbrev pub parameter : String → Option String → List (String × Json)
parameter key none = []
parameter key (some v) = (key, string v) ∷ []

-- `tuple(sorted(parameters.items()))`
abbrev pub sorted_items : List (String × Json) → List (String × Json)
sorted_items items = sort (λ p q. texts_le (p.0 ∷ []) (q.0 ∷ [])) items

abbrev pub directory_parameters : List (String × Json)
directory_parameters = ("mode", string "0755") ∷ ("parents", boolean true) ∷ []

abbrev pub kind_value : RequirementKind → String
kind_value filesystem = "filesystem"
kind_value device = "device"
kind_value network = "network"
kind_value library = "library"
kind_value syscall_support = "syscall"
kind_value execution = "execution"

abbrev pub decision_key : RepairDecision → List String
decision_key d = kind_value d.requirement_kind ∷ d.resource ∷ d.operation ∷ d.decision_id ∷ []

module _ (make_decision_id : String → RepairActionKind → RepairDisposition → String → String)
    (urlsplit : String → Option SplitUrl) (minimum_auto_confidence : ℕ) where
  -- `_decision`
  abbrev pub decision :
      RuntimeRequirement
      → RepairActionKind
      → RepairDisposition
      → RepairPriority
      → RepairRisk
      → Bool
      → List (String × Json)
      → Result RepairPlanningError RepairDecision
  decision r action disposition priority risk automatic_allowed parameters = do
    refuse (automatic_allowed && not (is_auto_candidate disposition))
        automatic_without_auto_candidate
    ok (record {
      decision_id = make_decision_id r.requirement_id action disposition r.resource;
      requirement_id = r.requirement_id;
      requirement_kind = r.kind;
      resource = r.resource;
      operation = r.operation;
      action = action;
      disposition = disposition;
      priority = priority;
      risk = risk;
      automatic_allowed = automatic_allowed;
      parameters = sorted_items parameters;
    })

  abbrev pub manual :
      RuntimeRequirement → RepairPriority → Result RepairPlanningError RepairDecision
  manual r priority = decision r no_action manual_analysis priority RepairRisk.high false []

  -- The `directory_exists` branch of `_plan_filesystem`.
  unfoldable pub plan_directory :
      RuntimeRequirement → RepairPriority → Result RepairPlanningError RepairDecision
  plan_directory r priority =
      let automatic = is_unmet r.status && leb minimum_auto_confidence r.confidence in
      if r.resource == "/" || is_pseudo_filesystem_path r.resource
      then decision r create_directory manual_analysis priority RepairRisk.high false
          directory_parameters
      else decision r create_directory (if automatic then auto_candidate else review_required)
          priority RepairRisk.low automatic directory_parameters

  unfoldable pub plan_filesystem :
      RuntimeRequirement → RepairPriority → Result RepairPlanningError RepairDecision
  unfolding plan_directory
  plan_filesystem r priority =
      if not (is_guest_path r.resource)
      then manual r priority
      else if r.operation == "directory_exists"
      then plan_directory r priority
      else if r.operation == "path_exists"
      then decision r provide_file review_required priority medium false
          (("content_strategy", string "derive_or_supply") ∷ ("create_empty", boolean false) ∷ [])
      else if r.operation == "path_access"
      then decision r adjust_path_access review_required priority RepairRisk.high false
          (("preserve_entry_type", boolean true) ∷ [])
      else if r.operation == "path_writable"
      then decision r make_path_writable review_required priority medium false
          (("strategy", string "overlay_or_permissions") ∷ [])
      else if r.operation == "valid_path_layout"
      then decision r repair_path_layout manual_analysis priority RepairRisk.high false []
      else manual r priority

  abbrev pub plan_endpoint :
      RuntimeRequirement
      → RepairPriority
      → Option Endpoint
      → Result RepairPlanningError RepairDecision
  plan_endpoint r priority none = manual r priority
  plan_endpoint r priority (some (transport, host, port)) =
      decision r (if transport == "tcp" then configure_tcp_service else configure_udp_service)
        review_required priority medium false
        (("transport", string transport)
          ∷ ("remote_ip", string host)
          ∷ ("remote_port", integer (pos port))
          ∷ ("response_strategy", string "recorded_or_protocol_specific")
          ∷ (parameter "role" (dict_get "role" r.details)
              ++ parameter "listener_type" (dict_get "listener_type" r.details)))

  unfoldable pub plan_network :
      RuntimeRequirement → RepairPriority → Result RepairPlanningError RepairDecision
  plan_network r priority = plan_endpoint r priority (split_endpoint (urlsplit r.resource))

  unfoldable pub plan_library :
      RuntimeRequirement → RepairPriority → Result RepairPlanningError RepairDecision
  plan_library r priority =
      decision r
        (if r.operation == "interpreter_available" then provide_interpreter else resolve_library)
        review_required priority medium false
        (("source", string "verified_sysroot_or_bundle")
          ∷ ("exact_architecture_required", boolean true)
          ∷ ("dependency_closure_required", boolean true)
          ∷ [])

  unfoldable pub plan_execution :
      RuntimeRequirement → RepairPriority → Result RepairPlanningError RepairDecision
  plan_execution r priority =
      if r.operation == "executable_available"
      then decision r provide_executable review_required priority RepairRisk.high false
          (("source", string "verified_artifact") ∷ [])
      else manual r priority

  -- The dispatch on the kind, behind the first two tests of `_plan_requirement`.
  unfoldable pub plan_kind :
      RequirementKind
      → RuntimeRequirement
      → RepairPriority
      → Result RepairPlanningError RepairDecision
  unfolding plan_filesystem plan_network plan_library plan_execution
  plan_kind filesystem r priority = plan_filesystem r priority
  plan_kind device r priority =
      decision r provide_device_backend manual_analysis priority RepairRisk.high false
        (("backend_semantics_required", boolean true) ∷ [])
  plan_kind network r priority = plan_network r priority
  plan_kind library r priority = plan_library r priority
  plan_kind execution r priority = plan_execution r priority
  plan_kind syscall_support r priority = manual r priority

  unfoldable pub plan_requirement : RuntimeRequirement → Result RepairPlanningError RepairDecision
  unfolding plan_kind
  plan_requirement r =
      let priority = priority_from_blocking r.blocking in
      if is_provided r.status && not (needs_semantic_network_review r)
      then decision r no_action not_required RepairPriority.low RepairRisk.low false []
      else if not r.repairable
      then manual r priority
      else plan_kind r.kind r priority

  abbrev pub decision_le : RepairDecision → RepairDecision → Bool
  decision_le a b =
      if ltb (priority_order a.priority) (priority_order b.priority)
      then true
      else eqb (priority_order a.priority) (priority_order b.priority)
        && texts_le (decision_key a) (decision_key b)

  -- `plan`; the report is its requirements and warnings.
  unfoldable pub plan :
      List RuntimeRequirement
      → List String
      → String
      → String
      → Result RepairPlanningError RepairPlan
  unfolding plan_requirement
  plan requirements warnings source_requirements source_sha256 = do
    decisions ← traverse plan_requirement requirements
    ok (record {
      source_requirements = source_requirements;
      source_sha256 = source_sha256;
      decisions = sort decision_le decisions;
      warnings = warnings;
    })
