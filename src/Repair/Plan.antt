-- ===== src/Repair/Plan.antt =====
-- The records of requirements.py and repair_plan.py. A confidence is a double between 0.0 and 1.0,
-- given by its bit pattern: these doubles are ordered as their patterns are.
use taint_forge_io_t.Prelude.{
  Bool, Json, List, Option, String, [], false, if◌then◌else◌, none, some, true, ℕ, ◌==◌, ◌∷◌,
}

pub data RequirementKind : Type 0 where
  filesystem device network library syscall_support execution : RequirementKind

pub data RequirementStatus : Type 0 where
  unmet provided unknown : RequirementStatus

pub data BlockingAssessment : Type 0 where
  likely possible unlikely unknown : BlockingAssessment

pub record RuntimeRequirement : Type 0 where
  pub requirement_id : String
  pub kind : RequirementKind
  pub resource : String
  pub operation : String
  pub status : RequirementStatus
  pub blocking : BlockingAssessment
  pub confidence : ℕ
  pub repairable : Bool
  pub errno : Option String
  pub details : List (String × String)

pub data RepairDisposition : Type 0 where
  auto_candidate review_required manual_analysis not_required : RepairDisposition

pub data RepairPriority : Type 0 where
  critical high normal low : RepairPriority

pub data RepairRisk : Type 0 where
  low medium high : RepairRisk

pub data RepairActionKind : Type 0 where
  no_action create_directory provide_file adjust_path_access make_path_writable : RepairActionKind
  repair_path_layout provide_device_backend configure_tcp_service : RepairActionKind
  configure_udp_service resolve_library provide_interpreter provide_executable : RepairActionKind

pub record RepairDecision : Type 0 where
  pub decision_id : String
  pub requirement_id : String
  pub requirement_kind : RequirementKind
  pub resource : String
  pub operation : String
  pub action : RepairActionKind
  pub disposition : RepairDisposition
  pub priority : RepairPriority
  pub risk : RepairRisk
  pub automatic_allowed : Bool
  pub parameters : List (String × Json)

pub record RepairPlan : Type 0 where
  pub source_requirements : String
  pub source_sha256 : String
  pub decisions : List RepairDecision
  pub warnings : List String

abbrev pub is_auto_candidate : RepairDisposition → Bool
is_auto_candidate auto_candidate = true
is_auto_candidate _ = false

-- `dict(pairs).get(key)`: the last pair of a key counts.
abbrev pub dict_get {ℓ} : {V : Type ℓ} → String → List (String × V) → Option V
dict_get k [] = none
dict_get k ((j, v) ∷ m) = elim (dict_get k m) [
  | some w ↦ some w
  | none ↦ if j == k then some v else none
]

-- The doubles 1.0 and 0.95.
abbrev pub one_bits : ℕ
one_bits = 0x3FF0000000000000

abbrev pub default_minimum_auto_confidence : ℕ
default_minimum_auto_confidence = 0x3FEE666666666666
