-- ===== src/Extraction/Table.antt =====
-- `_MutableRequirement` and `_add`: requirements are merged by kind, operation and resource.
use taint_forge_io_t.Prelude.{
  Bool, List, Option, Text, [], any, eqb, false, if◌then◌else◌, leb, length, ltb, max, none, not,
  some, text_eq, true, ℕ, ◌&&◌, ◌++◌, ◌||◌, ◌∷◌,
}
use taint_forge_io_t.Repair.Plan.{
  BlockingAssessment, RequirementKind, RequirementStatus, device, execution, filesystem, library,
  likely, network, possible, provided, syscall_support, unlikely, unmet,
}

pub record RequirementEvidence : Type 0 where
  pub source : Text
  pub summary : Text
  pub raw : Option Text
  pub event_index : ℕ

pub record ExtractionConfig : Type 0 where
  pub guest_only : Bool
  pub terminal_failure_window : ℕ
  pub maximum_evidence_per_requirement : ℕ

-- The arguments of `_add`. A confidence is a double between 0.0 and 1.0, by its bit pattern, so that
-- `_bounded_confidence` gives it back.
pub record Addition : Type 0 where
  pub kind : RequirementKind
  pub resource : Text
  pub operation : Text
  pub status : RequirementStatus
  pub blocking : BlockingAssessment
  pub confidence : ℕ
  pub repairable : Bool
  pub errno : Option Text
  pub evidence : RequirementEvidence
  pub details : List (Text × Text)

pub record MutableRequirement : Type 0 where
  pub kind : RequirementKind
  pub resource : Text
  pub operation : Text
  pub status : RequirementStatus
  pub blocking : BlockingAssessment
  pub confidence : ℕ
  pub repairable : Bool
  pub errno : Option Text
  pub evidence : List RequirementEvidence
  pub details : List (Text × Text)

abbrev pub RequirementKey : Type 0
RequirementKey = RequirementKind × Text × Text

abbrev pub kind_rank : RequirementKind → ℕ
kind_rank filesystem = 0
kind_rank device = 1
kind_rank network = 2
kind_rank library = 3
kind_rank syscall_support = 4
kind_rank execution = 5

abbrev pub key_eq : RequirementKey → RequirementKey → Bool
key_eq k j = eqb (kind_rank k.0) (kind_rank j.0) && text_eq k.1 j.1 && text_eq k.2 j.2

abbrev pub key_of : Addition → RequirementKey
key_of a = (a.kind, a.operation, a.resource)

abbrev pub status_precedence : RequirementStatus → ℕ
status_precedence RequirementStatus.unknown = 0
status_precedence provided = 1
status_precedence unmet = 2

abbrev pub blocking_precedence : BlockingAssessment → ℕ
blocking_precedence unlikely = 0
blocking_precedence BlockingAssessment.unknown = 1
blocking_precedence possible = 2
blocking_precedence likely = 3

abbrev pub merge_status : RequirementStatus → RequirementStatus → RequirementStatus
merge_status current incoming =
    if leb (status_precedence incoming) (status_precedence current) then current else incoming

abbrev pub merge_blocking : BlockingAssessment → BlockingAssessment → BlockingAssessment
merge_blocking current incoming =
    if leb (blocking_precedence incoming) (blocking_precedence current) then current else incoming

abbrev optional_text_eq : Option Text → Option Text → Bool
optional_text_eq none none = true
optional_text_eq (some s) (some t) = text_eq s t
optional_text_eq _ _ = false

abbrev evidence_eq : RequirementEvidence → RequirementEvidence → Bool
evidence_eq e f =
    text_eq e.source f.source
    && text_eq e.summary f.summary
    && optional_text_eq e.raw f.raw
    && eqb e.event_index f.event_index

abbrev pub or_else : Option Text → Option Text → Option Text
or_else none o = o
or_else (some s) o = some s

-- `details[key] = value`, at its place where the key is there.
abbrev put_detail : Text × Text → List (Text × Text) → List (Text × Text)
put_detail d [] = d ∷ []
put_detail d (c ∷ cs) =
    let rest = put_detail d cs in if text_eq c.0 d.0 then (c.0, d.1) ∷ cs else c ∷ rest

-- `details.update(incoming)`
abbrev update_details : List (Text × Text) → List (Text × Text) → List (Text × Text)
update_details details [] = details
update_details details (d ∷ ds) = update_details (put_detail d details) ds

abbrev add_evidence : ℕ → RequirementEvidence → List RequirementEvidence → List RequirementEvidence
add_evidence most e es =
    if not (any (evidence_eq e) es) && ltb (length es) most then es ++ e ∷ [] else es

abbrev pub first_seen : Addition → MutableRequirement
first_seen a = record {
  kind = a.kind;
  resource = a.resource;
  operation = a.operation;
  status = a.status;
  blocking = a.blocking;
  confidence = a.confidence;
  repairable = a.repairable;
  errno = a.errno;
  evidence = a.evidence ∷ [];
  details = a.details;
}

abbrev pub merged : ExtractionConfig → MutableRequirement → Addition → MutableRequirement
merged config existing a = record {
  kind = existing.kind;
  resource = existing.resource;
  operation = existing.operation;
  status = merge_status existing.status a.status;
  blocking = merge_blocking existing.blocking a.blocking;
  confidence = max existing.confidence a.confidence;
  repairable = existing.repairable || a.repairable;
  errno = or_else existing.errno a.errno;
  evidence = add_evidence config.maximum_evidence_per_requirement a.evidence existing.evidence;
  details = update_details existing.details a.details;
}

abbrev pub RequirementTable : Type 0
RequirementTable = List (RequirementKey × MutableRequirement)

abbrev pub find_requirement : RequirementKey → RequirementTable → Option MutableRequirement
find_requirement k [] = none
find_requirement k ((j, m) ∷ table) = if key_eq j k then some m else find_requirement k table

-- `_add`
unfoldable pub add_requirement : ExtractionConfig → Addition → RequirementTable → RequirementTable
add_requirement config a [] = (key_of a, first_seen a) ∷ []
add_requirement config a ((j, m) ∷ table) =
    let rest = add_requirement config a table in
    if key_eq j (key_of a) then (j, merged config m a) ∷ table else (j, m) ∷ rest

unfoldable pub add_requirements :
    ExtractionConfig → List Addition → RequirementTable → RequirementTable
unfolding add_requirement
add_requirements config [] table = table
add_requirements config (a ∷ as') table =
    add_requirements config as' (add_requirement config a table)
