-- ===== src/Target/Evidence.antt =====
-- The files of a run as the target-state oracle reads them, and the evidence that it shows. A file
-- is given by its path below the run directory, its text by what decoding its bytes gives.
use taint_forge_io_t.Prelude.{
  Bool, Fields, Json, List, Option, String, Text, [], codes, end_fields, false, field, get_field,
  if◌then◌else◌, length, none, object, option_then, some, suc, take, text_eq, text_starts_with,
  true, zero, ℕ, ◌*◌, ◌+◌, ◌-◌, ◌||◌, ◌∷◌,
}
use taint_forge_io_t.Target.Spec.{AggregationMode, RuleType}

pub data EvidenceFile : Type 0 where
  -- Nothing is there, or a link that leads nowhere.
  no_file : EvidenceFile
  -- The parent directory leads out of the run directory.
  escaping : EvidenceFile
  not_regular : EvidenceFile
  regular : ℕ → Text → EvidenceFile

abbrev pub RunFiles : Type 0
RunFiles = String → EvidenceFile

pub data Evidence : Type 0 where
  -- index, and the fields that are shown
  event_evidence : ℕ → Fields → Evidence
  -- start_index, end_index, length
  span_evidence : ℕ → ℕ → ℕ → Evidence
  -- line, text
  line_evidence : ℕ → Text → Evidence
  -- artifact, field, actual, expected, field_present
  field_evidence : String → String → Json → Json → Bool → Evidence

pub record RuleEvaluation : Type 0 where
  pub rule_id : String
  pub rule_type : RuleType
  pub is_matched : Bool
  pub observed_count : ℕ
  pub required_count : ℕ
  pub evidence : List Evidence

pub record TargetStateEvaluation : Type 0 where
  pub goal_id : String
  pub description : String
  pub is_reached : Bool
  -- The ids that the reason names: of the rules that matched, or of those that did not.
  pub reason_ids : List String
  pub mode : AggregationMode
  pub min_satisfied : ℕ
  pub matched_rules : ℕ
  pub total_rules : ℕ
  pub spec_sha256 : String
  pub rules : List RuleEvaluation

-- `key in raw`
abbrev pub has_field : String → Fields → Bool
has_field k fs = elim (get_field k fs) [ none ↦ false | some v ↦ true ]

abbrev pub add_fields : Fields → Fields → Fields
add_fields end_fields gs = gs
add_fields (field k v fs) gs = field k v (add_fields fs gs)

-- `_evidence_event`
abbrev pub shown_keys : List String
shown_keys =
    "event" ∷ "execution_context" ∷ "syscall" ∷ "success" ∷ "errno" ∷ "path" ∷ "remote_ip"
    ∷ "remote_port" ∷ "original_remote_ip" ∷ "original_remote_port" ∷ "address" ∷ "pc" ∷ "signal"
    ∷ []

abbrev pub shown_fields : List String → Fields → Fields
shown_fields [] event = end_fields
shown_fields (k ∷ ks) event =
    let rest = shown_fields ks event in
    elim (get_field k event) [ none ↦ rest | some v ↦ field k v rest ]

abbrev pub event_evidences : ℕ → List Fields → List Evidence
event_evidences i [] = []
event_evidences i (e ∷ es) =
    event_evidence i (shown_fields shown_keys e) ∷ event_evidences (suc i) es

abbrev pub span_evidence_of : ℕ × ℕ → Evidence
span_evidence_of span = span_evidence span.0 span.1 (span.1 - span.0 + 1)

-- `text.count(needle)`: occurrences that do not overlap. `skip` codes of the last one are left.
abbrev pub occurrences : Text → ℕ → Text → ℕ
occurrences needle skip [] = 0
occurrences needle (suc skip) (c ∷ s) = occurrences needle skip s
occurrences needle zero (c ∷ s) =
    let inside = occurrences needle (length needle - 1) s in
    let behind = occurrences needle zero s in
    if text_starts_with (c ∷ s) needle then suc inside else behind

-- `needle in line`, of a needle that is not empty
abbrev pub contains_text : Text → Text → Bool
contains_text needle [] = false
contains_text needle (c ∷ s) = text_starts_with (c ∷ s) needle || contains_text needle s

abbrev pub line_evidences : Text → ℕ → List Text → List Evidence
line_evidences needle n [] = []
line_evidences needle n (l ∷ ls) =
    let rest = line_evidences needle (suc n) ls in
    if contains_text needle l then line_evidence n (take 512 l) ∷ rest else rest

abbrev pub field_of : Text → Fields → Option Json
field_of part end_fields = none
field_of part (field k v fs) = if text_eq (codes k) part then some v else field_of part fs

-- `_lookup_field`: the value, where every part of the path is there.
abbrev pub lookup_field : List Text → Json → Option Json
lookup_field [] v = some v
lookup_field (part ∷ parts) (object fs) = option_then (field_of part fs) (lookup_field parts)
lookup_field (part ∷ parts) _ = none

-- The limits on the sizes of files.
abbrev pub max_text_bytes : ℕ
max_text_bytes = 8 * 1024 * 1024

abbrev pub max_evidence_bytes : ℕ
max_evidence_bytes = 64 * 1024 * 1024
