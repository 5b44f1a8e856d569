-- ===== src/Witness/Extractions.antt =====
-- A guest that cannot make a directory, since the one above it is missing.
use mathlib.Core.List.Perm.{swap}
use taint_forge_io_t.Extraction.Directories.{
  extract_syscall_requirements-directory, is_filesystem, is_unmet_status,
}
use taint_forge_io_t.Extraction.Merged.{add_requirements-Perm, add_requirements-greatest, verdict}
use taint_forge_io_t.Extraction.Syscalls.{extract_syscall_requirements, is_errno}
use taint_forge_io_t.Extraction.Table.{
  Addition, ExtractionConfig, MutableRequirement, RequirementEvidence, RequirementKey,
  add_requirements, find_requirement,
}
use taint_forge_io_t.Prelude.{
  Fields, Json, List, Option, Text, [], codes, end_fields, field, none, refl, some, string, true, ℤ,
  ◌∷◌, ◌≡◌,
}
use taint_forge_io_t.Repair.Plan.{
  BlockingAssessment, RequirementStatus, filesystem, likely, one_bits, possible, provided, unmet,
}

abbrev render : Json → Text
render (string s) = codes s
render _ = []

abbrev no_int : Json → Option ℤ
no_int v = none

abbrev no_flags : Text → List Text
no_flags s = []

abbrev as_they_are : List Text → List Text
as_they_are ts = ts

abbrev no_digits : ℤ → Text
no_digits z = []

abbrev config : ExtractionConfig
config = record {
  guest_only = true;
  terminal_failure_window = 6;
  maximum_evidence_per_requirement = 8;
}

abbrev mkdir_event : Fields
mkdir_event = field "execution_context" (string "guest") (
    field "event" (string "syscall") (
      field "syscall" (string "mkdir")
        (field "errno" (string "ENOENT") (field "path" (string "/var/run/x") end_fields))))

abbrev signal_event : Fields
signal_event =
    field "execution_context" (string "guest")
      (field "event" (string "signal") (field "result" (string "SIGSEGV") end_fields))

abbrev evidence : RequirementEvidence
evidence = record {
  source = codes "syscall";
  summary = codes "mkdir failed with ENOENT";
  raw = none;
  event_index = 0;
}

abbrev missing_run : MutableRequirement
missing_run = record {
  kind = filesystem;
  resource = codes "/var/run";
  operation = codes "directory_exists";
  status = unmet;
  blocking = likely;
  confidence = one_bits;
  repairable = true;
  errno = some (codes "ENOENT");
  evidence = evidence ∷ [];
  details = (codes "trigger_path", codes "/var/run/x") ∷ (codes "syscall", codes "mkdir") ∷ [];
}

abbrev run_key : RequirementKey
run_key = (filesystem, codes "directory_exists", codes "/var/run")

extract_syscall_requirements-directory_example :
    (is_filesystem filesystem ≡ true)
    × (is_unmet_status unmet ≡ true)
    × (is_errno (some (codes "ENOENT")) "ENOENT" ≡ true)
    × (true ≡ true)
unfolding extract_syscall_requirements add_requirements
extract_syscall_requirements-directory_example =
    extract_syscall_requirements-directory render no_int no_flags as_they_are no_digits config
      (mkdir_event ∷ signal_event ∷ []) run_key missing_run refl refl

abbrev addition_of : RequirementStatus → BlockingAssessment → Addition
addition_of status blocking = record {
  kind = filesystem;
  resource = codes "/tmp/x";
  operation = codes "path_writable";
  status = status;
  blocking = blocking;
  confidence = one_bits;
  repairable = true;
  errno = none;
  evidence = evidence;
  details = [];
}

abbrev first_addition : Addition
first_addition = addition_of provided likely

abbrev second_addition : Addition
second_addition = addition_of unmet possible

abbrev writable_key : RequirementKey
writable_key = (filesystem, codes "path_writable", codes "/tmp/x")

add_requirements-greatest_example :
    verdict (
      find_requirement writable_key
        (add_requirements config (first_addition ∷ second_addition ∷ []) []))
    ≡ some (record { status = 2; blocking = 3; confidence = one_bits; repairable = true })
add_requirements-greatest_example =
    add_requirements-greatest config writable_key (first_addition ∷ second_addition ∷ [])

add_requirements-Perm_example :
    verdict (
      find_requirement writable_key
        (add_requirements config (first_addition ∷ second_addition ∷ []) []))
    ≡ verdict (
        find_requirement writable_key
          (add_requirements config (second_addition ∷ first_addition ∷ []) []))
add_requirements-Perm_example =
    add_requirements-Perm config writable_key (first_addition ∷ second_addition ∷ [])
      (second_addition ∷ first_addition ∷ []) (swap second_addition first_addition [])
