-- ===== src/Witness/Plans.antt =====
-- The planner on a missing directory and a refused connection, and the comparison of two
-- iterations.
use mathlib.Core.List.{Perm}
use taint_forge_io_t.Guest.Paths.{as_posix, components, is_below}
use taint_forge_io_t.Prelude.{
  IsSorted, List, Option, String, [], codes, false, map, none, ok, pos, refl, rstrip, some, sort,
  true, ℕ, ◌↔◌, ◌∷◌, ◌≡◌,
}
use taint_forge_io_t.Progress.Compare.{
  compare_observations, no_progress, nothing_changed, progress, regression,
}
use taint_forge_io_t.Progress.Events.{GuestEvent, plain}
use taint_forge_io_t.Progress.Metrics.{IterationObservation, ProgressMetrics}
use taint_forge_io_t.Progress.Verdicts.{Gains, Losses, compare_repeated, compare_verdict}
use taint_forge_io_t.Repair.Agreement.{plan_requirement-passes}
use taint_forge_io_t.Repair.Applier.Guard.{is_true_parameter, parse_mode, validate_guest_path}
use taint_forge_io_t.Repair.Applier.Preflight.{is_create_directory}
use taint_forge_io_t.Repair.Plan.{
  RepairActionKind, RepairDecision, RepairDisposition, RepairPlan, RepairRisk, RuntimeRequirement,
  auto_candidate, create_directory, default_minimum_auto_confidence, dict_get, filesystem,
  is_auto_candidate, likely, network, one_bits, possible, unmet,
}
use taint_forge_io_t.Repair.Planner.{
  SplitUrl, decision_le, directory_parameters, is_guest_path, is_pseudo_filesystem_path, plan,
  plan_directory, plan_filesystem, plan_requirement, priority_from_blocking,
}
use taint_forge_io_t.Repair.Planner.Order.{NotLater, plan_complete}

abbrev decision_name : String → RepairActionKind → RepairDisposition → String → String
decision_name _ _ _ _ = "decision"

abbrev no_url : String → Option SplitUrl
no_url s = none

abbrev missing_directory : RuntimeRequirement
missing_directory = record {
  requirement_id = "r1";
  kind = filesystem;
  resource = "/var/run";
  operation = "directory_exists";
  status = unmet;
  blocking = likely;
  confidence = one_bits;
  repairable = true;
  errno = some "ENOENT";
  details = [];
}

abbrev refused_connection : RuntimeRequirement
refused_connection = record {
  requirement_id = "r2";
  kind = network;
  resource = "tcp://198.51.100.7:23";
  operation = "connect";
  status = unmet;
  blocking = possible;
  confidence = one_bits;
  repairable = true;
  errno = some "ECONNREFUSED";
  details = [];
}

abbrev two_requirements : List RuntimeRequirement
two_requirements = refused_connection ∷ missing_directory ∷ []

plan_complete_example :
    (p : RepairPlan) × (plan decision_name no_url default_minimum_auto_confidence two_requirements
        [] "r.json" "digest"
      ≡ ok p)
    × Perm
        (map (λ (d : RepairDecision). d.requirement_id) p.decisions)
        (map (λ (r : RuntimeRequirement). r.requirement_id) two_requirements)
    × IsSorted
        (decision_le decision_name no_url default_minimum_auto_confidence)
        (NotLater decision_name no_url default_minimum_auto_confidence)
        p.decisions
    × (p.warnings ≡ [])
    × (p.source_sha256 ≡ "digest")
plan_complete_example =
    plan_complete decision_name no_url default_minimum_auto_confidence two_requirements [] "r.json"
      "digest"

abbrev metrics_with : ℕ → ProgressMetrics
metrics_with events = record {
  guest_events_total = events;
  unique_guest_events = events;
  network_events_total = 0;
  unique_network_targets = 0;
  requirements_total = 1;
  unmet_total = 1;
  likely_unmet_total = 1;
  automatic_candidates = 1;
  review_required = 0;
  manual_analysis = 0;
  fatal_signals = 0;
}

abbrev observed : List GuestEvent → ℕ → IterationObservation
observed events n = record {
  requirements_sha256 = "requirements";
  requirements_fingerprint = "requirements";
  repair_plan_sha256 = "plan";
  repair_fingerprint = "plan";
  behavior_fingerprint = "behavior";
  state_fingerprint = "state";
  metrics = metrics_with n;
  normalized_guest_events = events;
  normalized_network_events = [];
  goal_reached = false;
  goal_reason = none;
}

abbrev open_event : GuestEvent
open_event = plain "open"

abbrev canonical : GuestEvent → String
canonical (plain event) = event
canonical _ = ""

abbrev quiet : IterationObservation
quiet = observed [] 0

abbrev busy : IterationObservation
busy = observed (open_event ∷ []) 1

compare_verdict_example :
    (((compare_observations canonical (some quiet) busy).classification ≡ progress)
      ↔ (Gains canonical quiet busy × ¬ Losses canonical quiet busy))
    × (((compare_observations canonical (some quiet) busy).classification ≡ regression)
        ↔ (Losses canonical quiet busy × ¬ Gains canonical quiet busy))
compare_verdict_example = compare_verdict canonical quiet busy refl

compare_repeated_example : compare_observations canonical (some busy) busy ≡ record {
  classification = no_progress;
  reasons = nothing_changed ∷ [];
  new_guest_events = 0;
  removed_guest_events = 0;
  new_network_targets = 0;
  likely_unmet_delta = pos 0;
  unmet_delta = pos 0;
}
compare_repeated_example = compare_repeated canonical busy refl

abbrev created_decision : RepairDecision
created_decision = record {
  decision_id = "decision";
  requirement_id = "r1";
  requirement_kind = filesystem;
  resource = "/var/run";
  operation = "directory_exists";
  action = create_directory;
  disposition = auto_candidate;
  priority = priority_from_blocking likely;
  risk = RepairRisk.low;
  automatic_allowed = true;
  parameters = directory_parameters;
}

plan_requirement-passes_example :
    (is_auto_candidate created_decision.disposition ≡ true)
    × (is_create_directory created_decision.action ≡ true)
    × (validate_guest_path (codes "/var/run") ≡ ok (as_posix (codes "/var/run")))
    × (is_true_parameter (dict_get "parents" directory_parameters) ≡ true)
    × (parse_mode (dict_get "mode" directory_parameters) ≡ ok 0o755)
unfolding plan_requirement plan_filesystem plan_directory is_guest_path is_pseudo_filesystem_path
    components as_posix rstrip is_below sort
plan_requirement-passes_example =
    plan_requirement-passes decision_name no_url default_minimum_auto_confidence missing_directory
      created_decision refl refl refl
