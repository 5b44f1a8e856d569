-- ===== src/Progress/Compare.antt =====
-- `ProgressOracle.compare`. A reason is the constructor of its message with the number in it.
use taint_forge_io_t.Prelude.{
  Bool, List, Option, String, [], difference, eqb, false, if◌then◌else◌, is_negative, is_positive,
  length, ltb, map, negsuc, none, pos, some, sub_ℕ, suc, true, ℕ, ℤ, ◌&&◌, ◌++◌, ◌==◌, ◌∷◌,
}
use taint_forge_io_t.Progress.Events.{GuestEvent}
use taint_forge_io_t.Progress.Metrics.{
  IterationObservation, canonical_eq, network_targets, target_eq,
}

pub data ProgressClassification : Type 0 where
  baseline progress no_progress regression goal_reached : ProgressClassification

pub data ProgressReason : Type 0 where
  goal : Option String → ProgressReason
  first_iteration nothing_changed fatal_signals_increased : ProgressReason
  new_events new_targets likely_decreased unmet_decreased : ℕ → ProgressReason
  likely_increased events_disappeared : ℕ → ProgressReason

pub record ProgressDecision : Type 0 where
  pub classification : ProgressClassification
  pub reasons : List ProgressReason
  pub new_guest_events : ℕ
  pub removed_guest_events : ℕ
  pub new_network_targets : ℕ
  pub likely_unmet_delta : ℤ
  pub unmet_delta : ℤ

-- The sizes and changes that `compare` computes from two observations.
pub record Changes : Type 0 where
  pub new_guest : ℕ
  pub removed_guest : ℕ
  pub new_target : ℕ
  pub likely_delta : ℤ
  pub unmet_delta : ℤ
  pub more_fatal : Bool

abbrev pub when : Bool → ProgressReason → List ProgressReason
when true r = r ∷ []
when false r = []

-- `-delta` of a negative delta.
abbrev pub drop_of : ℤ → ℕ
drop_of (pos n) = 0
drop_of (negsuc n) = suc n

abbrev pub rise_of : ℤ → ℕ
rise_of (pos n) = n
rise_of (negsuc n) = 0

abbrev pub positive_reasons : Changes → List ProgressReason
positive_reasons c =
    when (ltb 0 c.new_guest) (new_events c.new_guest)
    ++ when (ltb 0 c.new_target) (new_targets c.new_target)
    ++ when (is_negative c.likely_delta) (likely_decreased (drop_of c.likely_delta))
    ++ when (is_negative c.unmet_delta) (unmet_decreased (drop_of c.unmet_delta))

abbrev pub negative_reasons : Changes → List ProgressReason
negative_reasons c =
    when c.more_fatal fatal_signals_increased
    ++ when (is_positive c.likely_delta) (likely_increased (rise_of c.likely_delta))
    ++ when (ltb 0 c.removed_guest && eqb c.new_guest 0) (events_disappeared c.removed_guest)

abbrev pub classify :
    List ProgressReason → List ProgressReason → ProgressClassification × List ProgressReason
classify (p ∷ ps) [] = (progress, p ∷ ps)
classify [] (n ∷ ns) = (regression, n ∷ ns)
classify [] [] = (no_progress, nothing_changed ∷ [])
classify (p ∷ ps) (n ∷ ns) = (no_progress, (p ∷ ps) ++ (n ∷ ns))

abbrev pub decide : Changes → ProgressDecision
decide c =
    let verdict = classify (positive_reasons c) (negative_reasons c) in
    record {
      classification = verdict.0;
      reasons = verdict.1;
      new_guest_events = c.new_guest;
      removed_guest_events = c.removed_guest;
      new_network_targets = c.new_target;
      likely_unmet_delta = c.likely_delta;
      unmet_delta = c.unmet_delta;
    }

-- `current.goal_reason or "explicit goal reached"`
abbrev pub goal_reason_of : Option String → ProgressReason
goal_reason_of none = goal none
goal_reason_of (some s) = if s == "" then goal none else goal (some s)

module _ (canonical_json : GuestEvent → String) where
  abbrev pub guest_set : IterationObservation → List String
  guest_set o = map canonical_json o.normalized_guest_events

  unfoldable pub changes : IterationObservation → IterationObservation → Changes
  unfolding network_targets
  changes previous current = record {
    new_guest = length (difference canonical_eq (guest_set current) (guest_set previous));
    removed_guest = length (difference canonical_eq (guest_set previous) (guest_set current));
    new_target = length (
        difference target_eq (network_targets current.normalized_network_events)
          (network_targets previous.normalized_network_events));
    likely_delta = sub_ℕ current.metrics.likely_unmet_total previous.metrics.likely_unmet_total;
    unmet_delta = sub_ℕ current.metrics.unmet_total previous.metrics.unmet_total;
    more_fatal = ltb previous.metrics.fatal_signals current.metrics.fatal_signals;
  }

  abbrev pub against : Option IterationObservation → IterationObservation → ProgressDecision
  against none current = record {
    classification = baseline;
    reasons = first_iteration ∷ [];
    new_guest_events = current.metrics.unique_guest_events;
    removed_guest_events = 0;
    new_network_targets = current.metrics.unique_network_targets;
    likely_unmet_delta = pos 0;
    unmet_delta = pos 0;
  }
  against (some previous) current = decide (changes previous current)

  unfoldable pub compare_observations :
      Option IterationObservation → IterationObservation → ProgressDecision
  compare_observations previous current =
      if current.goal_reached
      then record {
        classification = goal_reached;
        reasons = goal_reason_of current.goal_reason ∷ [];
        new_guest_events = 0;
        removed_guest_events = 0;
        new_network_targets = 0;
        likely_unmet_delta = pos 0;
        unmet_delta = pos 0;
      }
      else against previous current
