-- ===== src/Progress/Verdicts.antt =====
-- What the verdict of a comparison says of the two observations.
use taint_forge_io_t.Prelude.{
  Included, Included-refl, List, String, [], arith, difference-empty_iff, difference-of_Included,
  eq_iff, eq_refl, false, is_negative, is_positive, pos, refl, some, true, ℤ, ◌<◌, ◌↔◌, ◌∷◌, ◌≡◌,
  ◌≢◌, ◌⊎◌,
}
use taint_forge_io_t.Progress.Compare.{
  Changes, ProgressReason, changes, classify, compare_observations, decide, guest_set,
  negative_reasons, no_progress, nothing_changed, positive_reasons, progress, regression,
}
use taint_forge_io_t.Progress.Events.{GuestEvent}
use taint_forge_io_t.Progress.Metrics.{
  IterationObservation, canonical_eq, int_eq, network_targets, target_eq,
}

abbrev IsPositive : Changes → Type 0
IsPositive c =
    (0 < c.new_guest)
    ⊎ (0 < c.new_target)
    ⊎ (is_negative c.likely_delta ≡ true)
    ⊎ (is_negative c.unmet_delta ≡ true)

abbrev IsNegative : Changes → Type 0
IsNegative c =
    (c.more_fatal ≡ true)
    ⊎ (is_positive c.likely_delta ≡ true)
    ⊎ ((0 < c.removed_guest) × (c.new_guest ≡ 0))

positive_reasons_iff : (c : Changes) → (positive_reasons c ≢ []) ↔ IsPositive c
positive_reasons_iff c = ground arith

negative_reasons_iff : (c : Changes) → (negative_reasons c ≢ []) ↔ IsNegative c
negative_reasons_iff c = ground arith

classify_progress :
    (ps ns : List ProgressReason) → ((classify ps ns).0 ≡ progress) ↔ ((ps ≢ []) × ¬ (ns ≢ []))
classify_progress ps ns = ground arith

classify_regression :
    (ps ns : List ProgressReason) → ((classify ps ns).0 ≡ regression) ↔ ((ns ≢ []) × ¬ (ps ≢ []))
classify_regression ps ns = ground arith

int_eq_iff : (a b : ℤ) → (int_eq a b ≡ true) ↔ (a ≡ b)
int_eq_iff a b = ground arith

target_eq_iff : (s t : String × ℤ) → (target_eq s t ≡ true) ↔ (s ≡ t)
target_eq_iff (a, m) (b, n) = ground (arith, eq_iff a b, int_eq_iff m n)

module _ (canonical_json : GuestEvent → String) (previous current : IterationObservation) where
  abbrev pub GuestsIn : IterationObservation → IterationObservation → Type 0
  GuestsIn a b = Included canonical_eq (guest_set canonical_json a) (guest_set canonical_json b)

  abbrev pub TargetsIn : IterationObservation → IterationObservation → Type 0
  TargetsIn a b =
      Included target_eq (network_targets a.normalized_network_events)
        (network_targets b.normalized_network_events)

  -- A guest event or a network target that was not seen before, or fewer unmet requirements.
  abbrev pub Gains : Type 0
  Gains =
      (¬ GuestsIn current previous)
      ⊎ (¬ TargetsIn current previous)
      ⊎ (current.metrics.likely_unmet_total < previous.metrics.likely_unmet_total)
      ⊎ (current.metrics.unmet_total < previous.metrics.unmet_total)

  -- More fatal signals, more likely unmet requirements, or events that went with no new ones.
  abbrev pub Losses : Type 0
  Losses =
      (previous.metrics.fatal_signals < current.metrics.fatal_signals)
      ⊎ (previous.metrics.likely_unmet_total < current.metrics.likely_unmet_total)
      ⊎ ((¬ GuestsIn previous current) × GuestsIn current previous)

  gains_iff : Gains ↔ IsPositive (changes canonical_json previous current)
  unfolding changes
  gains_iff = ground (
    arith,
    difference-empty_iff canonical_eq eq_iff (guest_set canonical_json current)
        (guest_set canonical_json previous),
    difference-empty_iff target_eq target_eq_iff (network_targets current.normalized_network_events)
        (network_targets previous.normalized_network_events),
  )

  losses_iff : Losses ↔ IsNegative (changes canonical_json previous current)
  unfolding changes
  losses_iff = ground (
    arith,
    difference-empty_iff canonical_eq eq_iff (guest_set canonical_json current)
        (guest_set canonical_json previous),
    difference-empty_iff canonical_eq eq_iff (guest_set canonical_json previous)
        (guest_set canonical_json current),
  )

  some_positive_iff : (positive_reasons (changes canonical_json previous current) ≢ []) ↔ Gains
  some_positive_iff =
      let c = changes canonical_json previous current in
      (
        λ h. gains_iff.1 ((positive_reasons_iff c).0 h),
        λ g. (positive_reasons_iff c).1 (gains_iff.0 g),
      )

  some_negative_iff : (negative_reasons (changes canonical_json previous current) ≢ []) ↔ Losses
  some_negative_iff =
      let c = changes canonical_json previous current in
      (
        λ h. losses_iff.1 ((negative_reasons_iff c).0 h),
        λ l. (negative_reasons_iff c).1 (losses_iff.0 l),
      )

  compare_short_of_goal :
      current.goal_reached ≡ false
      → compare_observations canonical_json (some previous) current
        ≡ decide (changes canonical_json previous current)
  unfolding compare_observations
  compare_short_of_goal open_goal = ground arith

  -- Without the goal, an iteration is classified as progress exactly when it shows a gain and no
  -- loss over the previous one, and as a regression exactly when it shows a loss and no gain.
  pub compare_verdict :
      current.goal_reached ≡ false
      → (((compare_observations canonical_json (some previous) current).classification ≡ progress)
          ↔ (Gains × ¬ Losses))
        × (((compare_observations canonical_json (some previous) current).classification
              ≡ regression)
            ↔ (Losses × ¬ Gains))
  compare_verdict open_goal =
      let c = changes canonical_json previous current in
      let forward = classify_progress (positive_reasons c) (negative_reasons c) in
      let backward = classify_regression (positive_reasons c) (negative_reasons c) in
      rw (compare_short_of_goal open_goal) (
        (
          λ h. (some_positive_iff.0 (forward.0 h).0, λ l. (forward.0 h).1 (some_negative_iff.1 l)),
          λ g. forward.1 (some_positive_iff.1 g.0, λ n. g.1 (some_negative_iff.0 n)),
        ),
        (
          λ h.
              (some_negative_iff.0 (backward.0 h).0, λ g. (backward.0 h).1 (some_positive_iff.1 g)),
          λ l. backward.1 (some_negative_iff.1 l.0, λ p. l.1 (some_positive_iff.0 p)),
        ),
      )

-- An iteration that repeats the observation before it, short of the goal, is no progress, and every
-- reported change is zero.
pub compare_repeated :
    (canonical_json : GuestEvent → String) (o : IterationObservation)
    → o.goal_reached ≡ false
    → compare_observations canonical_json (some o) o ≡ record {
      classification = no_progress;
      reasons = nothing_changed ∷ [];
      new_guest_events = 0;
      removed_guest_events = 0;
      new_network_targets = 0;
      likely_unmet_delta = pos 0;
      unmet_delta = pos 0;
    }
unfolding compare_observations changes
compare_repeated canonical_json o open_goal =
    let guests = guest_set canonical_json o in
    let targets = network_targets o.normalized_network_events in
    ground (
      arith,
      difference-of_Included canonical_eq guests guests (Included-refl canonical_eq eq_refl guests),
      difference-of_Included target_eq targets targets
          (Included-refl target_eq (λ s. (target_eq_iff s s).1 refl) targets),
    )
