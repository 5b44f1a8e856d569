-- ===== src/Repair/Planner/Automatic.antt =====
-- Which requirements the planner lets a later step repair without review.
use taint_forge_io_t.Prelude.{
  Option, Result, String, [], arith, eq_iff, err, false, if◌then◌else◌, none, not, ok, refl, some,
  true, ℕ, ◌&&◌, ◌↔◌, ◌≡◌, ◌≢◌, ◌≤◌, ◌⊎◌,
}
use taint_forge_io_t.Repair.Plan.{
  RepairActionKind, RepairDecision, RepairDisposition, RepairPriority, RepairRisk, RequirementKind,
  RuntimeRequirement, auto_candidate, create_directory, device, execution, filesystem, library,
  network, no_action, not_required, syscall_support, unmet,
}
use taint_forge_io_t.Repair.Planner.{
  Endpoint, RepairPlanningError, SplitUrl, decision, directory_parameters, is_guest_path,
  is_provided, is_pseudo_filesystem_path, manual, needs_semantic_network_review, plan_directory,
  plan_endpoint, plan_execution, plan_filesystem, plan_kind, plan_library, plan_network,
  plan_requirement, priority_from_blocking, sorted_items, split_endpoint,
}

-- The call returns, and what it returns satisfies `P`.
abbrev pub Returns : Result RepairPlanningError RepairDecision → (RepairDecision → Type 0) → Type 0
Returns (ok d) P = P d
Returns (err e) P = ⊥

module _ (make_decision_id : String → RepairActionKind → RepairDisposition → String → String)
    (urlsplit : String → Option SplitUrl) (minimum_auto_confidence : ℕ) where
  -- An absent directory below no pseudo file system, observed with enough confidence.
  abbrev pub IsAutomatic : RuntimeRequirement → Type 0
  IsAutomatic r =
      (r.kind ≡ filesystem)
      × (r.operation ≡ "directory_exists")
      × (r.status ≡ unmet)
      × (r.repairable ≡ true)
      × (minimum_auto_confidence ≤ r.confidence)
      × (is_guest_path r.resource ≡ true)
      × (r.resource ≢ "/")
      × (is_pseudo_filesystem_path r.resource ≡ false)

  -- What holds of every decision: its requirement, and that automation is for low-risk directories.
  abbrev pub IsDecisionFor : RuntimeRequirement → RepairDecision → Type 0
  IsDecisionFor r d =
      (d.requirement_id ≡ r.requirement_id)
      × (d.resource ≡ r.resource)
      × (d.decision_id ≡ make_decision_id r.requirement_id d.action d.disposition r.resource)
      × ((d.automatic_allowed ≡ false)
          ⊎ ((d.action ≡ create_directory)
              × (d.risk ≡ RepairRisk.low)
              × (d.parameters ≡ sorted_items directory_parameters)))
      × ((d.automatic_allowed ≡ true) ↔ (d.disposition ≡ auto_candidate))

  directory_returns :
      (r : RuntimeRequirement) (p : RepairPriority)
      → Returns (plan_directory make_decision_id urlsplit minimum_auto_confidence r p) (λ d.
        IsDecisionFor r d
        × ((d.automatic_allowed ≡ true) ↔ (
            (r.status ≡ unmet)
            × (minimum_auto_confidence ≤ r.confidence)
            × (r.resource ≢ "/")
            × (is_pseudo_filesystem_path r.resource ≡ false))))
  unfolding plan_directory
  directory_returns r p = ground (arith, eq_iff r.resource "/")

  abbrev pub NeverAutomatic : RuntimeRequirement → RepairDecision → Type 0
  NeverAutomatic r d = IsDecisionFor r d × (d.automatic_allowed ≡ false)

  manual_returns :
      (r : RuntimeRequirement) (p : RepairPriority)
      → Returns (manual make_decision_id urlsplit minimum_auto_confidence r p) (NeverAutomatic r)
  manual_returns r p = ground arith

  network_returns :
      (r : RuntimeRequirement) (p : RepairPriority)
      → Returns
          (plan_network make_decision_id urlsplit minimum_auto_confidence r p)
          (NeverAutomatic r)
  unfolding plan_network
  network_returns r p = network_cases (split_endpoint (urlsplit r.resource))
    where
      network_cases :
          (e : Option Endpoint)
          → Returns
              (plan_endpoint make_decision_id urlsplit minimum_auto_confidence r p e)
              (NeverAutomatic r)
      network_cases none = ground arith
      network_cases (some (transport, host, port)) = ground arith

  library_returns :
      (r : RuntimeRequirement) (p : RepairPriority)
      → Returns
          (plan_library make_decision_id urlsplit minimum_auto_confidence r p)
          (NeverAutomatic r)
  unfolding plan_library
  library_returns r p = ground arith

  execution_returns :
      (r : RuntimeRequirement) (p : RepairPriority)
      → Returns
          (plan_execution make_decision_id urlsplit minimum_auto_confidence r p)
          (NeverAutomatic r)
  unfolding plan_execution
  execution_returns r p = ground arith

  -- The other filesystem operations ask for a review.
  filesystem_returns :
      (r : RuntimeRequirement) (p : RepairPriority)
      → Returns (plan_filesystem make_decision_id urlsplit minimum_auto_confidence r p) (λ d.
        IsDecisionFor r d
        × ((d.automatic_allowed ≡ true) ↔ (
            (r.operation ≡ "directory_exists")
            × (r.status ≡ unmet)
            × (minimum_auto_confidence ≤ r.confidence)
            × (is_guest_path r.resource ≡ true)
            × (r.resource ≢ "/")
            × (is_pseudo_filesystem_path r.resource ≡ false))))
  unfolding plan_filesystem
  filesystem_returns r p =
      ground (arith, eq_iff r.resource "/", eq_iff r.operation "directory_exists")

  -- The same over all kinds, before the test of `repairable`.
  abbrev pub IsKindDecision : RuntimeRequirement → RepairDecision → Type 0
  IsKindDecision r d =
      IsDecisionFor r d
      × ((d.automatic_allowed ≡ true) ↔ (
          (r.kind ≡ filesystem)
          × (r.operation ≡ "directory_exists")
          × (r.status ≡ unmet)
          × (minimum_auto_confidence ≤ r.confidence)
          × (is_guest_path r.resource ≡ true)
          × (r.resource ≢ "/")
          × (is_pseudo_filesystem_path r.resource ≡ false)))

  NeverAutomatic-kind :
      (r : RuntimeRequirement) (x : Result RepairPlanningError RepairDecision)
      → r.kind ≢ filesystem
      → Returns x (NeverAutomatic r)
      → Returns x (IsKindDecision r)
  NeverAutomatic-kind r (ok d) other h = ground arith
  NeverAutomatic-kind r (err e) other h = h

  kind_returns :
      (k : RequirementKind) (r : RuntimeRequirement) (p : RepairPriority)
      → r.kind ≡ k
      → Returns
          (plan_kind make_decision_id urlsplit minimum_auto_confidence k r p)
          (IsKindDecision r)
  unfolding plan_kind
  kind_returns filesystem r p e =
      ground (arith, eq_iff r.resource "/", eq_iff r.operation "directory_exists")
  kind_returns device r p e = ground arith
  kind_returns network r p e = NeverAutomatic-kind r _ (λ q. cc) (network_returns r p)
  kind_returns library r p e = ground arith
  kind_returns execution r p e = ground arith
  kind_returns syscall_support r p e = ground arith

  guarded_kind :
      (r : RuntimeRequirement) (p : RepairPriority) (x : Result RepairPlanningError RepairDecision)
      → Returns x (IsKindDecision r)
      → Returns
          (if is_provided r.status && not (needs_semantic_network_review r)
            then decision make_decision_id urlsplit minimum_auto_confidence r no_action not_required
                RepairPriority.low RepairRisk.low false []
            else if not r.repairable
            then manual make_decision_id urlsplit minimum_auto_confidence r p
            else x)
          (λ d. IsDecisionFor r d × ((d.automatic_allowed ≡ true) ↔ IsAutomatic r))
  guarded_kind r p (ok d) h = ground arith
  guarded_kind r p (err e) h = elim h [ ]

  pub plan_requirement-IsAutomatic :
      (r : RuntimeRequirement)
      → Returns
          (plan_requirement make_decision_id urlsplit minimum_auto_confidence r)
          (λ d. IsDecisionFor r d × ((d.automatic_allowed ≡ true) ↔ IsAutomatic r))
  unfolding plan_requirement
  plan_requirement-IsAutomatic r =
      guarded_kind r (priority_from_blocking r.blocking)
        (plan_kind make_decision_id urlsplit minimum_auto_confidence r.kind r
          (priority_from_blocking r.blocking))
        (kind_returns r.kind r (priority_from_blocking r.blocking) refl)
