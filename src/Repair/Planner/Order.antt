-- ===== src/Repair/Planner/Order.antt =====
-- `RepairPlanner.plan` as a whole: the decisions of a plan and their order.
use mathlib.Core.List.Perm
use mathlib.Core.List.{Perm}
use taint_forge_io_t.Prelude.{
  IsSorted, List, Option, Result, String, [], arith, err, map, ok, refl, sort, sort-IsSorted,
  sort-perm, traverse, true, ℕ, ◌↔◌, ◌∷◌, ◌≡◌, ◌≤◌,
}
use taint_forge_io_t.Repair.Plan.{
  RepairActionKind, RepairDecision, RepairDisposition, RepairPlan, RuntimeRequirement,
}
use taint_forge_io_t.Repair.Planner.{
  RepairPlanningError, SplitUrl, decision_le, plan, plan_requirement, priority_order,
}
use taint_forge_io_t.Repair.Planner.Automatic.{
  IsAutomatic, IsDecisionFor, Returns, plan_requirement-IsAutomatic,
}

module _ (make_decision_id : String → RepairActionKind → RepairDisposition → String → String)
    (urlsplit : String → Option SplitUrl) (minimum_auto_confidence : ℕ) where
  abbrev pub decide_all : List RuntimeRequirement → Result RepairPlanningError (List RepairDecision)
  decide_all = traverse (plan_requirement make_decision_id urlsplit minimum_auto_confidence)

  decided :
      (r : RuntimeRequirement) (x : Result RepairPlanningError RepairDecision)
      → Returns x (λ d. d.requirement_id ≡ r.requirement_id)
      → (d : RepairDecision) × (x ≡ ok d) × (d.requirement_id ≡ r.requirement_id)
  decided r (ok d) h = (d, refl, h)
  decided r (err e) h = elim h [ ]

  plan_requirement_id :
      (r : RuntimeRequirement) (x : Result RepairPlanningError RepairDecision)
      → Returns x (λ d.
        IsDecisionFor make_decision_id urlsplit minimum_auto_confidence r d
        × ((d.automatic_allowed ≡ true)
            ↔ IsAutomatic make_decision_id urlsplit minimum_auto_confidence r))
      → Returns x (λ d. d.requirement_id ≡ r.requirement_id)
  plan_requirement_id r (ok d) h = h.0.0
  plan_requirement_id r (err e) h = h

  decide_all_total :
      (rs : List RuntimeRequirement)
      → (ds : List RepairDecision) × (decide_all rs ≡ ok ds)
        × (map (λ (d : RepairDecision). d.requirement_id) ds
            ≡ map (λ (r : RuntimeRequirement). r.requirement_id) rs)
  decide_all_total [] = ([], refl, refl)
  decide_all_total (r ∷ rs) =
      let (d, e, named) =
        decided r (plan_requirement make_decision_id urlsplit minimum_auto_confidence r) (
          plan_requirement_id r _
            (plan_requirement-IsAutomatic make_decision_id urlsplit minimum_auto_confidence r)) in
      let (ds, es, names) = decide_all_total rs in (d ∷ ds, cc, cc)

  -- The order of a plan is that of the priorities.
  abbrev pub NotLater : RepairDecision → RepairDecision → Type 0
  NotLater a b = priority_order a.priority ≤ priority_order b.priority

  module _ (rs : List RuntimeRequirement) (warnings : List String) (source digest : String)
      (ds : List RepairDecision) where
    abbrev pub planned : RepairPlan
    planned = record {
      source_requirements = source;
      source_sha256 = digest;
      decisions = sort (decision_le make_decision_id urlsplit minimum_auto_confidence) ds;
      warnings = warnings;
    }

    plan-decide_all :
        decide_all rs ≡ ok ds
        → plan make_decision_id urlsplit minimum_auto_confidence rs warnings source digest
          ≡ ok planned
    unfolding plan
    plan-decide_all e = rw e

  -- Planning always succeeds. The plan has exactly one decision for each requirement of the report,
  -- keeps the report's warnings and its source, and no decision stands before one of a higher
  -- priority.
  pub plan_complete :
      (rs : List RuntimeRequirement) (warnings : List String) (source digest : String)
      → (p : RepairPlan) × (plan make_decision_id urlsplit minimum_auto_confidence rs warnings
            source digest
          ≡ ok p)
        × Perm
            (map (λ (d : RepairDecision). d.requirement_id) p.decisions)
            (map (λ (r : RuntimeRequirement). r.requirement_id) rs)
        × IsSorted
            (decision_le make_decision_id urlsplit minimum_auto_confidence)
            NotLater
            p.decisions
        × (p.warnings ≡ warnings)
        × (p.source_sha256 ≡ digest)
  plan_complete rs warnings source digest =
      let (ds, e, names) = decide_all_total rs in
      let le = decision_le make_decision_id urlsplit minimum_auto_confidence in
      (
        planned rs warnings source digest ds,
        plan-decide_all rs warnings source digest ds e,
        rw (← names) (Perm.map (λ (d : RepairDecision). d.requirement_id) (sort-perm le ds)),
        sort-IsSorted le NotLater (λ a b h. ground arith) (λ a b h. ground arith)
            (λ a b c h k. omega arith) ds,
        refl,
        refl,
      )
