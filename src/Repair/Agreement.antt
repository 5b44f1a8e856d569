-- ===== src/Repair/Agreement.antt =====
-- The planner of repair_planner.py against the checks of repair_applier.py.
use mathlib.Core.Path.{subst}
use taint_forge_io_t.Guest.Paths.{as_posix, is_below, is_slash}
use taint_forge_io_t.Guest.Prefixes.{is_below-rstrip}
use taint_forge_io_t.Prelude.{
  Bool-cases, Option, String, Text, any, ap, arith, codes, false, inl, inr, insert, ok, rstrip,
  sort, sym, text_eq, text_eq→eq, true, ℕ, ◌↔◌, ◌≡◌,
}
use taint_forge_io_t.Repair.Applier.Guard.{
  denied_prefixes, is_true_parameter, parse_mode, validate_guest_path,
}
use taint_forge_io_t.Repair.Applier.Preflight.{is_create_directory}
use taint_forge_io_t.Repair.Plan.{
  RepairActionKind, RepairDecision, RepairDisposition, RuntimeRequirement, dict_get,
  is_auto_candidate,
}
use taint_forge_io_t.Repair.Planner.{
  SplitUrl, is_guest_path, is_pseudo_filesystem_path, plan_requirement,
}
use taint_forge_io_t.Repair.Planner.Automatic.{
  IsAutomatic, IsDecisionFor, Returns, plan_requirement-IsAutomatic,
}

not_below-rstrip :
    (s prefix : Text) → is_below s prefix ≡ false → is_below (rstrip is_slash s) prefix ≡ false
not_below-rstrip s prefix h = elim (Bool-cases (is_below (rstrip is_slash s) prefix)) [
  | inl e ↦ let below = is_below-rstrip s prefix e in ground arith
  | inr e ↦ e
]

module _ (resource : String) where
  not_denied :
      text_eq (as_posix (codes resource)) (rstrip is_slash (codes resource)) ≡ true
      → is_pseudo_filesystem_path resource ≡ false
      → any (is_below (as_posix (codes resource))) denied_prefixes ≡ false
  unfolding is_pseudo_filesystem_path
  not_denied e h =
      rw (text_eq→eq (as_posix (codes resource)) (rstrip is_slash (codes resource)) e) (
        ground (
          arith,
          not_below-rstrip (codes resource) (codes "/proc"),
          not_below-rstrip (codes resource) (codes "/sys"),
          not_below-rstrip (codes resource) (codes "/dev"),
        ))

  validate_guest_path-is_guest_path :
      is_guest_path resource ≡ true
      → text_eq (codes resource) (codes "/") ≡ false
      → is_pseudo_filesystem_path resource ≡ false
      → validate_guest_path (codes resource) ≡ ok (as_posix (codes resource))
  unfolding is_guest_path validate_guest_path
  validate_guest_path-is_guest_path valid below_root ordinary =
      let normal : text_eq (as_posix (codes resource)) (rstrip is_slash (codes resource)) ≡ true =
        ground arith in
      let allowed_path = not_denied normal ordinary in ground arith

-- An automatic decision of the planner, whose resource is not the root, passes every check that the
-- applier makes of a decision before it looks at the root file system: the disposition, the action,
-- the path, the parents and the mode.
pub plan_requirement-passes :
    (make_decision_id : String → RepairActionKind → RepairDisposition → String → String)
    (urlsplit : String → Option SplitUrl) (minimum_auto_confidence : ℕ) (r : RuntimeRequirement)
    (d : RepairDecision)
    → plan_requirement make_decision_id urlsplit minimum_auto_confidence r ≡ ok d
    → d.automatic_allowed ≡ true
    → text_eq (codes r.resource) (codes "/") ≡ false
    → (is_auto_candidate d.disposition ≡ true)
      × (is_create_directory d.action ≡ true)
      × (validate_guest_path (codes d.resource) ≡ ok (as_posix (codes d.resource)))
      × (is_true_parameter (dict_get "parents" d.parameters) ≡ true)
      × (parse_mode (dict_get "mode" d.parameters) ≡ ok 0o755)
unfolding sort insert parse_mode
plan_requirement-passes make_decision_id urlsplit minimum_auto_confidence r d e allowed_now
      below_root =
    let (holds, iff) =
      subst
        (λ a. Returns a (λ d'.
          IsDecisionFor make_decision_id urlsplit minimum_auto_confidence r d'
          × ((d'.automatic_allowed ≡ true)
              ↔ IsAutomatic make_decision_id urlsplit minimum_auto_confidence r)))
        e (plan_requirement-IsAutomatic make_decision_id urlsplit minimum_auto_confidence r) in
    let (k, o, st, rp, conf, valid, root_, ordinary) = iff.0 allowed_now in
    let (named, resource, identified, kind_, candidate) = holds in
    elim kind_ [
      | inl manual_only ↦ ground arith
      | inr (act, rsk, params) ↦ (
        ap is_auto_candidate (candidate.0 allowed_now),
        ap is_create_directory act,
        subst (λ t. validate_guest_path (codes t) ≡ ok (as_posix (codes t))) (sym resource)
            (validate_guest_path-is_guest_path r.resource valid below_root ordinary),
        ap (λ ps. is_true_parameter (dict_get "parents" ps)) params,
        ap (λ ps. parse_mode (dict_get "mode" ps)) params,
      )
    ]
