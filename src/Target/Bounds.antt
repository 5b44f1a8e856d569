-- ===== src/Target/Bounds.antt =====
-- The numbers of an accepted specification.
use mathlib.Core.Path.{subst}
use taint_forge_io_t.Prelude.{
  All, Bool, Fields, Items, Json, List, Option, String, [], ap, arith, array, bind-eq-ok, boolean,
  codes, end_fields, end_items, false, get, get_default, get_field, integer, item, items_list,
  length, ltb, not-ltb, null, number, object, ok, ok-inj, pos, refl, refuse-passed, require-passed,
  string, suc, sym, ℕ, ◌==◌, ◌∷◌, ◌≡◌, ◌≤◌,
}
use taint_forge_io_t.Target.Accepted.{from_dict-IsAccepted}
use taint_forge_io_t.Target.Checked.{nonempty_list_again, positive_int_again}
use taint_forge_io_t.Target.Equality.{json_scalar}
use taint_forge_io_t.Target.Parse.{
  bounded_string, from_dict, identifier, is_field_path, is_seen, known, needed, nonempty_list,
  nonnegative_int, optional_description, parse_parameters, parse_rule, parse_rule_type, parse_rules,
  positive_int, required, where_of, wheres,
}
use taint_forge_io_t.Target.Spec.{
  AggregationMode, RuleParameters, RuleType, TargetRule, TargetStateError, TargetStateSpec,
  all_rules, any_rule, at_least, count_parameters, event_count, event_source, field_parameters,
  json_artifact, json_field_equals, no_rules, no_sequence, repeated_sequence, sequence_parameters,
  text_contains, text_parameters, text_source,
}

abbrev pub IsWithin : RuleParameters → Type 0
IsWithin (count_parameters w n) = 1 ≤ n
IsWithin (sequence_parameters ws n g) = (1 ≤ length ws) × (length ws ≤ 32) × (1 ≤ n) × (g ≤ 1024)
IsWithin (text_parameters s n) = 1 ≤ n
IsWithin (field_parameters p v) = Unit

-- No rule has the id of an earlier one.
abbrev pub AreDistinct : List String → List TargetRule → Type 0
AreDistinct seen [] = Unit
AreDistinct seen (r ∷ rs) = (is_seen r.rule_id seen ≡ false) × AreDistinct (r.rule_id ∷ seen) rs

positive_int-ok : (j : Json) (n : ℕ) → positive_int j ≡ ok n → 1 ≤ n
unfolding positive_int
positive_int-ok j n h = ground (arith, positive_int_again j n h)

nonempty_list-ok :
    (e : TargetStateError) (j : Json) (xs : Items)
    → nonempty_list e j ≡ ok xs
    → 1 ≤ length (items_list xs)
nonempty_list-ok e j end_items h =
    ground (arith, nonempty_list_again e j end_items end_items h refl)
nonempty_list-ok e j (item x xs) h = omega arith

wheres-length :
    (xs : Items) (ws : List Fields) → wheres xs ≡ ok ws → length ws ≡ length (items_list xs)
unfolding wheres
wheres-length end_items ws h = ap length (sym (ok-inj h))
wheres-length (item x xs) ws h =
    let (w, e, g) = bind-eq-ok (where_of x) _ h in
    let (rest, e', g') = bind-eq-ok (wheres xs) _ g in
    subst (λ t. length t ≡ suc (length (items_list xs))) (ok-inj g')
      (ap suc (wheres-length xs rest e'))

needed-ok :
    (m : AggregationMode) (total : ℕ) (v : Json) (n : ℕ)
    → 1 ≤ total
    → needed m total v ≡ ok n
    → (1 ≤ n) × (n ≤ total)
needed-ok all_rules total v n l h = ground (arith, ok-inj h)
needed-ok any_rule total v n l h = ground (arith, ok-inj h)
needed-ok at_least total v n l h =
    let (k, e, g) = bind-eq-ok (positive_int v) _ h in
    let p = refuse-passed (ltb total k) _ _ g in ground (arith, positive_int-ok v k e, ok-inj p.1)

module _ (is_alnum_code : ℕ → Bool) where
  parse_parameters-IsWithin :
      (t : RuleType) (source : String) (raw : Fields) (p : RuleParameters)
      → parse_parameters is_alnum_code t source raw ≡ ok p
      → IsWithin p
  unfolding parse_parameters
  parse_parameters-IsWithin event_count source raw p h =
      let a = require-passed (known (event_source source)) _ _ h in
      let (w, ew, b) = bind-eq-ok (where_of (get_default "where" (object end_fields) raw)) _ a.1 in
      let (n, en, c) =
        bind-eq-ok (positive_int (get_default "min_count" (integer (pos 1)) raw)) _ b in
      subst IsWithin (ok-inj c) (positive_int-ok _ n en)
  parse_parameters-IsWithin repeated_sequence source raw p h =
      let a = require-passed (known (event_source source)) _ _ h in
      let (xs, ex, b) = bind-eq-ok (nonempty_list no_sequence (get "sequence" raw)) _ a.1 in
      let c = refuse-passed (ltb 32 (length (items_list xs))) _ _ b in
      let (ws, ew, d) = bind-eq-ok (wheres xs) _ c.1 in
      let (n, en, f) =
        bind-eq-ok (positive_int (get_default "min_repeats" (integer (pos 2)) raw)) _ d in
      let (g, eg, k) =
        bind-eq-ok (nonnegative_int (get_default "max_gap" (integer (pos 0)) raw)) _ f in
      let l = refuse-passed (ltb 1024 g) _ _ k in
      let same = wheres-length xs ws ew in
      subst IsWithin (ok-inj l.1) (
        subst (λ u. 1 ≤ u) (sym same) (nonempty_list-ok no_sequence _ xs ex),
        subst (λ u. u ≤ 32) (sym same) (not-ltb 32 _ c.0),
        positive_int-ok _ n en,
        not-ltb 1024 g l.0,
      )
  parse_parameters-IsWithin text_contains source raw p h =
      let a = require-passed (known (text_source source)) _ _ h in
      let (s, es, b) = bind-eq-ok (bounded_string (get "needle" raw)) _ a.1 in
      let c = refuse-passed (s == "") _ _ b in
      let (n, en, d) =
        bind-eq-ok (positive_int (get_default "min_count" (integer (pos 1)) raw)) _ c.1 in
      subst IsWithin (ok-inj d) (positive_int-ok _ n en)
  parse_parameters-IsWithin json_field_equals source raw p h =
      let a = require-passed (known (json_artifact source)) _ _ h in
      let (s, es, b) = bind-eq-ok (bounded_string (get "field" raw)) _ a.1 in
      let c = require-passed (is_field_path is_alnum_code (codes s)) _ _ b in
      let (v, ev, d) = bind-eq-ok (required (get_field "equals" raw)) _ c.1 in
      let f = require-passed (json_scalar v) _ _ d in subst IsWithin (ok-inj f.1) tt

  parse_rule-IsWithin :
      (j : Json) (r : TargetRule) → parse_rule is_alnum_code j ≡ ok r → IsWithin r.parameters
  unfolding parse_rule
  parse_rule-IsWithin (object raw) r h =
      let (id, ei, a) = bind-eq-ok (identifier is_alnum_code (get "id" raw)) _ h in
      let (d, ed, b) = bind-eq-ok (optional_description (get "description" raw)) _ a in
      let (y, ey, c) = bind-eq-ok (parse_rule_type (get "type" raw)) _ b in
      let (source, es, e) = bind-eq-ok (identifier is_alnum_code (get "source" raw)) _ c in
      let (p, ep, f) = bind-eq-ok (parse_parameters is_alnum_code y source raw) _ e in
      subst (λ (u : TargetRule). IsWithin u.parameters) (ok-inj f)
        (parse_parameters-IsWithin y source raw p ep)
  parse_rule-IsWithin (array xs) r h = cc
  parse_rule-IsWithin (string s) r h = cc
  parse_rule-IsWithin (integer z) r h = cc
  parse_rule-IsWithin (number x) r h = cc
  parse_rule-IsWithin (boolean b) r h = cc
  parse_rule-IsWithin null r h = cc

  parse_rules-IsWithin :
      (seen : List String) (xs : Items) (rs : List TargetRule)
      → parse_rules is_alnum_code seen xs ≡ ok rs
      → (length rs ≡ length (items_list xs))
        × AreDistinct seen rs
        × All (λ (r : TargetRule). IsWithin r.parameters) rs
  unfolding parse_rules
  parse_rules-IsWithin seen end_items rs h =
      subst
        (λ u.
          (length u ≡ 0) × AreDistinct seen u × All (λ (r : TargetRule). IsWithin r.parameters) u)
        (ok-inj h) (refl, tt, tt)
  parse_rules-IsWithin seen (item x xs) rs h =
      let (r, er, a) = bind-eq-ok (parse_rule is_alnum_code x) _ h in
      let b = refuse-passed (is_seen r.rule_id seen) _ _ a in
      let (rest, et, c) = bind-eq-ok (parse_rules is_alnum_code (r.rule_id ∷ seen) xs) _ b.1 in
      let ih = parse_rules-IsWithin (r.rule_id ∷ seen) xs rest et in
      subst
        (λ u.
          (length u ≡ suc (length (items_list xs)))
          × AreDistinct seen u
          × All (λ (q : TargetRule). IsWithin q.parameters) u)
        (ok-inj c) (ap suc ih.0, (b.0, ih.1), (parse_rule-IsWithin x r er, ih.2))

  module _ (canonical_digest : Json → String) where
    -- A specification that `from_dict` accepts has between one and 64 rules, no two of the same id,
    -- the numbers of each rule within their bounds, and it needs at least one rule and at most as
    -- many as it has.
    pub from_dict-IsWithin :
        (sha path : Option String) (raw : Json) (s : TargetStateSpec)
        → from_dict is_alnum_code canonical_digest sha path raw ≡ ok s
        → (1 ≤ s.min_satisfied)
          × (s.min_satisfied ≤ length s.rules)
          × (length s.rules ≤ 64)
          × AreDistinct [] s.rules
          × All (λ (r : TargetRule). IsWithin r.parameters) s.rules
    from_dict-IsWithin sha path raw s h =
        let a = from_dict-IsAccepted is_alnum_code canonical_digest sha path raw s h in
        let r = parse_rules-IsWithin [] a.rules_raw s.rules a.rules_read in
        let some_rule =
          subst (λ u. 1 ≤ u) (sym r.0) (nonempty_list-ok no_rules _ a.rules_raw a.rules_some) in
        let within = needed-ok s.mode (length s.rules) _ s.min_satisfied some_rule a.needed_read in
        (within.0, within.1, subst (λ u. u ≤ 64) (sym r.0) (not-ltb 64 _ a.rules_few), r.1, r.2)
