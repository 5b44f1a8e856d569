-- ===== src/Target/Roundtrip.antt =====
-- `from_dict` on what `to_dict` gives, and the numbers of an accepted specification.
use mathlib.Core.Path.{subst}
use taint_forge_io_t.Prelude.{
  Bool, Fields, Items, Json, List, Option, String, [], all, ap, array, bind-eq-ok, boolean,
  both-true, end_fields, end_items, false, field, get, integer, item, items_list, length, ltb, none,
  not-true, null, number, object, ok, ok-inj, pos, refl, refuse-passed, some, some-inj, string, suc,
  sym, true, ℕ, ◌==◌, ◌∙◌, ◌∷◌, ◌≡◌,
}
use taint_forge_io_t.Target.Accepted.{from_dict-IsAccepted}
use taint_forge_io_t.Target.Again.{identifier_again, is_described, parse_parameters_again}
use taint_forge_io_t.Target.Checked.{
  bounded_string_again, nonempty_list_again, parse_aggregation_mode_value, parse_rule_type_value,
  positive_int_again,
}
use taint_forge_io_t.Target.Parse.{
  bounded_string, digest_or, from_dict, identifier, is_seen, needed, nonempty_list,
  optional_description, parse_parameters, parse_rule, parse_rule_type, parse_rules, positive_int,
}
use taint_forge_io_t.Target.Spec.{
  AggregationMode, RuleParameters, TargetRule, TargetStateSpec, all_rules, any_rule, at_least,
  count_parameters, description_fields, field_parameters, no_rules, parameter_fields, rule_items,
  rule_to_dict, rule_type, rule_type_value, sequence_parameters, spec_to_dict, text_parameters,
}

description_text :
    (v : Json) (d : String)
    → optional_description v ≡ ok (some d)
    → bounded_string (string d) ≡ ok d
unfolding bounded_string
description_text (string s) d h =
    let (t, e, g) = bind-eq-ok (bounded_string (string s)) _ h in
    subst (λ u. bounded_string (string u) ≡ ok u) (some-inj (ok-inj g))
      (bounded_string_again (string s) t e)
description_text null d h = cc
description_text (integer z) d h = cc
description_text (number r) d h = cc
description_text (boolean b) d h = cc
description_text (array xs) d h = cc
description_text (object fs) d h = cc

-- A description is read back where it is printed.
description_again :
    (v : Json) (d : Option String)
    → optional_description v ≡ ok d
    → is_described d ≡ true
    → optional_description (get "description" (description_fields d)) ≡ ok d
description_again v none h t = refl
description_again v (some d) h t = rw (not-true (d == "") t, description_text v d h) refl

needed_again :
    (m : AggregationMode) (total : ℕ) (v : Json) (n : ℕ)
    → needed m total v ≡ ok n
    → needed m total (integer (pos n)) ≡ ok n
needed_again all_rules total v n h = h
needed_again any_rule total v n h = h
needed_again at_least total v n h =
    let (k, e, g) = bind-eq-ok (positive_int v) _ h in
    let p = refuse-passed (ltb total k) _ _ g in
    subst (λ u. needed at_least total (integer (pos u)) ≡ ok u) (ok-inj p.1)
      (rw (positive_int_again v k e, p.0) refl)

module _ (is_alnum_code : ℕ → Bool) where
  printed_description :
      (id y s : Json) (p : RuleParameters) (rest : Fields)
      → get "description"
          (field "id" id (field "type" y (field "source" s (parameter_fields p rest))))
        ≡ get "description" rest
  printed_description id y s (count_parameters w n) rest = refl
  printed_description id y s (sequence_parameters ws n g) rest = refl
  printed_description id y s (text_parameters t n) rest = refl
  printed_description id y s (field_parameters q v) rest = refl

  abbrev RuleAgain : TargetRule → Type 0
  RuleAgain r = parse_rule is_alnum_code (rule_to_dict r) ≡ ok r

  rule_of_parts :
      (id source : String) (p : RuleParameters) (d : Option String)
      → identifier is_alnum_code (string id) ≡ ok id
      → optional_description (
          get "description" (
            field "id" (string id) (
              field "type"
                (string (rule_type_value (rule_type p)))
                (field "source" (string source) (parameter_fields p (description_fields d))))))
        ≡ ok d
      → identifier is_alnum_code (string source) ≡ ok source
      → parse_parameters is_alnum_code (rule_type p) source (
          field "id" (string id) (
            field "type"
              (string (rule_type_value (rule_type p)))
              (field "source" (string source) (parameter_fields p (description_fields d)))))
        ≡ ok p
      → RuleAgain (record { rule_id = id; source = source; parameters = p; description = d })
  unfolding parse_rule
  rule_of_parts id source p d hi hd hs hp =
      rw (hi, hd, parse_rule_type_value (rule_type p), hs, hp) refl

  parse_rule_again :
      (j : Json) (r : TargetRule)
      → parse_rule is_alnum_code j ≡ ok r
      → is_described r.description ≡ true
      → RuleAgain r
  unfolding parse_rule
  parse_rule_again (object raw) r h t =
      let (id, ei, a) = bind-eq-ok (identifier is_alnum_code (get "id" raw)) _ h in
      let (d, ed, b) = bind-eq-ok (optional_description (get "description" raw)) _ a in
      let (y, ey, c) = bind-eq-ok (parse_rule_type (get "type" raw)) _ b in
      let (source, es, e) = bind-eq-ok (identifier is_alnum_code (get "source" raw)) _ c in
      let (p, ep, f) = bind-eq-ok (parse_parameters is_alnum_code y source raw) _ e in
      subst RuleAgain (ok-inj f) (
        rule_of_parts id source p d (identifier_again is_alnum_code _ id ei)
          (subst (λ u. optional_description u ≡ ok d)
            (sym (
              printed_description (string id) (string (rule_type_value (rule_type p)))
                (string source) p (description_fields d)))
            (description_again _ d ed
              (subst (λ u. is_described u.description ≡ true) (sym (ok-inj f)) t)))
          (identifier_again is_alnum_code _ source es)
          (parse_parameters_again is_alnum_code y source raw
            (field "id" (string id) (
              field "type" (string (rule_type_value (rule_type p)))
                (field "source" (string source) end_fields)))
            (description_fields d) p ep))
  parse_rule_again (array xs) r h t = cc
  parse_rule_again (string s) r h t = cc
  parse_rule_again (integer z) r h t = cc
  parse_rule_again (number x) r h t = cc
  parse_rule_again (boolean b) r h t = cc
  parse_rule_again null r h t = cc

  parse_rules_again :
      (seen : List String) (xs : Items) (rs : List TargetRule)
      → parse_rules is_alnum_code seen xs ≡ ok rs
      → all (λ r. is_described r.description) rs ≡ true
      → (parse_rules is_alnum_code seen (rule_items rs) ≡ ok rs)
        × (length (items_list (rule_items rs)) ≡ length (items_list xs))
        × (length rs ≡ length (items_list xs))
  unfolding parse_rules
  parse_rules_again seen end_items rs h t =
      subst
        (λ u.
          (parse_rules is_alnum_code seen (rule_items u) ≡ ok u)
          × (length (items_list (rule_items u)) ≡ 0)
          × (length u ≡ 0))
        (ok-inj h) (refl, refl, refl)
  parse_rules_again seen (item x xs) rs h t =
      let (r, er, a) = bind-eq-ok (parse_rule is_alnum_code x) _ h in
      let b = refuse-passed (is_seen r.rule_id seen) _ _ a in
      let (rest, et, c) = bind-eq-ok (parse_rules is_alnum_code (r.rule_id ∷ seen) xs) _ b.1 in
      let described =
        subst (λ u. all (λ (q : TargetRule). is_described q.description) u ≡ true) (sym (ok-inj c))
          t in
      let both = both-true (is_described r.description) _ described in
      let ih = parse_rules_again (r.rule_id ∷ seen) xs rest et both.1 in
      subst
        (λ u.
          (parse_rules is_alnum_code seen (rule_items u) ≡ ok u)
          × (length (items_list (rule_items u)) ≡ suc (length (items_list xs)))
          × (length u ≡ suc (length (items_list xs))))
        (ok-inj c) (rw (parse_rule_again x r er both.0, b.0, ih.0) refl, ap suc ih.1, ap suc ih.2)

  module _ (canonical_digest : Json → String) where
    spec_of_parts :
        (sha path : Option String) (goal_id text : String) (m : AggregationMode) (n : ℕ)
        (rules : List TargetRule)
        → identifier is_alnum_code (string goal_id) ≡ ok goal_id
        → bounded_string (string text) ≡ ok text
        → nonempty_list no_rules (array (rule_items rules)) ≡ ok (rule_items rules)
        → ltb 64 (length (items_list (rule_items rules))) ≡ false
        → parse_rules is_alnum_code [] (rule_items rules) ≡ ok rules
        → needed m (length rules) (integer (pos n)) ≡ ok n
        → from_dict is_alnum_code canonical_digest sha path (spec_to_dict goal_id text m n rules)
          ≡ ok record {
            goal_id = goal_id;
            description = text;
            mode = m;
            min_satisfied = n;
            rules = rules;
            source_sha256 = digest_or canonical_digest sha (spec_to_dict goal_id text m n rules);
            source_path = path;
          }
    unfolding from_dict
    spec_of_parts sha path goal_id text m n rules hg ht hl h64 hr hn =
        rw (hg, ht, parse_aggregation_mode_value m, hl, h64, hr, hn) refl

    -- A specification that `from_dict` accepts, and in which no rule has an empty description, is
    -- read back as it is from what its `to_dict` gives, under the same digest and path.
    pub from_dict-to_dict :
        (sha path : Option String) (raw : Json) (s : TargetStateSpec)
        → from_dict is_alnum_code canonical_digest sha path raw ≡ ok s
        → all (λ r. is_described r.description) s.rules ≡ true
        → from_dict is_alnum_code canonical_digest sha path
            (spec_to_dict s.goal_id s.description s.mode s.min_satisfied s.rules)
          ≡ ok s
    from_dict-to_dict sha path raw s h t =
        let a = from_dict-IsAccepted is_alnum_code canonical_digest sha path raw s h in
        let again = parse_rules_again [] a.rules_raw s.rules a.rules_read t in
        spec_of_parts sha path s.goal_id s.description s.mode s.min_satisfied s.rules
          (identifier_again is_alnum_code _ s.goal_id a.goal_read)
          (bounded_string_again _ s.description a.text_read)
          (nonempty_list_again no_rules a.list_raw a.rules_raw (rule_items s.rules) a.rules_some
            again.1)
          (subst (λ l. ltb 64 l ≡ false) (sym again.1) a.rules_few) again.0
          (needed_again s.mode (length s.rules) _ s.min_satisfied a.needed_read)
        ∙ ap ok (sym a.whole)
