-- ===== src/Target/Accepted.antt =====
-- The parts of an object that `from_dict` has read a specification from.
use mathlib.Core.Path.{subst}
use taint_forge_io_t.Prelude.{
  Bool, Items, Json, Option, String, [], array, bind-eq-ok, boolean, false, get, get_default,
  integer, items_list, length, ltb, null, number, object, ok, ok-inj, pos, refl, refuse-passed,
  require-passed, string, ℕ, ◌≡◌,
}
use taint_forge_io_t.Target.Equality.{scalar_eq}
use taint_forge_io_t.Target.Parse.{
  bounded_string, digest_or, from_dict, identifier, needed, nonempty_list, parse_aggregation_mode,
  parse_rules,
}
use taint_forge_io_t.Target.Spec.{TargetStateSpec, no_rules, spec_to_dict}

module _ (is_alnum_code : ℕ → Bool) (canonical_digest : Json → String) where
  pub record IsAccepted (sha path : Option String) (s : TargetStateSpec) : Type 0 where
    pub goal_raw : Json
    pub goal_read : identifier is_alnum_code goal_raw ≡ ok s.goal_id
    pub text_raw : Json
    pub text_read : bounded_string text_raw ≡ ok s.description
    pub list_raw : Json
    pub rules_raw : Items
    pub rules_some : nonempty_list no_rules list_raw ≡ ok rules_raw
    pub rules_few : ltb 64 (length (items_list rules_raw)) ≡ false
    pub rules_read : parse_rules is_alnum_code [] rules_raw ≡ ok s.rules
    pub needed_raw : Json
    pub needed_read : needed s.mode (length s.rules) needed_raw ≡ ok s.min_satisfied
    pub whole : s ≡ record {
      goal_id = s.goal_id;
      description = s.description;
      mode = s.mode;
      min_satisfied = s.min_satisfied;
      rules = s.rules;
      source_sha256 =
          digest_or canonical_digest sha
            (spec_to_dict s.goal_id s.description s.mode s.min_satisfied s.rules);
      source_path = path;
    }

  pub from_dict-IsAccepted :
      (sha path : Option String) (raw : Json) (s : TargetStateSpec)
      → from_dict is_alnum_code canonical_digest sha path raw ≡ ok s
      → IsAccepted sha path s
  unfolding from_dict
  from_dict-IsAccepted sha path (object raw) s h =
      let a = require-passed (scalar_eq (get "schema_version" raw) (integer (pos 1))) _ _ h in
      let (goal_id, eg, b) = bind-eq-ok (identifier is_alnum_code (get "goal_id" raw)) _ a.1 in
      let (text, et, c) = bind-eq-ok (bounded_string (get "description" raw)) _ b in
      let (m, em, d) =
        bind-eq-ok (parse_aggregation_mode (get_default "mode" (string "all") raw)) _ c in
      let (xs, ex, e) = bind-eq-ok (nonempty_list no_rules (get "rules" raw)) _ d in
      let f = refuse-passed (ltb 64 (length (items_list xs))) _ _ e in
      let (rules, er, g) = bind-eq-ok (parse_rules is_alnum_code [] xs) _ f.1 in
      let (n, en, k) = bind-eq-ok (needed m (length rules) (get "min_satisfied" raw)) _ g in
      subst (IsAccepted sha path) (ok-inj k) record {
        goal_raw = get "goal_id" raw;
        goal_read = eg;
        text_raw = get "description" raw;
        text_read = et;
        list_raw = get "rules" raw;
        rules_raw = xs;
        rules_some = ex;
        rules_few = f.0;
        rules_read = er;
        needed_raw = get "min_satisfied" raw;
        needed_read = en;
        whole = refl;
      }
  from_dict-IsAccepted sha path (array xs) s h = cc
  from_dict-IsAccepted sha path (string x) s h = cc
  from_dict-IsAccepted sha path (integer z) s h = cc
  from_dict-IsAccepted sha path (number x) s h = cc
  from_dict-IsAccepted sha path (boolean b) s h = cc
  from_dict-IsAccepted sha path null s h = cc
