-- ===== src/Target/Again.antt =====
-- Target/Parse.antt and the printing functions of Target/Spec.antt, one on the other.
use mathlib.Core.Path.{subst}
use taint_forge_io_t.Prelude.{
  Bool, Fields, Json, List, Option, String, all, array, bind-eq-ok, codes, end_fields, false, field,
  get, get_default, get_field, has_code, integer, items_list, length, ltb, none, not, object, ok,
  ok-inj, pos, refl, refuse-passed, require-passed, some, string, sym, true, ℕ, ◌==◌, ◌||◌, ◌≡◌,
}
use taint_forge_io_t.Target.Checked.{
  bounded_string_again, nonempty_list_again, positive_int_again, where_of_again, wheres_again,
}
use taint_forge_io_t.Target.Equality.{json_scalar}
use taint_forge_io_t.Target.Parse.{
  bounded_string, identifier, is_field_path, known, nonempty_list, nonnegative_int,
  parse_parameters, positive_int, required, where_of, wheres,
}
use taint_forge_io_t.Target.Spec.{
  RuleParameters, RuleType, TargetRule, description_fields, event_count, event_source,
  json_artifact, json_field_equals, no_sequence, objects, parameter_fields, repeated_sequence,
  rule_type, rule_type_value, sequence_parameters, text_contains, text_source,
}

-- Where the printed rule leaves a description out, there is none.
abbrev pub is_described : Option String → Bool
is_described none = true
is_described (some d) = not (d == "")

module _ (is_alnum_code : ℕ → Bool) where
  pub identifier_again :
      (j : Json) (s : String)
      → identifier is_alnum_code j ≡ ok s
      → identifier is_alnum_code (string s) ≡ ok s
  unfolding identifier
  identifier_again j s h =
      let (t, e, g) = bind-eq-ok (bounded_string j) _ h in
      let p = refuse-passed ((t == "") || ltb 128 (length (codes t))) _ _ g in
      let q =
        require-passed (all (λ c. is_alnum_code c || has_code c (codes "_-.:")) (codes t)) _ _
          p.1 in
      subst (λ u. identifier is_alnum_code (string u) ≡ ok u) (ok-inj q.1)
        (rw (bounded_string_again j t e, p.0, q.0) refl)

  abbrev printed : String → TargetRule → Fields
  printed id r = field "id" (string id) (
      field "type" (string (rule_type_value (rule_type r.parameters))) (
        field "source" (string r.source)
          (parameter_fields r.parameters (description_fields r.description))))

  -- The parameters of a rule, read behind its first three fields.
  abbrev pub Reread : String → Fields → Fields → RuleParameters → Type 0
  Reread source front rest p =
      parse_parameters is_alnum_code (rule_type p) source (
        field "id" (get "id" front) (
          field "type" (get "type" front)
            (field "source" (get "source" front) (parameter_fields p rest))))
      ≡ ok p

  sequence_again :
      (source : String) (front rest : Fields) (ws : List Fields) (n g : ℕ)
      → known (event_source source) ≡ true
      → nonempty_list no_sequence (array (objects ws)) ≡ ok (objects ws)
      → ltb 32 (length (items_list (objects ws))) ≡ false
      → wheres (objects ws) ≡ ok ws
      → positive_int (integer (pos n)) ≡ ok n
      → ltb 1024 g ≡ false
      → Reread source front rest (sequence_parameters ws n g)
  unfolding parse_parameters nonnegative_int
  sequence_again source front rest ws n g hk hl hs hw hn hg = rw (hk, hl, hs, hw, hn, hg) refl

  pub parse_parameters_again :
      (t : RuleType) (source : String) (raw front rest : Fields) (p : RuleParameters)
      → parse_parameters is_alnum_code t source raw ≡ ok p
      → Reread source front rest p
  unfolding parse_parameters
  parse_parameters_again event_count source raw front rest p h =
      let a = require-passed (known (event_source source)) _ _ h in
      let (w, ew, b) = bind-eq-ok (where_of (get_default "where" (object end_fields) raw)) _ a.1 in
      let (n, en, c) =
        bind-eq-ok (positive_int (get_default "min_count" (integer (pos 1)) raw)) _ b in
      subst (Reread source front rest) (ok-inj c)
        (rw (a.0, where_of_again _ w ew, positive_int_again _ n en) refl)
  parse_parameters_again repeated_sequence source raw front rest p h =
      let a = require-passed (known (event_source source)) _ _ h in
      let (xs, ex, b) = bind-eq-ok (nonempty_list no_sequence (get "sequence" raw)) _ a.1 in
      let c = refuse-passed (ltb 32 (length (items_list xs))) _ _ b in
      let (ws, ew, d) = bind-eq-ok (wheres xs) _ c.1 in
      let (n, en, f) =
        bind-eq-ok (positive_int (get_default "min_repeats" (integer (pos 2)) raw)) _ d in
      let (g, eg, k) =
        bind-eq-ok (nonnegative_int (get_default "max_gap" (integer (pos 0)) raw)) _ f in
      let l = refuse-passed (ltb 1024 g) _ _ k in
      let again = wheres_again xs ws ew in
      subst (Reread source front rest) (ok-inj l.1) (
        sequence_again source front rest ws n g a.0
          (nonempty_list_again no_sequence (get "sequence" raw) xs (objects ws) ex again.1)
          (subst (λ k. ltb 32 k ≡ false) (sym again.1) c.0) again.0 (positive_int_again _ n en) l.0)
  parse_parameters_again text_contains source raw front rest p h =
      let a = require-passed (known (text_source source)) _ _ h in
      let (s, es, b) = bind-eq-ok (bounded_string (get "needle" raw)) _ a.1 in
      let c = refuse-passed (s == "") _ _ b in
      let (n, en, d) =
        bind-eq-ok (positive_int (get_default "min_count" (integer (pos 1)) raw)) _ c.1 in
      subst (Reread source front rest) (ok-inj d)
        (rw (a.0, bounded_string_again _ s es, c.0, positive_int_again _ n en) refl)
  parse_parameters_again json_field_equals source raw front rest p h =
      let a = require-passed (known (json_artifact source)) _ _ h in
      let (s, es, b) = bind-eq-ok (bounded_string (get "field" raw)) _ a.1 in
      let c = require-passed (is_field_path is_alnum_code (codes s)) _ _ b in
      let (v, ev, d) = bind-eq-ok (required (get_field "equals" raw)) _ c.1 in
      let f = require-passed (json_scalar v) _ _ d in
      subst (Reread source front rest) (ok-inj f.1)
        (rw (a.0, bounded_string_again _ s es, c.0, f.0) refl)
