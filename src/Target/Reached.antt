-- ===== src/Target/Reached.antt =====
-- When a target state counts as reached.
use mathlib.Core.Path.{subst}
use taint_forge_io_t.Prelude.{
  Bool, Json, List, Option, Result, String, Text, [], all, any, ap, arith, bind-eq-ok, count, leb,
  length, ok, ok-inj, refl, suc, sym, traverse, ℕ, ◌∷◌, ◌≡◌, ◌≤◌,
}
use taint_forge_io_t.Target.Accepted.{from_dict-IsAccepted}
use taint_forge_io_t.Target.Evidence.{RuleEvaluation, RunFiles, TargetStateEvaluation}
use taint_forge_io_t.Target.Oracle.{evaluate, evaluate_rule, evaluation_of, has_matched}
use taint_forge_io_t.Target.Parse.{from_dict, needed}
use taint_forge_io_t.Target.Spec.{
  AggregationMode, TargetStateError, TargetStateSpec, all_rules, any_rule, at_least,
}

-- What the mode of a specification asks of the rules.
abbrev pub satisfies : AggregationMode → ℕ → List RuleEvaluation → Bool
satisfies all_rules n evaluations = all has_matched evaluations
satisfies any_rule n evaluations = any has_matched evaluations
satisfies at_least n evaluations = leb n (count has_matched evaluations)

count-le-length : (xs : List RuleEvaluation) → count has_matched xs ≤ length xs
count-le-length [] = omega arith
count-le-length (x ∷ xs) = ground (arith, count-le-length xs)

count-all : (xs : List RuleEvaluation) → leb (length xs) (count has_matched xs) ≡ all has_matched xs
count-all [] = refl
count-all (x ∷ xs) = ground (arith, count-all xs, count-le-length xs)

count-any : (xs : List RuleEvaluation) → leb 1 (count has_matched xs) ≡ any has_matched xs
count-any [] = refl
count-any (x ∷ xs) = ground (arith, count-any xs)

length-traverse :
    {A B : Type 0} (f : A → Result TargetStateError B) (xs : List A) (ys : List B)
    → traverse f xs ≡ ok ys
    → length ys ≡ length xs
length-traverse f [] ys h = ap length (sym (ok-inj h))
length-traverse f (x ∷ xs) ys h =
    let (y, e, g) = bind-eq-ok (f x) _ h in
    let (rest, e', g') = bind-eq-ok (traverse f xs) _ g in
    subst (λ t. length t ≡ suc (length xs)) (ok-inj g') (ap suc (length-traverse f xs rest e'))

satisfies-leb :
    (m : AggregationMode) (n : ℕ) (v : Json) (xs : List RuleEvaluation)
    → needed m (length xs) v ≡ ok n
    → leb n (count has_matched xs) ≡ satisfies m n xs
satisfies-leb all_rules n v xs h =
    subst (λ k. leb k (count has_matched xs) ≡ all has_matched xs) (ok-inj h) (count-all xs)
satisfies-leb any_rule n v xs h =
    subst (λ k. leb k (count has_matched xs) ≡ any has_matched xs) (ok-inj h) (count-any xs)
satisfies-leb at_least n v xs h = refl

module _ (is_alnum_code : ℕ → Bool) (canonical_digest : Json → String) where
  module _ (json_loads : Text → Option Json) (stream_lines splitlines : Text → List Text) where
    -- Where a specification that `from_dict` accepts is evaluated, every rule is, and the target is
    -- reached exactly where the rules are matched as its mode asks: all of them, some of them, or
    -- as many as it names.
    pub evaluate-satisfies :
        (sha path : Option String) (raw : Json) (s : TargetStateSpec) (files : RunFiles)
        (e : TargetStateEvaluation)
        → from_dict is_alnum_code canonical_digest sha path raw ≡ ok s
        → evaluate json_loads stream_lines splitlines files s ≡ ok e
        → (e.is_reached ≡ satisfies s.mode s.min_satisfied e.rules)
          × (e.total_rules ≡ length s.rules)
          × (e.matched_rules ≡ count has_matched e.rules)
    unfolding evaluate evaluation_of
    evaluate-satisfies sha path raw s files e hs he =
        let a = from_dict-IsAccepted is_alnum_code canonical_digest sha path raw s hs in
        let (es, t, done) =
          bind-eq-ok (traverse (evaluate_rule json_loads stream_lines splitlines files) s.rules) _
            he in
        let same =
          length-traverse (evaluate_rule json_loads stream_lines splitlines files) s.rules es t in
        subst
          (λ (u : TargetStateEvaluation).
            (u.is_reached ≡ satisfies s.mode s.min_satisfied u.rules)
            × (u.total_rules ≡ length s.rules)
            × (u.matched_rules ≡ count has_matched u.rules))
          (ok-inj done)
          (
            satisfies-leb s.mode s.min_satisfied a.needed_raw es (
                subst (λ k. needed s.mode k a.needed_raw ≡ ok s.min_satisfied) (sym same)
                  a.needed_read),
            same,
            refl,
          )
