-- ===== src/Target/Adjacent.antt =====
-- The count of a sequence where no gap is allowed.
use Prim.Native.Nat.{min}
use mathlib.Core.Path.{subst}
use taint_forge_io_t.Prelude.{
  Bool-cases, Fields, List, Option-cases, [], ap, arith, inl, inr, length, ltb, ltb→lt, none,
  not-ltb, some, suc, sym, true, zero, ℕ, ◌+◌, ◌-◌, ◌<◌, ◌∙◌, ◌∷◌, ◌≡◌, ◌≤◌,
}
use taint_forge_io_t.Target.Sequence.{
  Repeats, count_from, count_sequence_repeats, follow, matches_at,
}
use taint_forge_io_t.Target.Spans.{
  Follows, Follows-length, count_from-AreSpans, count_from-found, count_from-missed,
  find_match-first, find_match-some, follow-Follows, matches_at-lt,
}

-- Without gaps the inner loop finds every occurrence.
Follows-follow :
    (events : List Fields) (previous : ℕ) (sequence : List Fields) (end : ℕ)
    → Follows events 0 previous sequence end
    → follow events 0 previous sequence ≡ some end
unfolding follow
Follows-follow events previous [] end h = ap some h
Follows-follow events previous (w ∷ ws) end (i, lo, hi, m, h) =
    let within = matches_at-lt events i w m in
    let (j, e, l) =
      find_match-first events w (suc previous)
        (min (length events) (previous + 0 + 2) - suc previous) i lo (ground arith) m in
    let r = find_match-some events w (suc previous) _ j e in
    let same : j ≡ i = omega (arith, r.0, l, hi) in
    rw e
      (subst (λ k. follow events 0 k ws ≡ some end) (sym same) (Follows-follow events i ws end h))

-- An occurrence is not where the inner loop gives up.
missed_before :
    (events : List Fields) (sequence : List Fields) (start p end : ℕ)
    → start ≤ p
    → Follows events 0 p sequence end
    → follow events 0 start sequence ≡ none
    → start < p
missed_before events sequence start p end l f e = elim (Bool-cases (ltb start p)) [
  | inl b ↦ ltb→lt start p b
  | inr b ↦
      let same : p ≡ start = ground (arith, not-ltb start p b) in
      ground (
        arith,
        e,
        Follows-follow events start sequence end
            (subst (λ k. Follows events 0 k sequence end) same f),
      )
]

count_from-positive :
    (fuel : ℕ) (events : List Fields) (first : Fields) (sequence : List Fields) (cursor p end : ℕ)
    → length events ≤ cursor + fuel
    → cursor ≤ p
    → matches_at events p first ≡ true
    → Follows events 0 p sequence end
    → (found : Repeats) × (count_from fuel events first sequence 0 cursor ≡ some found)
      × (1 ≤ found.0)
unfolding count_from
count_from-positive zero events first sequence cursor p end b l m f =
    ground (arith, matches_at-lt events p first m)
count_from-positive (suc fuel) events first sequence cursor p end b l m f =
    let (start, e, before) =
      find_match-first events first cursor (length events - cursor) p l
        (omega (arith, matches_at-lt events p first m)) m in
    let from = find_match-some events first cursor (length events - cursor) start e in
    elim (Option-cases (follow events 0 start sequence)) [
      | inr (stop, e') ↦
          let len =
            Follows-length events 0 start sequence stop (matches_at-lt events start first from.2)
              (follow-Follows events 0 start sequence stop e') in
          let (found, ef, n, are, fits) =
            count_from-AreSpans fuel events first sequence 0 (suc stop)
              (omega (arith, from.0, len.0)) in
          (
            (suc found.0, (start, stop) ∷ found.1),
            count_from-found fuel events first sequence 0 cursor start stop found e e' ef,
            omega arith,
          )
      | inl e' ↦
          let behind = missed_before events sequence start p end before f e' in
          let (found, ef, n) =
            count_from-positive fuel events first sequence (suc start) p end (omega (arith, from.0))
              behind m f in
          (found, count_from-missed fuel events first sequence 0 cursor start e e' ∙ ef, n)
    ]

-- Where no gap is allowed, a sequence that occurs in the events is counted at least once.
pub count_sequence_repeats-positive :
    (events : List Fields) (first : Fields) (sequence : List Fields) (start end : ℕ)
    → matches_at events start first ≡ true
    → Follows events 0 start sequence end
    → (found : Repeats) × (count_sequence_repeats events (first ∷ sequence) 0 ≡ some found)
      × (1 ≤ found.0)
unfolding count_sequence_repeats
count_sequence_repeats-positive events first sequence start end m f =
    count_from-positive (length events) events first sequence 0 start end (omega arith)
      (omega arith) m f
