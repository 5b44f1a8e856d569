-- ===== src/Target/Spans.antt =====
-- The spans that the count of a sequence finds.
use Prim.Native.Nat.{min}
use mathlib.Core.Path.{subst}
use taint_forge_io_t.Prelude.{
  Bool-cases, Fields, List, Option-cases, [], ap, arith, if◌then◌else◌, inl, inr, le-ltb, length,
  none, option_then-some, refl, some, some-inj, suc, true, zero, ℕ, ◌*◌, ◌+◌, ◌-◌, ◌<◌, ◌∙◌, ◌∷◌,
  ◌≡◌, ◌≤◌,
}
use taint_forge_io_t.Target.Sequence.{
  Repeats, count_from, count_sequence_repeats, find_match, follow, matches_at,
}

-- The events at `previous` and behind it that the sequence is matched with, up to `end`.
abbrev pub Follows : List Fields → ℕ → ℕ → List Fields → ℕ → Type 0
Follows events max_gap previous [] end = previous ≡ end
Follows events max_gap previous (expected ∷ sequence) end =
    (found : ℕ) × (previous < found)
    × (found ≤ previous + max_gap + 1)
    × (matches_at events found expected ≡ true)
    × Follows events max_gap found sequence end

-- Spans one behind the other, from the cursor on, each an occurrence of the sequence.
abbrev pub AreSpans : List Fields → Fields → List Fields → ℕ → ℕ → List (ℕ × ℕ) → Type 0
AreSpans events first sequence max_gap cursor [] = Unit
AreSpans events first sequence max_gap cursor ((start, end) ∷ spans) =
    (cursor ≤ start)
    × (matches_at events start first ≡ true)
    × Follows events max_gap start sequence end
    × AreSpans events first sequence max_gap (suc end) spans

pub matches_at-lt :
    (events : List Fields) (i : ℕ) (w : Fields) → matches_at events i w ≡ true → i < length events
matches_at-lt [] i w h = ground arith
matches_at-lt (e ∷ events) zero w h = omega arith
matches_at-lt (e ∷ events) (suc i) w h = omega (arith, matches_at-lt events i w h)

pub find_match-some :
    (events : List Fields) (w : Fields) (start n i : ℕ)
    → find_match events w start n ≡ some i
    → (start ≤ i) × (i < start + n) × (matches_at events i w ≡ true)
unfolding find_match
find_match-some events w start zero i h = cc
find_match-some events w start (suc n) i h = elim (Bool-cases (matches_at events start w)) [
  | inl m ↦
      let e =
        some-inj (
          subst (λ b. (if b then some start else find_match events w (suc start) n) ≡ some i) m
            h) in
      (omega (arith, e), omega (arith, e), subst (λ j. matches_at events j w ≡ true) e m)
  | inr m ↦
      let r =
        find_match-some events w (suc start) n i (
          subst (λ b. (if b then some start else find_match events w (suc start) n) ≡ some i) m
            h) in
      (omega (arith, r.0), omega (arith, r.1), r.2)
]

-- The first match is at or before any match.
pub find_match-first :
    (events : List Fields) (w : Fields) (start n p : ℕ)
    → start ≤ p
    → p < start + n
    → matches_at events p w ≡ true
    → (i : ℕ) × (find_match events w start n ≡ some i) × (i ≤ p)
unfolding find_match
find_match-first events w start zero p hs hp m = ground arith
find_match-first events w start (suc n) p hs hp m = elim (Bool-cases (matches_at events start w)) [
  | inl b ↦ (start, rw b refl, hs)
  | inr b ↦
      let r =
        find_match-first events w (suc start) n p
          (ground (arith, m, b, ap (λ i. matches_at events i w))) (omega arith) m in
      (r.0, rw b (r.1), r.2)
]

pub follow-Follows :
    (events : List Fields) (max_gap previous : ℕ) (sequence : List Fields) (end : ℕ)
    → follow events max_gap previous sequence ≡ some end
    → Follows events max_gap previous sequence end
unfolding follow
follow-Follows events g previous [] end h = some-inj h
follow-Follows events g previous (w ∷ ws) end h =
    let (i, e, k) =
      option_then-some
        (find_match events w (suc previous) (min (length events) (previous + g + 2) - suc previous))
        _ h in
    let r = find_match-some events w (suc previous) _ i e in
    (i, omega (arith, r.0), ground (arith, r.1), r.2, follow-Follows events g i ws end k)

pub Follows-length :
    (events : List Fields) (g previous : ℕ) (sequence : List Fields) (end : ℕ)
    → previous < length events
    → Follows events g previous sequence end
    → (previous + length sequence ≤ end) × (end < length events)
Follows-length events g previous [] end l h = (omega (arith, h), omega (arith, h))
Follows-length events g previous (w ∷ ws) end l (i, lo, hi, m, h) =
    let r = Follows-length events g i ws end (matches_at-lt events i w m) h in
    (omega (arith, r.0), r.1)

spans_fit :
    (k n cursor start end total : ℕ)
    → cursor ≤ start
    → start + k ≤ end
    → end < total
    → n * suc k ≤ total - suc end
    → suc n * suc k ≤ total - cursor
spans_fit k n cursor start end total a b c d = grind arith

AreSpans-earlier :
    (events : List Fields) (first : Fields) (sequence : List Fields) (g cursor later : ℕ)
    (spans : List (ℕ × ℕ))
    → cursor ≤ later
    → AreSpans events first sequence g later spans
    → AreSpans events first sequence g cursor spans
AreSpans-earlier events first sequence g cursor later [] l h = h
AreSpans-earlier events first sequence g cursor later ((start, end) ∷ spans) l h =
    (omega (arith, h.0), h.1, h.2, h.3)

all_fit : (n total : ℕ) → n ≤ total - 0 → n ≤ total
all_fit n total h = omega arith

nothing_fits : (k m : ℕ) → 0 * suc k ≤ m
nothing_fits k m = omega arith

narrow_fits :
    (k n cursor start total : ℕ)
    → cursor ≤ start
    → n * k ≤ total - suc start
    → n * k ≤ total - cursor
narrow_fits k n cursor start total l h = omega (arith, l, h)

-- The ways of a turn in which the loop stops or skips one event.
count_from-none :
    (fuel : ℕ) (events : List Fields) (first : Fields) (sequence : List Fields) (g cursor : ℕ)
    → find_match events first cursor (length events - cursor) ≡ none
    → count_from (suc fuel) events first sequence g cursor ≡ some (0, [])
unfolding count_from
count_from-none fuel events first sequence g cursor e = rw (count_from, e) refl

pub count_from-missed :
    (fuel : ℕ) (events : List Fields) (first : Fields) (sequence : List Fields) (g cursor start : ℕ)
    → find_match events first cursor (length events - cursor) ≡ some start
    → follow events g start sequence ≡ none
    → count_from (suc fuel) events first sequence g cursor
      ≡ count_from fuel events first sequence g (suc start)
unfolding count_from
count_from-missed fuel events first sequence g cursor start e e' = rw (count_from, e, e') refl

pub count_from-found :
    (fuel : ℕ) (events : List Fields) (first : Fields) (sequence : List Fields)
    (g cursor start end : ℕ) (found : Repeats)
    → find_match events first cursor (length events - cursor) ≡ some start
    → follow events g start sequence ≡ some end
    → count_from fuel events first sequence g (suc end) ≡ some found
    → count_from (suc fuel) events first sequence g cursor
      ≡ some (suc found.0, (start, end) ∷ found.1)
unfolding count_from
count_from-found fuel events first sequence g cursor start end found e e' ef =
    rw (count_from, e, e', ef) refl

pub count_from-AreSpans :
    (fuel : ℕ) (events : List Fields) (first : Fields) (sequence : List Fields) (g cursor : ℕ)
    → length events ≤ cursor + fuel
    → (found : Repeats) × (count_from fuel events first sequence g cursor ≡ some found)
      × (found.0 ≡ length found.1)
      × AreSpans events first sequence g cursor found.1
      × (found.0 * suc (length sequence) ≤ length events - cursor)
unfolding count_from
count_from-AreSpans zero events first sequence g cursor l = (
  (0, []),
  rw (le-ltb cursor (length events) (omega arith)) refl,
  refl,
  tt,
  nothing_fits (length sequence) (length events - cursor),
)
count_from-AreSpans (suc fuel) events first sequence g cursor l =
    elim (Option-cases (find_match events first cursor (length events - cursor))) [
      | inl e ↦ (
        (0, []),
        count_from-none fuel events first sequence g cursor e,
        refl,
        tt,
        nothing_fits (length sequence) (length events - cursor),
      )
      | inr (start, e) ↦
          let m = find_match-some events first cursor _ start e in
          elim (Option-cases (follow events g start sequence)) [
            | inl e' ↦
                let (found, ef, n, are, fits) =
                  count_from-AreSpans fuel events first sequence g (suc start)
                    (omega (arith, m.0)) in
                (
                  found,
                  count_from-missed fuel events first sequence g cursor start e e' ∙ ef,
                  n,
                  AreSpans-earlier events first sequence g cursor (suc start) found.1
                      (omega (arith, m.0)) are,
                  narrow_fits (suc (length sequence)) found.0 cursor start (length events) m.0 fits,
                )
            | inr (end, e') ↦
                let fs = follow-Follows events g start sequence end e' in
                let len =
                  Follows-length events g start sequence end (matches_at-lt events start first m.2)
                    fs in
                let (found, ef, n, are, fits) =
                  count_from-AreSpans fuel events first sequence g (suc end)
                    (omega (arith, m.0, len.0)) in
                (
                  (suc found.0, (start, end) ∷ found.1),
                  count_from-found fuel events first sequence g cursor start end found e e' ef,
                  ap suc n,
                  (m.0, m.2, fs, are),
                  spans_fit (length sequence) found.0 cursor start end (length events) m.0 len.0
                      len.1 fits,
                )
          ]
    ]

-- The loop ends on the fuel given. It counts its spans; these are occurrences of the sequence, each
-- within the allowed gaps, in order and apart; and the repeats need no more events than there are.
pub count_sequence_repeats-AreSpans :
    (events : List Fields) (first : Fields) (sequence : List Fields) (max_gap : ℕ)
    → (found : Repeats) × (count_sequence_repeats events (first ∷ sequence) max_gap ≡ some found)
      × (found.0 ≡ length found.1)
      × AreSpans events first sequence max_gap 0 found.1
      × (found.0 * length (first ∷ sequence) ≤ length events)
unfolding count_sequence_repeats
count_sequence_repeats-AreSpans events first sequence max_gap =
    let (found, e, n, are, fits) =
      count_from-AreSpans (length events) events first sequence max_gap 0 (omega arith) in
    (found, e, n, are, all_fit (found.0 * suc (length sequence)) (length events) fits)
