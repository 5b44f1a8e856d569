-- ===== src/Target/Sequence.antt =====
-- `_matches`, `_find_match` and `_count_sequence_repeats`. An event is the object that was read. The
-- `while` loop runs on fuel, one unit for each event: the cursor grows at each turn.
use Prim.Native.Nat.{min}
use taint_forge_io_t.Prelude.{
  Bool, Fields, List, Option, [], end_fields, false, field, get, get_elem?, if◌then◌else◌, length,
  ltb, none, option_then, some, suc, true, zero, ℕ, ◌&&◌, ◌+◌, ◌-◌, ◌∷◌,
}
use taint_forge_io_t.Target.Equality.{scalar_eq}

-- `all(event.get(key) == value for key, value in where.items())`
abbrev pub matches : Fields → Fields → Bool
matches event end_fields = true
matches event (field k v wanted) = scalar_eq (get k event) v && matches event wanted

abbrev pub matches_at : List Fields → ℕ → Fields → Bool
matches_at events i expected = elim (get_elem? events i) [
  | none ↦ false
  | some event ↦ matches event expected
]

-- `for index in range(start, start + n)`
unfoldable pub find_match : List Fields → Fields → ℕ → ℕ → Option ℕ
find_match events expected start zero = none
find_match events expected start (suc n) =
    let rest = find_match events expected (suc start) n in
    if matches_at events start expected then some start else rest

-- The inner loop: where the rest of the sequence ends, if it follows `previous`.
unfoldable pub follow : List Fields → ℕ → ℕ → List Fields → Option ℕ
unfolding find_match
follow events max_gap previous [] = some previous
follow events max_gap previous (expected ∷ sequence) =
    let upper = min (length events) (previous + max_gap + 2) in
    option_then (find_match events expected (suc previous) (upper - suc previous))
      (λ found. follow events max_gap found sequence)

-- `repeats` and `spans`
abbrev pub Repeats : Type 0
Repeats = ℕ × List (ℕ × ℕ)

abbrev pub add_span : ℕ → ℕ → Option Repeats → Option Repeats
add_span start end none = none
add_span start end (some found) = some (suc found.0, (start, end) ∷ found.1)

-- `none` where the fuel does not last.
unfoldable pub count_from : ℕ → List Fields → Fields → List Fields → ℕ → ℕ → Option Repeats
unfolding find_match follow
count_from zero events first sequence max_gap cursor =
    if ltb cursor (length events) then none else some (0, [])
count_from (suc fuel) events first sequence max_gap cursor =
    elim (find_match events first cursor (length events - cursor)) [
      | none ↦ some (0, [])
      | some start ↦ elim (follow events max_gap start sequence) [
        | none ↦ count_from fuel events first sequence max_gap (suc start)
        | some end ↦ add_span start end (count_from fuel events first sequence max_gap (suc end))
      ]
    ]

-- A sequence is not empty.
unfoldable pub count_sequence_repeats : List Fields → List Fields → ℕ → Option Repeats
unfolding count_from
count_sequence_repeats events [] max_gap = none
count_sequence_repeats events (first ∷ sequence) max_gap =
    count_from (length events) events first sequence max_gap 0
