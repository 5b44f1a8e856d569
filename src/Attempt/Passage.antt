-- ===== src/Attempt/Passage.antt =====
-- What a validated stage history says about the stages that an attempt went through.
use taint_forge_io_t.Attempt.Records.{
  AttemptResult, StageTransition, Timestamp, validate_chain, validate_result, validate_transition,
}
use taint_forge_io_t.Attempt.Stages.{
  ExecutionStage, allowed, reconstruction, same_stage, same_stage→eq, stage_rank, static_preflight,
}
use taint_forge_io_t.Prelude.{
  All, Bool, List, Option, String, [], ap, arith, inl, inr, ok, true, ℕ, ◌+◌, ◌||◌, ◌∷◌, ◌≡◌, ◌≢◌,
  ◌≤◌, ◌⊎◌,
}

-- The stages of a history: the initial one, then the target of each transition.
abbrev pub visits : ExecutionStage → ExecutionStage → List StageTransition → Bool
visits s initial [] = same_stage s initial
visits s initial (t ∷ ts) = same_stage s initial || visits s t.to_stage ts

abbrev pub AllAllowed : List StageTransition → Type 0
AllAllowed = All (λ t. allowed t.from_stage t.to_stage ≡ true)

-- One transition climbs by one rank at most, or ends in reconstruction.
climb_by_one :
    (a b : ExecutionStage)
    → allowed a b ≡ true
    → (stage_rank b ≤ stage_rank a + 1) ⊎ (b ≡ reconstruction)
unfolding allowed stage_rank
climb_by_one a b h = ground arith

validate_chain-tail :
    (s final : ExecutionStage) (n : ℕ) (t : StageTransition) (ts : List StageTransition)
    → validate_chain s n (t ∷ ts) final ≡ ok tt
    → (t.from_stage ≡ s) × (validate_chain t.to_stage (n + 1) ts final ≡ ok tt)
unfolding validate_chain
validate_chain-tail s final n t ts h = ground (arith, same_stage→eq t.from_stage s)

no_way_out : (s : ExecutionStage) → allowed reconstruction s ≡ true → ⊥
unfolding allowed
no_way_out s h = ground arith

-- Nothing follows reconstruction.
reconstruction_is_last :
    (n : ℕ) (ts : List StageTransition) (final : ExecutionStage)
    → AllAllowed ts
    → validate_chain reconstruction n ts final ≡ ok tt
    → final ≡ reconstruction
unfolding validate_chain
reconstruction_is_last n [] final a h = ground (arith, same_stage→eq reconstruction final)
reconstruction_is_last n (t ∷ ts) final a h =
    let (from, _) = validate_chain-tail reconstruction final n t ts h in
    absurd (no_way_out t.to_stage (rw from at a.0))

-- A stage between the first and the last stage of a history has been visited.
passage :
    (s initial final : ExecutionStage) (n : ℕ) (ts : List StageTransition)
    → AllAllowed ts
    → validate_chain initial n ts final ≡ ok tt
    → final ≢ reconstruction
    → stage_rank initial ≤ stage_rank s
    → stage_rank s ≤ stage_rank final
    → visits s initial ts ≡ true
unfolding same_stage validate_chain
passage s initial final n [] a h f lo hi = ground (arith, same_stage→eq initial final)
passage s initial final n (t ∷ ts) a h f lo hi =
    let (from, rest) = validate_chain-tail initial final n t ts h in
    elim (climb_by_one t.from_stage t.to_stage a.0) [
      | inl near ↦
          ground (arith, ap stage_rank from, passage s t.to_stage final (n + 1) ts a.1 rest f)
      | inr e ↦ absurd (f (reconstruction_is_last (n + 1) ts final a.1 (rw e at rest)))
    ]

module _ (fromisoformat : String → Option Timestamp) where
  abbrev pub IsValidResult : AttemptResult → Type 0
  IsValidResult r =
      (validate_result fromisoformat r ≡ ok tt)
      × All (λ t. validate_transition fromisoformat t ≡ ok tt) r.transitions

  AllAllowed-of_valid :
      (ts : List StageTransition)
      → All (λ t. validate_transition fromisoformat t ≡ ok tt) ts
      → AllAllowed ts
  unfolding validate_transition
  AllAllowed-of_valid [] h = tt
  AllAllowed-of_valid (t ∷ ts) h = (ground arith, AllAllowed-of_valid ts h.1)

  chain_of_valid :
      (r : AttemptResult)
      → validate_result fromisoformat r ≡ ok tt
      → validate_chain r.initial_stage 0 r.transitions r.final_stage ≡ ok tt
  unfolding validate_result
  chain_of_valid r h = ground arith

  -- A result that passes the checks of its records, and whose attempt starts at the preflight and
  -- ends in the fuzzing stage, has gone through the validation of the entry point and through the
  -- boundary search: each stage up to `fuzzing` is among the stages of its history.
  pub fuzzing_passes_stages :
      (r : AttemptResult) (s : ExecutionStage)
      → IsValidResult r
      → r.initial_stage ≡ static_preflight
      → r.final_stage ≡ ExecutionStage.fuzzing
      → s ≢ ExecutionStage.reconstruction
      → visits s r.initial_stage r.transitions ≡ true
  unfolding stage_rank
  fuzzing_passes_stages r s v from to other =
      passage s r.initial_stage r.final_stage 0 r.transitions
        (AllAllowed-of_valid r.transitions v.1) (chain_of_valid r v.0) (λ e. ground arith)
        (rw from (ground arith)) (rw to (ground arith))
