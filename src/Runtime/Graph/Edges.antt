-- ===== src/Runtime/Graph/Edges.antt =====
-- The transition graphs against the diagram of the Case modes, written by the places of the states
-- in their declaration: 0 is `CASE_CREATED`, 18 is `SEALED`, 27 is `MONITORING`.
use human_cos_fft1_trial.Prelude.{
  nat_eq, string_eq, bool_eq, option_eq, list_eq, pair_eq, arith, contains, true, ℕ, ◌+◌, ◌↔◌, ◌≡◌,
  ◌≤◌, ◌⊎◌,
}
use human_cos_fft1_trial.Runtime.Graph.{structural_targets}
use human_cos_fft1_trial.Runtime.States.{
  mode_eq, state_eq, CaseMode, RuntimeState, case_created, historical_blind_eval, live_foresight,
  mechanism_benchmark, scenario_stress_test, state_place,
}

-- The common sequence: each state leads to the next one, up to `SEALED`.
abbrev pub CommonEdge : ℕ → ℕ → Type 0
CommonEdge s t = (t ≡ s + 1) × (t ≤ 18)

-- The cycle of a live case, which begins behind the seal.
abbrev pub LiveEdge : ℕ → ℕ → Type 0
LiveEdge s t = ((s ≡ 18) × (t ≡ 27)) ⊎ ((27 ≤ s) × (s ≤ 31) × (t ≡ s + 1)) ⊎ ((s ≡ 32) × (t ≡ 27))

-- The blind evaluation: evidence (0 to 2), precheck (19, 20), one of two tracks (21, 22), freeze,
-- judging, reveal and decision (23 to 26), seal (18).
abbrev pub HistoricalEdge : ℕ → ℕ → Type 0
HistoricalEdge s t =
    ((t ≡ s + 1) × (t ≤ 2))
    ⊎ ((s ≡ 2) × (t ≡ 19))
    ⊎ ((19 ≤ s) × (s ≤ 20) × (t ≡ s + 1))
    ⊎ ((s ≡ 20) × (t ≡ 22))
    ⊎ ((21 ≤ s) × (s ≤ 22) × (t ≡ 23))
    ⊎ ((23 ≤ s) × (s ≤ 25) × (t ≡ s + 1))
    ⊎ ((s ≡ 26) × (t ≡ 18))

abbrev PlaceEdge : CaseMode → ℕ → ℕ → Type 0
PlaceEdge historical_blind_eval = HistoricalEdge
PlaceEdge live_foresight = λ s t. CommonEdge s t ⊎ LiveEdge s t
PlaceEdge _ = CommonEdge

abbrev pub Edge : CaseMode → RuntimeState → RuntimeState → Type 0
Edge mode s t = PlaceEdge mode (state_place s) (state_place t)

abbrev Listed : CaseMode → RuntimeState → RuntimeState → Type 0
Listed mode s t = contains t (structural_targets mode s) ≡ true

historical_edges :
    (s t : RuntimeState) → Listed historical_blind_eval s t ↔ Edge historical_blind_eval s t
unfolding structural_targets
historical_edges case_created t = (λ h. ground arith, λ h. ground arith)
historical_edges _ t = (λ h. ground arith, λ h. ground arith)

live_edges : (s t : RuntimeState) → Listed live_foresight s t ↔ Edge live_foresight s t
unfolding structural_targets
live_edges case_created t = (λ h. ground arith, λ h. ground arith)
live_edges _ t = (λ h. ground arith, λ h. ground arith)

common_edges : (s t : RuntimeState) → Listed mechanism_benchmark s t ↔ Edge mechanism_benchmark s t
unfolding structural_targets
common_edges case_created t = (λ h. ground arith, λ h. ground arith)
common_edges _ t = (λ h. ground arith, λ h. ground arith)

-- A state is among the structural successors of another exactly when the diagram of the Case mode
-- has an edge between them.
pub structural_targets_iff :
    (mode : CaseMode) (s t : RuntimeState)
    → (contains t (structural_targets mode s) ≡ true) ↔ Edge mode s t
unfolding structural_targets
structural_targets_iff historical_blind_eval s t = historical_edges s t
structural_targets_iff live_foresight s t = live_edges s t
structural_targets_iff mechanism_benchmark s t = common_edges s t
structural_targets_iff scenario_stress_test s t = common_edges s t
