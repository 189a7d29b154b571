-- ===== src/Runtime/Transition/Progress.antt =====
-- How far a case comes by `transition` of state_machine.py: the accepted changes are counted, and the
-- states on the way are listed.
use human_cos_fft1_trial.Prelude.{
  nat_eq, string_eq, bool_eq, option_eq, list_eq, pair_eq, List, [], ap, arith, if◌then◌else◌, inl,
  inr, leb, refl, subst, suc, sym, take, ℕ, ◌++◌, ◌+◌, ◌-◌, ◌∙◌, ◌∷◌, ◌≡◌, ◌≤◌, ◌⊎◌,
}
use human_cos_fft1_trial.Runtime.Graph.Edges.{CommonEdge, Edge, HistoricalEdge}
use human_cos_fft1_trial.Runtime.Guards.{GuardFacts}
use human_cos_fft1_trial.Runtime.States.{
  mode_eq, state_eq, CaseMode, RuntimeState, case_created, every_state, historical_blind_eval,
  mechanism_benchmark, scenario_stress_test, state_member, state_member_place, state_place,
  updated_record,
}
use human_cos_fft1_trial.Runtime.Transition.{key_eq, CaseRuntimePosition, TransitionKey}
use human_cos_fft1_trial.Runtime.Transition.Reach.{Reach, Reach-fixed, Step-Passed, here, next}

-- The modes that end with the seal.
abbrev pub EndsSealed : CaseMode → Type 0
EndsSealed mode = (mode ≡ mechanism_benchmark) ⊎ (mode ≡ scenario_stress_test)

module _ (Supplied : GuardFacts → Type 0) (authorized : List TransitionKey)
    {start : CaseRuntimePosition} where
  unfoldable pub steps : {p : CaseRuntimePosition} → Reach Supplied authorized start p → ℕ
  steps here = 0
  steps (next r step) = suc (steps r)

  -- The states of a case, from its start to its present one.
  unfoldable pub trail :
      {p : CaseRuntimePosition} → Reach Supplied authorized start p → List RuntimeState
  trail here = start.state ∷ []
  trail (next {p} {q} r step) = trail r ++ q.state ∷ []

common_of_EndsSealed :
    (mode : CaseMode)
    → EndsSealed mode
    → (s t : RuntimeState) → Edge mode s t
    → CommonEdge (state_place s) (state_place t)
common_of_EndsSealed mode (inl m) s t e = subst (λ x. Edge x s t) m e
common_of_EndsSealed mode (inr m) s t e = subst (λ x. Edge x s t) m e

take_member :
    (s : RuntimeState)
    → state_place s ≤ 17
    → let t = state_member (state_place s + 1) in
      take (state_place s + 1) every_state ++ t ∷ [] ≡ take (state_place t + 1) every_state
take_member case_created h = refl
take_member updated_record h = absurd (omega arith)
take_member _ h = refl

take_next :
    (s t : RuntimeState)
    → CommonEdge (state_place s) (state_place t)
    → take (state_place s + 1) every_state ++ t ∷ [] ≡ take (state_place t + 1) every_state
take_next s t (e, h) =
    let same : t ≡ state_member (state_place s + 1) =
      sym (state_member_place t) ∙ ap state_member e in
    subst
      (λ x. take (state_place s + 1) every_state ++ x ∷ [] ≡ take (state_place x + 1) every_state)
      (sym same) (take_member s (omega arith))

-- The number of the place in the stages of a blind evaluation.
abbrev pub stage : ℕ → ℕ
stage place =
    if leb place 2
    then place
    else if leb place 18
    then 10
    else if leb place 21
    then place - 16
    else place - 17

stage_step : (s t : ℕ) → HistoricalEdge s t → (stage t ≡ stage s + 1) × (stage t ≤ 10)
stage_step s t e = (ground arith, ground arith)

module _ (Supplied : GuardFacts → Type 0) (authorized : List TransitionKey)
    {start : CaseRuntimePosition} where
  -- In the modes that end with the seal the states of a case are a prefix of the common sequence, as
  -- long as the place of the present state says: none is skipped, repeated or reordered.
  pub trail_lem :
      EndsSealed start.mode
      → start.state ≡ case_created
      → {p : CaseRuntimePosition} → (r : Reach Supplied authorized start p)
      → trail Supplied authorized r ≡ take (state_place p.state + 1) every_state
  unfolding trail
  trail_lem m e here = rw e
  trail_lem m e (next {p} {q} r step) =
      let passed = Step-Passed Supplied authorized step in
      let fixed = Reach-fixed Supplied authorized r in
      let mode : EndsSealed p.mode = rw fixed.0 m in
      let on = common_of_EndsSealed p.mode mode p.state q.state passed.edge in
      rw (trail_lem m e r) (take_next p.state q.state on)

  -- A blind evaluation has as many accepted changes behind it as its stage says, at most ten.
  pub steps-historical :
      start.mode ≡ historical_blind_eval
      → start.state ≡ case_created
      → {p : CaseRuntimePosition} → (r : Reach Supplied authorized start p)
      → (steps Supplied authorized r ≡ stage (state_place p.state))
        × (steps Supplied authorized r ≤ 10)
  unfolding steps
  steps-historical m e here = rw e (refl, omega arith)
  steps-historical m e (next {p} {q} r step) =
      let passed = Step-Passed Supplied authorized step in
      let fixed = Reach-fixed Supplied authorized r in
      let edge = subst (λ mode. Edge mode p.state q.state) (fixed.0 ∙ m) passed.edge in
      let before = steps-historical m e r in
      let (counted, bounded) = stage_step (state_place p.state) (state_place q.state) edge in
      (omega arith, omega arith)
