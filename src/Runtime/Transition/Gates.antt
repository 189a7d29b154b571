-- ===== src/Runtime/Transition/Gates.antt =====
-- What a case cannot reach by `transition` of state_machine.py while a gate stays shut.
use native.Mathlib.Decide.{dec_lt}
use human_cos_fft1_trial.Prelude.{
  nat_eq, string_eq, bool_eq, option_eq, list_eq, pair_eq, List, [], arith, inl, inr, refl, some,
  subst, true, ℕ, ◌+◌, ◌∙◌, ◌≡◌, ◌≢◌, ◌≤◌, ◌⊎◌,
}
use human_cos_fft1_trial.Runtime.Graph.Edges.{Edge, HistoricalEdge}
use human_cos_fft1_trial.Runtime.Guards.{GuardFacts}
use human_cos_fft1_trial.Runtime.States.{
  mode_eq, state_eq, CaseMode, GateOutcome, RuntimeState, blind_judging, case_created,
  domain_independent_run, domain_output_frozen, final_synthesis, historical_blind_eval,
  human_review, live_foresight, mechanism_benchmark, scenario_stress_test, state_of_place,
  state_place, track_output_frozen,
}
use human_cos_fft1_trial.Runtime.Transition.{key_eq, CaseRuntimePosition, TransitionKey}
use human_cos_fft1_trial.Runtime.Transition.Decision.{GuardsHold}
use human_cos_fft1_trial.Runtime.Transition.Reach.{Passed, Reach, Reach-keeps}

-- With no activated edge a case stays before the cognitive stages, whatever facts are supplied.
pub Reach-native :
    (Supplied : GuardFacts → Type 0) {start p : CaseRuntimePosition}
    → start.state ≡ case_created
    → Reach Supplied [] start p
    → state_place p.state ≤ 3
Reach-native Supplied e =
    Reach-keeps Supplied [] (λ p. state_place p.state ≤ 3) native_step (rw e (omega arith))
  where
    native_step :
        (p q : CaseRuntimePosition)
        → state_place p.state ≤ 3
        → Passed Supplied [] p q
        → state_place q.state ≤ 3
    native_step p q h passed = elim passed.may [ inl near ↦ omega arith | inr far ↦ elim far [ ] ]

-- The facts that the guarded edges ask for.
abbrev pub RunsReady : GuardFacts → Type 0
RunsReady facts =
    (facts.all_required_runs_finished ≡ some true)
    × (facts.no_unresolved_protocol_invalid ≡ some true)

abbrev pub ReviewReady : GuardFacts → Type 0
ReviewReady facts =
    (facts.claim_provenance_passed ≡ some true)
    × (facts.falsification_contract_present ≡ some true)
    × (facts.high_impact_dissent_recorded ≡ some true)
    × (facts.safety_status_valid ≡ some true)

abbrev pub JudgingReady : GuardFacts → Type 0
JudgingReady facts =
    (facts.contamination_gate ≡ some GateOutcome.pass)
    × (facts.parity_guard ≡ some GateOutcome.pass)

abbrev pub Lacks : (GuardFacts → Type 0) → GuardFacts → Type 0
Lacks Ready facts = ¬ Ready facts

-- The modes that walk the common sequence.
abbrev pub IsForward : CaseMode → Type 0
IsForward mode = mode ≢ historical_blind_eval

forward-Edge :
    (mode : CaseMode)
    → IsForward mode
    → (s t : RuntimeState) → Edge mode s t
    → state_place s ≤ 17
    → state_place t ≡ state_place s + 1
forward-Edge historical_blind_eval f s t e h = absurd (f refl)
forward-Edge live_foresight f s t e h = ground arith
forward-Edge mechanism_benchmark f s t e h = e.0
forward-Edge scenario_stress_test f s t e h = e.0

-- A guarded edge, known by the places of its ends.
guards_at :
    (s' t' s t : RuntimeState) (facts : GuardFacts)
    → state_place s ≡ state_place s'
    → state_place t ≡ state_place t'
    → GuardsHold s t facts
    → GuardsHold s' t' facts
guards_at s' t' s t facts e f h =
    subst (λ x. GuardsHold s' x facts) (state_of_place t t' f)
      (subst (λ x. GuardsHold x t facts) (state_of_place s s' e) h)

module _ (authorized : List TransitionKey) where
  -- A case of the common sequence that has not come past `bound`.
  abbrev Before : ℕ → CaseRuntimePosition → Type 0
  Before bound p = IsForward p.mode × (state_place p.state ≤ bound)

  module _ (Ready : GuardFacts → Type 0) (bound : ℕ) (low : bound ≤ 17)
      (gate : (s t : RuntimeState) (facts : GuardFacts)
        → state_place s ≡ bound
        → state_place t ≡ bound + 1
        → GuardsHold s t facts
        → Ready facts) where
    Before-step :
        (p q : CaseRuntimePosition)
        → Before bound p
        → Passed (Lacks Ready) authorized p q
        → Before bound q
    Before-step p q (f, h) passed = (
      rw passed.same_mode f,
      (let on = forward-Edge p.mode f p.state q.state passed.edge (omega arith) in
          elim (dec_lt (state_place p.state) bound) [
            | yes inside ↦ omega arith
            | no last ↦ absurd (
                passed.supplied
                  (gate p.state q.state passed.facts (omega arith) (omega arith) passed.guards))
          ]),
    )

    Reach-before :
        {start p : CaseRuntimePosition}
        → IsForward start.mode
        → start.state ≡ case_created
        → Reach (Lacks Ready) authorized start p
        → state_place p.state ≤ bound
    Reach-before f e r =
        (Reach-keeps (Lacks Ready) authorized (Before bound) Before-step (f, rw e (omega arith))
          r).1

-- While no caller supplies the two facts on the runs, no case of the common sequence comes past its
-- independent domain run, whatever edges are activated.
pub Reach-runs :
    (authorized : List TransitionKey) {start p : CaseRuntimePosition}
    → IsForward start.mode
    → start.state ≡ case_created
    → Reach (Lacks RunsReady) authorized start p
    → state_place p.state ≤ 7
Reach-runs authorized =
    Reach-before authorized RunsReady 7 (omega arith)
      (λ s t facts. guards_at domain_independent_run domain_output_frozen s t facts)

-- While no caller supplies the four facts of the review, no case of the common sequence comes past
-- its final synthesis, whatever edges are activated.
pub Reach-review :
    (authorized : List TransitionKey) {start p : CaseRuntimePosition}
    → IsForward start.mode
    → start.state ≡ case_created
    → Reach (Lacks ReviewReady) authorized start p
    → state_place p.state ≤ 16
Reach-review authorized =
    Reach-before authorized ReviewReady 16 (omega arith)
      (λ s t facts. guards_at final_synthesis human_review s t facts)

abbrev Unjudged : ℕ → Type 0
Unjudged place = (place ≤ 2) ⊎ ((19 ≤ place) × (place ≤ 23))

Unjudged-edge : (s t : ℕ) → Unjudged s → HistoricalEdge s t → Unjudged t ⊎ ((s ≡ 23) × (t ≡ 24))
Unjudged-edge s t u e = ground arith

module _ (authorized : List TransitionKey) where
  Unjudged-step :
      (p q : CaseRuntimePosition)
      → (p.mode ≡ historical_blind_eval) × Unjudged (state_place p.state)
      → Passed (Lacks JudgingReady) authorized p q
      → (q.mode ≡ historical_blind_eval) × Unjudged (state_place q.state)
  Unjudged-step p q (m, u) passed = (
    passed.same_mode ∙ m,
    elim (Unjudged-edge (state_place p.state) (state_place q.state) u
        (subst (λ mode. Edge mode p.state q.state) m passed.edge)) [
          | inl inside ↦ inside
          | inr (e, f) ↦ absurd (
              passed.supplied (
                guards_at track_output_frozen blind_judging p.state q.state passed.facts e f
                  passed.guards))
        ],
  )

  -- While no caller supplies two passed gates, a blind evaluation is neither judged nor revealed,
  -- decided or sealed: it is in its evidence stages or in the stages up to the frozen track output.
  pub Reach-judging :
      {start p : CaseRuntimePosition}
      → start.mode ≡ historical_blind_eval
      → start.state ≡ case_created
      → Reach (Lacks JudgingReady) authorized start p
      → Unjudged (state_place p.state)
  Reach-judging m e r =
      (Reach-keeps (Lacks JudgingReady) authorized
        (λ p. (p.mode ≡ historical_blind_eval) × Unjudged (state_place p.state)) Unjudged-step
        (m, rw e (inl (omega arith))) r).1
