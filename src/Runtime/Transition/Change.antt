-- ===== src/Runtime/Transition/Change.antt =====
-- `transition` of state_machine.py against `can_transition`.
use human_cos_fft1_trial.Prelude.{
  nat_eq, string_eq, bool_eq, option_eq, list_eq, pair_eq, List, Option, String, arith,
  if◌then◌else◌, raised, returned, ◌≡◌, ◌≢◌, ◌≤◌,
}
use human_cos_fft1_trial.Runtime.Guards.{GuardFacts}
use human_cos_fft1_trial.Runtime.States.{mode_eq, state_eq, RuntimeState}
use human_cos_fft1_trial.Runtime.Transition.{
  key_eq, CaseRuntimePosition, TransitionDecision, TransitionKey, TransitionResult, can_transition,
  case_runtime_position, transition, transition_rejected,
}
use human_cos_fft1_trial.Runtime.Transition.Decision.{Allows, can_transition_total}

module _ (position : CaseRuntimePosition) (target : RuntimeState) (guard_facts : Option GuardFacts)
    (authorized : List TransitionKey) (version : String) where
  -- With a protocol version there is a decision, and the change follows it: an allowed change moves
  -- the state to the target and keeps mode and revision, any other is rejected with the decision.
  pub transition_lem :
      1 ≤ position.case_revision
      → version ≢ ""
      → (d : TransitionDecision) × (can_transition position target guard_facts authorized version
          ≡ returned d)
        × (transition position target guard_facts authorized version ≡ (
            if d.allowed
            then returned (record { position = record position { state = target }; decision = d })
            else raised (transition_rejected d)))
  unfolding transition case_runtime_position
  transition_lem h v =
      let (d, e) = can_transition_total position target guard_facts authorized version v in
      (d, e, ground arith)

  -- A change that succeeds was allowed.
  pub transition-eq-returned :
      {result : TransitionResult}
      → transition position target guard_facts authorized version ≡ returned result
      → Allows (can_transition position target guard_facts authorized version)
        × (result.position ≡ record position { state = target })
  unfolding transition case_runtime_position
  transition-eq-returned e = (ground arith, ground arith)
