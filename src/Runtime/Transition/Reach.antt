-- ===== src/Runtime/Transition/Reach.antt =====
-- The positions that a case reaches by `transition` of state_machine.py, one accepted change after
-- another. `Supplied` says what is known of the facts that the callers supply, and `authorized`
-- which future edges they may activate.
use human_cos_fft1_trial.Prelude.{
  nat_eq, string_eq, bool_eq, option_eq, list_eq, pair_eq, List, Option, String, keep, refl,
  returned, sym, value_or, ◌∙◌, ◌≡◌,
}
use human_cos_fft1_trial.Runtime.Graph.Edges.{Edge}
use human_cos_fft1_trial.Runtime.Guards.{GuardFacts, no_facts}
use human_cos_fft1_trial.Runtime.States.{mode_eq, state_eq, RuntimeState}
use human_cos_fft1_trial.Runtime.Transition.{
  key_eq, CaseRuntimePosition, TransitionKey, TransitionResult, transition,
}
use human_cos_fft1_trial.Runtime.Transition.Change.{transition-eq-returned}
use human_cos_fft1_trial.Runtime.Transition.Decision.{Authorized, GuardsHold, can_transition_iff}

pub record Step (Supplied : GuardFacts → Type 0) (authorized : List TransitionKey)
    (p q : CaseRuntimePosition) : Type 0 where
  pub target : RuntimeState
  pub facts : Option GuardFacts
  pub version : String
  pub result : TransitionResult
  pub supplied : Supplied (value_or facts no_facts)
  pub moved : transition p target facts authorized version ≡ returned result
  pub reached : result.position ≡ q

pub data Reach (Supplied : GuardFacts → Type 0) (authorized : List TransitionKey)
    (start : CaseRuntimePosition) : CaseRuntimePosition → Type 0 where
  here : Reach Supplied authorized start start
  next :
      {p q : CaseRuntimePosition}
      → Reach Supplied authorized start p
      → Step Supplied authorized p q
      → Reach Supplied authorized start q

abbrev pub AnyFacts : GuardFacts → Type 0
AnyFacts facts = Unit

module _ (Supplied : GuardFacts → Type 0) (authorized : List TransitionKey) where
  -- What an accepted change has been through.
  pub record Passed (p q : CaseRuntimePosition) : Type 0 where
    pub same_mode : q.mode ≡ p.mode
    pub same_revision : q.case_revision ≡ p.case_revision
    pub edge : Edge p.mode p.state q.state
    pub may : Authorized p q.state authorized
    pub facts : GuardFacts
    pub supplied : Supplied facts
    pub guards : GuardsHold p.state q.state facts

  pub Step-Passed : {p q : CaseRuntimePosition} → Step Supplied authorized p q → Passed p q
  Step-Passed {p} {q} step =
      let (allows, position) =
        transition-eq-returned p step.target step.facts authorized step.version step.moved in
      let all = (can_transition_iff p step.target step.facts authorized step.version).0 allows in
      let here_q : q ≡ record p { state = step.target } = sym step.reached ∙ position in
      rw here_q (record {
        same_mode = refl;
        same_revision = refl;
        edge = all.1;
        may = all.2;
        facts = value_or step.facts no_facts;
        supplied = step.supplied;
        guards = all.3;
      })

  -- A case keeps its mode and its revision.
  pub Reach-fixed :
      {start p : CaseRuntimePosition}
      → Reach Supplied authorized start p
      → (p.mode ≡ start.mode) × (p.case_revision ≡ start.case_revision)
  Reach-fixed here = (refl, refl)
  Reach-fixed (next r step) =
      let before = Reach-fixed r in
      let passed = Step-Passed step in
      (passed.same_mode ∙ before.0, passed.same_revision ∙ before.1)

  -- What every accepted change keeps holds of every position that is reached.
  pub Reach-keeps :
      (P : CaseRuntimePosition → Type 0)
      → ((p q : CaseRuntimePosition) → P p → Passed p q → P q)
      → {start p : CaseRuntimePosition} → P start
      → Reach Supplied authorized start p
      → P p
  Reach-keeps P keep h here = h
  Reach-keeps P keep h (next {p} {q} r step) = keep p q (Reach-keeps P keep h r) (Step-Passed step)
