-- ===== src/Runtime/Transition/Decision.antt =====
-- What the decision on a state change of state_machine.py says, on every branch.
use human_cos_fft1_trial.Prelude.{
  nat_eq, string_eq, bool_eq, option_eq, list_eq, pair_eq, ==_false_iff, Bool, Bool-cases, List,
  Memᴰ, Option, Outcome, Outcome-cases, String, any, arith, contains, contains_iff, false, if_ind,
  inl, inr, is_empty, not, raised, refl, refutes, returned, some, subst, true, value_or, ◌&&◌, ◌==◌,
  ◌||◌, ◌↔◌, ◌≡◌, ◌≢◌, ◌≤◌, ◌⊎◌,
}
use human_cos_fft1_trial.Prelude.Texts.{is_blank}
use human_cos_fft1_trial.Runtime.Graph.{native_targets, structural_targets}
use human_cos_fft1_trial.Runtime.Graph.Edges.{Edge, structural_targets_iff}
use human_cos_fft1_trial.Runtime.Guards.{GuardCheck, GuardFacts, guard_results, no_facts}
use human_cos_fft1_trial.Runtime.States.{
  mode_eq, state_eq, guard_status_eq, GateOutcome, GuardStatus, RuntimeState, TransitionStatus,
  authorization_required, blind_judging, domain_independent_run, domain_output_frozen,
  final_synthesis, guard_failed, guard_unavailable, human_review, illegal_transition, state_place,
  track_output_frozen, update_review, updated_record,
}
use human_cos_fft1_trial.Runtime.Transition.{
  key_eq, CaseRuntimePosition, TransitionDecision, TransitionError, TransitionKey, can_transition,
}

abbrev HasText : Option String → Type 0
HasText o = (text : String) × (o ≡ some text) × (is_blank text ≡ false)

abbrev HasItems : Option (List String) → Type 0
HasItems o = (items : List String) × (o ≡ some items) × (is_empty items ≡ false)

-- The facts that the guarded edges ask for.
abbrev pub GuardsHold : RuntimeState → RuntimeState → GuardFacts → Type 0
GuardsHold domain_independent_run domain_output_frozen facts =
    (facts.all_required_runs_finished ≡ some true)
    × (facts.no_unresolved_protocol_invalid ≡ some true)
GuardsHold final_synthesis human_review facts =
    (facts.claim_provenance_passed ≡ some true)
    × (facts.falsification_contract_present ≡ some true)
    × (facts.high_impact_dissent_recorded ≡ some true)
    × (facts.safety_status_valid ≡ some true)
GuardsHold track_output_frozen blind_judging facts =
    (facts.contamination_gate ≡ some GateOutcome.pass)
    × (facts.parity_guard ≡ some GateOutcome.pass)
GuardsHold update_review updated_record facts =
    HasText facts.delta_reason
    × HasItems facts.affected_claims
    × HasText facts.update_contract_result
GuardsHold _ _ _ = Unit

abbrev has_status : GuardStatus → List GuardCheck → Bool
has_status status guards = any (λ guard. guard.status == status) guards

abbrev is_clean : List GuardCheck → Bool
is_clean guards =
    not (has_status GuardStatus.fail guards) && not (has_status GuardStatus.unavailable guards)

pub is_clean_iff :
    (s t : RuntimeState) (facts : GuardFacts)
    → (is_clean (guard_results s t facts) ≡ true) ↔ GuardsHold s t facts
unfolding guard_results
is_clean_iff domain_independent_run domain_output_frozen facts =
    (λ h. ground arith, λ h. ground arith)
is_clean_iff final_synthesis human_review facts = (λ h. ground arith, λ h. ground arith)
is_clean_iff track_output_frozen blind_judging facts = (λ h. ground arith, λ h. ground arith)
is_clean_iff update_review updated_record facts =
    (λ h. (ground arith, ground arith, ground arith), λ h. ground arith)
is_clean_iff _ _ facts = (λ h. tt, λ h. refl)

-- A target before the cognitive stages, or an edge that a later layer authorized.
abbrev pub Authorized : CaseRuntimePosition → RuntimeState → List TransitionKey → Type 0
Authorized position t authorized =
    ((1 ≤ state_place t) × (state_place t ≤ 3))
    ⊎ Memᴰ (record { mode = position.mode; source = position.state; target = t }) authorized

abbrev pub Allows : Outcome TransitionError TransitionDecision → Type 0
Allows (returned decision) = decision.allowed ≡ true
Allows (raised error) = ⊥

module _ (position : CaseRuntimePosition) (target : RuntimeState) (guard_facts : Option GuardFacts)
    (authorized : List TransitionKey) (version : String) where
  abbrev outcome : Outcome TransitionError TransitionDecision
  outcome = can_transition position target guard_facts authorized version

  abbrev facts : GuardFacts
  facts = value_or guard_facts no_facts

  abbrev key : TransitionKey
  key = record { mode = position.mode; source = position.state; target = target }

  authorized_iff :
      ((contains target native_targets || contains key authorized) ≡ true)
      ↔ Authorized position target authorized
  authorized_iff =
      let listed = contains_iff key authorized in
      (
        λ h. elim (Bool-cases (contains key authorized)) [
          | inl found ↦ inr (listed.0 found)
          | inr absent ↦ inl (ground arith)
        ],
        λ h. elim h [ inl near ↦ ground arith | inr far ↦ let t = listed.1 far in ground arith ],
      )

  -- The three tests and the checks, before they are read.
  can_transition_tests :
      Allows outcome
      ↔ ((version == "") ≡ false)
        × (contains target (structural_targets position.mode position.state) ≡ true)
        × ((contains target native_targets || contains key authorized) ≡ true)
        × (is_clean (guard_results position.state target facts) ≡ true)
  unfolding can_transition
  can_transition_tests =
      (λ h. (ground arith, ground arith, ground arith, ground arith), λ h. ground arith)

  -- A decision allows the change exactly when a protocol version is given, the diagram of the mode has
  -- the edge, the edge leads to a state before the cognitive stages or is activated, and the facts that
  -- its guards ask for hold; facts that are not given count as not supplied.
  pub can_transition_iff :
      Allows outcome
      ↔ (version ≢ "")
        × Edge position.mode position.state target
        × Authorized position target authorized
        × GuardsHold position.state target facts
  can_transition_iff =
      let a = ==_false_iff version "" in
      let b = structural_targets_iff position.mode position.state target in
      let c = authorized_iff in
      let d = is_clean_iff position.state target facts in
      let tests = can_transition_tests in
      (
        λ h. let t = tests.0 h in (a.0 t.0, b.0 t.1, c.0 t.2, d.0 t.3),
        λ h. tests.1 (a.1 h.0, b.1 h.1, c.1 h.2, d.1 h.3),
      )

  -- The request that a decision answers.
  abbrev pub Answers : TransitionDecision → Type 0
  Answers d =
      (d.mode ≡ position.mode)
      × (d.source ≡ position.state)
      × (d.target ≡ target)
      × (d.protocol_version ≡ version)

  abbrev failing : Bool
  failing = has_status GuardStatus.fail (guard_results position.state target facts)

  abbrev missing : Bool
  missing = has_status GuardStatus.unavailable (guard_results position.state target facts)

  -- What each status of a decision means.
  pub record Explains (d : TransitionDecision) : Type 0 where
    pub allowed_iff : (d.allowed ≡ true) ↔ (d.status ≡ TransitionStatus.allowed)
    pub illegal_iff : (d.status ≡ illegal_transition) ↔ ¬ Edge position.mode position.state target
    pub unauthorized_iff :
        (d.status ≡ authorization_required)
        ↔ Edge position.mode position.state target × ¬ Authorized position target authorized
    pub failed_iff :
        (d.status ≡ guard_failed)
        ↔ Edge position.mode position.state target
          × Authorized position target authorized
          × (failing ≡ true)
    pub unavailable_iff :
        (d.status ≡ guard_unavailable)
        ↔ Edge position.mode position.state target
          × Authorized position target authorized
          × (failing ≡ false)
          × (missing ≡ true)

  pub can_transition_total : version ≢ "" → (d : TransitionDecision) × (outcome ≡ returned d)
  unfolding can_transition
  can_transition_total h =
      let a = (==_false_iff version "").1 h in
      elim (Outcome-cases outcome) [ inl result ↦ result | inr (error, e) ↦ absurd (ground arith) ]

  abbrev OnDecision : Outcome TransitionError TransitionDecision → Type 0
  OnDecision (returned d) = Answers d
  OnDecision (raised error) = Unit

  outcome_answers : OnDecision outcome
  unfolding can_transition
  outcome_answers =
      let same : (position.mode ≡ position.mode)
          × (position.state ≡ position.state)
          × (target ≡ target)
          × (version ≡ version) =
        (refl, refl, refl, refl) in
      if_ind OnDecision (version == "") tt (
        if_ind OnDecision (not (contains target (structural_targets position.mode position.state)))
          same
          (if_ind OnDecision (not (contains target native_targets) && not (contains key authorized))
            same (if_ind Answers failing same (if_ind Answers missing same same))))

  module _ (named : (version == "") ≡ false) (d : TransitionDecision)
      (e : outcome ≡ returned d) where
    illegal_test :
        (d.status ≡ illegal_transition)
        ↔ (contains target (structural_targets position.mode position.state) ≡ false)
    unfolding can_transition
    illegal_test = (λ h. ground arith, λ h. ground arith)

    unauthorized_test :
        (d.status ≡ authorization_required)
        ↔ (contains target (structural_targets position.mode position.state) ≡ true)
          × ((contains target native_targets || contains key authorized) ≡ false)
    unfolding can_transition
    unauthorized_test = (λ h. (ground arith, ground arith), λ h. ground arith)

    failed_test :
        (d.status ≡ guard_failed)
        ↔ (contains target (structural_targets position.mode position.state) ≡ true)
          × ((contains target native_targets || contains key authorized) ≡ true)
          × (failing ≡ true)
    unfolding can_transition
    failed_test = (λ h. (ground arith, ground arith, ground arith), λ h. ground arith)

    unavailable_test :
        (d.status ≡ guard_unavailable)
        ↔ (contains target (structural_targets position.mode position.state) ≡ true)
          × ((contains target native_targets || contains key authorized) ≡ true)
          × (failing ≡ false)
          × (missing ≡ true)
    unfolding can_transition
    unavailable_test =
        (λ h. (ground arith, ground arith, ground arith, ground arith), λ h. ground arith)

    allowed_test : (d.allowed ≡ true) ↔ (d.status ≡ TransitionStatus.allowed)
    unfolding can_transition
    allowed_test = (λ h. ground arith, λ h. ground arith)

  -- Each status of a decision, told by the diagram, the authorization and the checks of the edge.
  pub can_transition_status :
      version ≢ "" → (d : TransitionDecision) → outcome ≡ returned d → Answers d × Explains d
  can_transition_status v d e =
      let named = (==_false_iff version "").1 v in
      let edge = structural_targets_iff position.mode position.state target in
      let no_edge = refutes _ edge in
      let may = authorized_iff in
      let may_not = refutes _ may in
      let unauthorized = unauthorized_test named d e in
      let failed = failed_test named d e in
      let unavailable = unavailable_test named d e in
      (
        subst OnDecision e outcome_answers,
        record {
          allowed_iff = allowed_test named d e;
          illegal_iff = (
            λ h. no_edge.0 ((illegal_test named d e).0 h),
            λ h. (illegal_test named d e).1 (no_edge.1 h),
          );
          unauthorized_iff = (
            λ h. (edge.0 (unauthorized.0 h).0, may_not.0 (unauthorized.0 h).1),
            λ h. unauthorized.1 (edge.1 h.0, may_not.1 h.1),
          );
          failed_iff = (
            λ h. let t = failed.0 h in (edge.0 t.0, may.0 t.1, t.2),
            λ h. failed.1 (edge.1 h.0, may.1 h.1, h.2),
          );
          unavailable_iff = (
            λ h. let t = unavailable.0 h in (edge.0 t.0, may.0 t.1, t.2, t.3),
            λ h. unavailable.1 (edge.1 h.0, may.1 h.1, h.2, h.3),
          );
        },
      )
