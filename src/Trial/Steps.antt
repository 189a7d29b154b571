-- ===== src/Trial/Steps.antt =====
-- runtime/src/human_cos/trial/contracts.py: the positions that a trial may take and its frozen
-- runtime steps.
use human_cos_fft1_trial.Prelude.{
  nat_eq, string_eq, bool_eq, option_eq, list_eq, pair_eq, Bool, Eq, List, Option, Outcome, String,
  [], contains, false, get_last?, is_some, ltb, none, not, raise_if, raised, refl, returned, some,
  through, true, ℕ, ◌!=◌, ◌+◌, ◌>>◌, ◌∷◌,
}
use human_cos_fft1_trial.Prelude.Texts.{format}
use human_cos_fft1_trial.Core.Contracts.{Datetime, aware, naive}
use human_cos_fft1_trial.Runtime.States.{
  mode_eq, state_eq, CaseMode, RuntimeState, adversarial_review, boundary_and_policy_frozen,
  case_created, critical_node_detection, critical_node_review, cross_examination,
  domain_independent_run, domain_output_frozen, domain_routed, evidence_research, evidence_verified,
  framing_independent, framing_reviewed, scenario_generation, scenario_resimulation, state_value,
  world_causal_integration,
}
use human_cos_fft1_trial.Runtime.Transition.Progress.{steps}
use human_cos_fft1_trial.Trial.Contracts.{TrialError, contract_error, value_error}

abbrev pub authorized_trial_states : List RuntimeState
authorized_trial_states =
    case_created ∷ evidence_research ∷ evidence_verified ∷ boundary_and_policy_frozen
    ∷ framing_independent ∷ framing_reviewed ∷ domain_routed ∷ domain_independent_run
    ∷ domain_output_frozen ∷ cross_examination ∷ world_causal_integration ∷ critical_node_detection
    ∷ critical_node_review ∷ scenario_generation ∷ scenario_resimulation ∷ adversarial_review ∷ []

pub record TrialRuntimePosition : Type 0 where
  pub mode : CaseMode
  pub state : RuntimeState
  pub case_revision : ℕ

-- The validation of a position, at every construction of one.
unfoldable pub trial_runtime_position : TrialRuntimePosition → Outcome TrialError (Unit {0})
trial_runtime_position position = do
  raise_if (ltb position.case_revision 1) (value_error "case_revision must be >= 1")
  raise_if (not (contains position.state authorized_trial_states)) (
      value_error (
        format (
          "trial Runtime position cannot use unauthorized state "
          ∷ state_value position.state
          ∷ [])))

pub record TrialRuntimeStepPayload : Type 0 where
  pub step_id : String
  pub step_index : ℕ
  pub position : TrialRuntimePosition
  pub controlling_ref : String
  pub recorded_at : Datetime

pub record TrialRuntimeStep : Type 0 where
  pub payload : TrialRuntimeStepPayload
  pub step_hash : String

-- `_aware`
unfoldable pub must_be_aware : Datetime → Outcome TrialError (Unit {0})
must_be_aware (aware instant) = returned tt
must_be_aware (naive reading) =
    raised (value_error "TRIAL-SBX timestamps require timezone-aware datetimes")

abbrev pub is_aware : Datetime → Bool
is_aware (aware instant) = true
is_aware (naive reading) = false

-- The hash of a document is a parameter: `canonical_document_sha256`.
module _ (canonical_document_sha256 : TrialRuntimeStepPayload → String) where
  -- `TrialRuntimeStep.assert_integrity`
  unfoldable pub assert_step_integrity : TrialRuntimeStep → Outcome TrialError (Unit {0})
  assert_step_integrity step = do
    raise_if (step.step_hash != canonical_document_sha256 step.payload)
        (contract_error "TrialRuntimeStep hash does not match payload")
    raise_if (not (contains step.payload.position.state authorized_trial_states))
        (contract_error "TrialRuntimeStep contains an unauthorized Runtime state")

  -- The validation of the payload, its hash, and the step's own check.
  unfoldable pub freeze_trial_runtime_step :
      TrialRuntimeStepPayload → Outcome TrialError TrialRuntimeStep
  unfolding assert_step_integrity must_be_aware trial_runtime_position
  freeze_trial_runtime_step payload = do
    must_be_aware payload.recorded_at
    trial_runtime_position payload.position
    let step : TrialRuntimeStep = record {
      payload = payload;
      step_hash = canonical_document_sha256 payload;
    }
    assert_step_integrity step
    returned step

-- A frozen model is compared field by field.
instance abbrev pub position_eq : Eq TrialRuntimePosition
position_eq =
    through {B = CaseMode × (RuntimeState × ℕ)} (λ p. (p.mode, (p.state, p.case_revision)))
      (λ (mode, rest). record { mode = mode; state = rest.0; case_revision = rest.1 }) (λ p. refl)

-- `expected is not None and value != expected`
abbrev pub is_other : {A : Type 0} ⦃e : Eq A⦄ → Option A → A → Bool
is_other none value = false
is_other (some expected) value = value != expected

-- `trajectory[-1].position if trajectory else None`
abbrev pub position_of : Option TrialRuntimeStep → Option TrialRuntimePosition
position_of none = none
position_of (some step) = some step.payload.position

-- The check on the final position, after the last step, if there is one.
unfoldable pub check_final :
    Option TrialRuntimeStep → Option TrialRuntimePosition → Outcome TrialError (Unit {0})
check_final none final_position =
    raise_if (is_some final_position)
      (contract_error "empty trajectory cannot declare a final Runtime position")
check_final (some last) final_position =
    raise_if (final_position != some last.payload.position)
      (contract_error "final Runtime position must equal final trajectory entry")

module _ (canonical_document_sha256 : TrialRuntimeStepPayload → String)
    (case_mode : Option CaseMode) (case_revision : Option ℕ) where
  -- The body of the loop of `_assert_trajectory`.
  unfoldable pub check_place : ℕ → TrialRuntimeStep → Outcome TrialError (Unit {0})
  unfolding assert_step_integrity
  check_place index step = do
    assert_step_integrity canonical_document_sha256 step
    raise_if (step.payload.step_index != index)
        (contract_error "Runtime trajectory indices must be contiguous from one")
    raise_if (is_other case_mode step.payload.position.mode)
        (contract_error "Runtime trajectory Case Mode differs from Trial Result")
    raise_if (is_other case_revision step.payload.position.case_revision)
        (contract_error "Runtime trajectory Case revision differs from Trial Result")

  -- `for index, step in enumerate(trajectory, start=index)`
  unfoldable pub check_places : ℕ → List TrialRuntimeStep → Outcome TrialError (Unit {0})
  unfolding check_place
  check_places index [] = returned tt
  check_places index (step ∷ steps) = check_place index step >> check_places (index + 1) steps

  -- `_assert_trajectory`
  unfoldable pub assert_trajectory :
      List TrialRuntimeStep → Option TrialRuntimePosition → Outcome TrialError (Unit {0})
  unfolding check_places check_final
  assert_trajectory trajectory final_position = do
    check_places 1 trajectory
    check_final (get_last? trajectory) final_position
