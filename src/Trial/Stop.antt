-- ===== src/Trial/Stop.antt =====
-- runtime/src/human_cos/trial/contracts.py: the frozen stop of a trial. A payload is built by
-- `check_stop_payload`, and `freeze_trial_stop` takes one that was.
pub mod Integrity
use human_cos_fft1_trial.Prelude.{
  nat_eq, string_eq, bool_eq, option_eq, list_eq, pair_eq, Bool, Eq, List, Option, Outcome, String,
  [], all, all_distinct, check_fields, contains, get_or, is_empty, is_positive_or_none,
  is_sha256_or_none, is_some, map, not, raise_if, refl, returned, through, ℕ, ◌!=◌, ◌&&◌, ◌==◌,
  ◌>>=◌, ◌>>◌, ◌||◌, ◌∷◌, ◌≡◌,
}
use human_cos_fft1_trial.Prelude.Texts.{is_sha256}
use human_cos_fft1_trial.Core.Contracts.{Datetime}
use human_cos_fft1_trial.Runtime.States.{mode_eq, CaseMode}
use human_cos_fft1_trial.Trial.Contracts.{
  condition_eq, artifact_eq, TrialArtifactRef, TrialError, TrialOutcome, TrialStopCondition,
  TrialStopPhase, admission_phase, artifact_integrity_failure, at17_integration_failure,
  audit_export_phase, authorized_boundary_reached, capability_gap_found, capability_gap_stop,
  challenger_block, challenger_blocked, cleanup_phase, completed_at_authorized_boundary,
  contract_error, environment_rejected, execution_phase, hc_regression, hc_regression_detected,
  infrastructure_failed, infrastructure_failure, input_invalid, input_phase, integrity_failure,
  invalid_input, low_recognition, low_recognition_compromised, model_output_invalid,
  model_output_rejected, operator_abort, operator_aborted, persistence_phase, research_safety_block,
  research_safety_blocked, resource_limit, resource_limit_reached, stop_outcome_for,
  unsupported_authorized_path, unsupported_path, payload_error,
}
use human_cos_fft1_trial.Trial.Steps.{
  position_eq, TrialRuntimePosition, TrialRuntimeStep, TrialRuntimeStepPayload, assert_trajectory,
  is_aware, must_be_aware,
}

abbrev pub phase_place : TrialStopPhase → ℕ
phase_place input_phase = 0
phase_place admission_phase = 1
phase_place execution_phase = 2
phase_place persistence_phase = 3
phase_place audit_export_phase = 4
phase_place cleanup_phase = 5

-- `frozenset(TrialStopPhase)`
abbrev pub every_phase : List TrialStopPhase
every_phase =
    input_phase ∷ admission_phase ∷ execution_phase ∷ persistence_phase ∷ audit_export_phase
    ∷ cleanup_phase ∷ []

abbrev pub phase_member : ℕ → TrialStopPhase
phase_member n = get_or every_phase n input_phase

pub phase_member_place : (p : TrialStopPhase) → phase_member (phase_place p) ≡ p
phase_member_place input_phase = refl
phase_member_place _ = refl

instance abbrev pub phase_eq : Eq TrialStopPhase
phase_eq = through phase_place phase_member phase_member_place

abbrev pub every_outcome : List TrialOutcome
every_outcome =
    completed_at_authorized_boundary ∷ invalid_input ∷ infrastructure_failed ∷ capability_gap_found
    ∷ research_safety_blocked ∷ model_output_rejected ∷ integrity_failure ∷ challenger_blocked
    ∷ hc_regression ∷ low_recognition ∷ unsupported_path ∷ resource_limit ∷ operator_abort ∷ []

abbrev pub outcome_place : TrialOutcome → ℕ
outcome_place completed_at_authorized_boundary = 0
outcome_place invalid_input = 1
outcome_place infrastructure_failed = 2
outcome_place capability_gap_found = 3
outcome_place research_safety_blocked = 4
outcome_place model_output_rejected = 5
outcome_place integrity_failure = 6
outcome_place challenger_blocked = 7
outcome_place hc_regression = 8
outcome_place low_recognition = 9
outcome_place unsupported_path = 10
outcome_place resource_limit = 11
outcome_place operator_abort = 12

abbrev pub outcome_member : ℕ → TrialOutcome
outcome_member n = get_or every_outcome n invalid_input

pub outcome_member_place : (o : TrialOutcome) → outcome_member (outcome_place o) ≡ o
outcome_member_place invalid_input = refl
outcome_member_place _ = refl

instance abbrev pub outcome_eq : Eq TrialOutcome
outcome_eq = through outcome_place outcome_member outcome_member_place

-- `_ALLOWED_STOP_PHASES`
unfoldable pub allowed_stop_phases : TrialStopCondition → List TrialStopPhase
allowed_stop_phases input_invalid = input_phase ∷ []
allowed_stop_phases environment_rejected = admission_phase ∷ []
allowed_stop_phases authorized_boundary_reached = execution_phase ∷ []
allowed_stop_phases capability_gap_stop = execution_phase ∷ []
allowed_stop_phases research_safety_block = execution_phase ∷ []
allowed_stop_phases model_output_invalid = execution_phase ∷ []
allowed_stop_phases artifact_integrity_failure =
    execution_phase ∷ persistence_phase ∷ audit_export_phase ∷ []
allowed_stop_phases at17_integration_failure = execution_phase ∷ []
allowed_stop_phases challenger_block = execution_phase ∷ []
allowed_stop_phases hc_regression_detected = execution_phase ∷ []
allowed_stop_phases low_recognition_compromised = execution_phase ∷ []
allowed_stop_phases unsupported_authorized_path = admission_phase ∷ execution_phase ∷ []
allowed_stop_phases resource_limit_reached =
    input_phase ∷ admission_phase ∷ execution_phase ∷ persistence_phase ∷ audit_export_phase ∷ []
allowed_stop_phases operator_aborted = admission_phase ∷ execution_phase ∷ audit_export_phase ∷ []
allowed_stop_phases infrastructure_failure = every_phase

pub record TrialStopPayload : Type 0 where
  pub stop_id : String
  pub attempt_receipt_hash : String
  pub trial_manifest_hash : Option String
  pub environment_admission_hash : Option String
  pub case_id : Option String
  pub case_revision : Option ℕ
  pub case_mode : Option CaseMode
  pub outcome : TrialOutcome
  pub stop_condition : TrialStopCondition
  pub stop_phase : TrialStopPhase
  pub runtime_trajectory : List TrialRuntimeStep
  pub final_runtime_position : Option TrialRuntimePosition
  pub controlling_artifact_refs : List TrialArtifactRef
  pub reasons : List String
  pub produced_artifacts : List TrialArtifactRef
  pub stopped_at : Datetime

pub record TrialStop : Type 0 where
  pub payload : TrialStopPayload
  pub stop_hash : String

-- `trial_manifest_hash is None or environment_admission_hash is None`
abbrev pub lacks_admission : TrialStopPayload → Bool
lacks_admission stop =
    not (is_some stop.trial_manifest_hash) || not (is_some stop.environment_admission_hash)

-- The checks by phase.
unfoldable pub check_phase : TrialStopPhase → TrialStopPayload → Outcome TrialError (Unit {0})
check_phase input_phase stop = do
  raise_if (not (is_empty stop.runtime_trajectory))
      (contract_error "input-phase stop must have an empty trajectory")
  raise_if (stop.stop_condition == input_invalid && is_some stop.environment_admission_hash)
      (contract_error "invalid input cannot invent Environment Admission")
check_phase admission_phase stop = do
  raise_if (lacks_admission stop)
      (contract_error "admission-phase stop requires Manifest and Admission hashes")
  raise_if (not (is_empty stop.runtime_trajectory))
      (contract_error "admission-phase stop must have an empty trajectory")
check_phase _ stop = do
  raise_if (lacks_admission stop)
      (contract_error "post-admission stop requires Manifest and Admission hashes")
  raise_if (is_empty stop.runtime_trajectory)
      (contract_error "post-admission stop requires a non-empty trajectory")

abbrev pub at17_kinds : List String
at17_kinds = "AT17_EVIDENCE" ∷ "RESIMULATION_RESULT" ∷ "PARENT_LINEAGE" ∷ []

-- `not required.issubset(refs)`, for the stop of the AT-17 integration alone.
unfoldable pub lacks_at17 : TrialStopPayload → Bool
lacks_at17 stop =
    stop.stop_condition == at17_integration_failure
    && not (
        all (λ kind. contains kind (map (λ item. item.kind) stop.controlling_artifact_refs))
          at17_kinds)

-- The fields that the contract checks when a payload is built, with what it finds.
abbrev pub stop_fields : TrialStopPayload → List (String × Bool)
stop_fields stop =
    ("stop_id", stop.stop_id != "")
    ∷ ("attempt_receipt_hash", is_sha256 stop.attempt_receipt_hash)
    ∷ ("trial_manifest_hash", is_sha256_or_none stop.trial_manifest_hash)
    ∷ ("environment_admission_hash", is_sha256_or_none stop.environment_admission_hash)
    ∷ ("case_revision", is_positive_or_none stop.case_revision)
    ∷ ("stopped_at", is_aware stop.stopped_at)
    ∷ []

unfoldable pub check_stop_payload : TrialStopPayload → Outcome TrialError (Unit {0})
unfolding is_sha256
check_stop_payload stop = check_fields (payload_error "TrialStopPayload") (stop_fields stop)

-- The hashes of a step and of a stop are parameters: `canonical_document_sha256`.
module _ (step_sha256 : TrialRuntimeStepPayload → String)
    (stop_sha256 : TrialStopPayload → String) where
  -- `TrialStop.assert_integrity`
  unfoldable pub assert_stop_integrity : TrialStop → Outcome TrialError (Unit {0})
  unfolding assert_trajectory check_phase lacks_at17 allowed_stop_phases stop_outcome_for
  assert_stop_integrity stop = do
    let payload = stop.payload
    raise_if (stop.stop_hash != stop_sha256 payload)
        (contract_error "TrialStop hash does not match payload")
    raise_if (payload.outcome != stop_outcome_for payload.stop_condition)
        (contract_error "TrialStop outcome does not match stop condition")
    raise_if (not (contains payload.stop_phase (allowed_stop_phases payload.stop_condition)))
        (contract_error "TrialStop condition is invalid for the declared phase")
    raise_if (not (all_distinct payload.reasons))
        (contract_error "TrialStop reasons must not contain duplicates")
    raise_if (is_empty payload.reasons) (contract_error "TrialStop requires at least one reason")
    assert_trajectory step_sha256 payload.case_mode payload.case_revision payload.runtime_trajectory
        payload.final_runtime_position
    check_phase payload.stop_phase payload
    raise_if (lacks_at17 payload)
        (contract_error "AT-17 stop must preserve evidence, re-simulation, and parent lineage")

  unfoldable pub freeze_trial_stop : TrialStopPayload → Outcome TrialError TrialStop
  unfolding assert_stop_integrity must_be_aware
  freeze_trial_stop payload = do
    must_be_aware payload.stopped_at
    let stop : TrialStop = record { payload = payload; stop_hash = stop_sha256 payload }
    assert_stop_integrity stop
    returned stop
