-- ===== src/Trial/Result.antt =====
-- runtime/src/human_cos/trial/contracts.py: the frozen result of a trial. Its five authority flags,
-- which the contract's types hold to be false, are left out, and so is the check on them. A payload is
-- built by `check_result_payload`, and `freeze_trial_result` takes one that was.
pub mod Integrity
use human_cos_fft1_trial.Prelude.{
  nat_eq, string_eq, bool_eq, option_eq, list_eq, pair_eq, Bool, List, Option, Outcome, String, [],
  all_distinct, check_fields, contains, is_empty, is_positive_or_none, is_sha256_or_none, is_some,
  none, not, raise_if, returned, some, true, ℕ, ◌!=◌, ◌&&◌, ◌==◌, ◌>>=◌, ◌>>◌, ◌||◌, ◌∷◌,
}
use human_cos_fft1_trial.Prelude.Texts.{format, is_sha256}
use human_cos_fft1_trial.Core.Contracts.{Datetime}
use human_cos_fft1_trial.Runtime.States.{mode_eq, state_eq, CaseMode, adversarial_review}
use human_cos_fft1_trial.Trial.Contracts.{
  condition_eq, artifact_eq, TrialArtifactRef, TrialError, TrialOutcome, TrialStopCondition,
  TrialStopPhase, admission_phase, completed_at_authorized_boundary, contract_error,
  infrastructure_failed, input_phase, invalid_input, stop_outcome_for, payload_error,
}
use human_cos_fft1_trial.Trial.Steps.{
  position_eq, TrialRuntimePosition, TrialRuntimeStep, TrialRuntimeStepPayload, assert_trajectory,
  is_aware, must_be_aware,
}
use human_cos_fft1_trial.Trial.Stop.{phase_eq, outcome_eq, allowed_stop_phases}

pub data TrialCapabilityAcceptance : Type 0 where
  acceptance_pass acceptance_fail not_evaluated : TrialCapabilityAcceptance

pub data TrialAuditExportStatus : Type 0 where
  export_not_attempted export_complete export_partial export_failed : TrialAuditExportStatus

pub data TrialCleanupDisposition : Type 0 where
  cleanup_not_attempted cleanup_complete cleanup_failed retained_for_audit : TrialCleanupDisposition

pub record TrialResultPayload : Type 0 where
  pub result_id : String
  pub attempt_receipt_hash : String
  pub trial_manifest_hash : Option String
  pub environment_admission_hash : Option String
  pub trial_stop_hash : String
  pub case_id : Option String
  pub case_revision : Option ℕ
  pub case_mode : Option CaseMode
  pub outcome : TrialOutcome
  pub stop_condition : TrialStopCondition
  pub stop_phase : TrialStopPhase
  pub trial_capability_acceptance : TrialCapabilityAcceptance
  pub substantive_case_outcome : Option TrialOutcome
  pub runtime_trajectory : List TrialRuntimeStep
  pub final_runtime_position : Option TrialRuntimePosition
  pub controlling_artifact_refs : List TrialArtifactRef
  pub reasons : List String
  pub limitations : List String
  pub dissent_refs : List String
  pub unresolved_condition_refs : List String
  pub produced_artifacts : List TrialArtifactRef
  pub audit_export_status : TrialAuditExportStatus
  pub cleanup_disposition : TrialCleanupDisposition
  pub frozen_at : Datetime

pub record TrialResult : Type 0 where
  pub payload : TrialResultPayload
  pub result_hash : String

-- `_assert_unique`
abbrev pub assert_unique : List String → String → Outcome TrialError (Unit {0})
assert_unique values name =
    raise_if (not (all_distinct values))
      (contract_error (format (name ∷ " must not contain duplicates" ∷ [])))

-- The checks by phase.
unfoldable pub check_result_phase :
    TrialStopPhase → TrialResultPayload → Outcome TrialError (Unit {0})
check_result_phase input_phase result =
    raise_if (not (is_empty result.runtime_trajectory) || is_some result.environment_admission_hash)
      (contract_error "invalid-input result cannot contain execution/admission facts")
check_result_phase admission_phase result = do
  raise_if
      (not (is_some result.trial_manifest_hash) || not (is_some result.environment_admission_hash))
      (contract_error "admission result requires Manifest and Admission hashes")
  raise_if (not (is_empty result.runtime_trajectory))
      (contract_error "admission result must have an empty trajectory")
check_result_phase _ result = do
  raise_if
      (not (is_some result.trial_manifest_hash) || not (is_some result.environment_admission_hash))
      (contract_error "execution/later result requires Manifest and Admission hashes")
  raise_if (is_empty result.runtime_trajectory)
      (contract_error "execution/later result requires a non-empty trajectory")

-- `final_runtime_position is None or final_runtime_position.state is not _AUTHORIZED_TERMINAL_STATE`
abbrev pub short_of_boundary : Option TrialRuntimePosition → Bool
short_of_boundary none = true
short_of_boundary (some position) = position.state != adversarial_review

abbrev pub non_substantive : List TrialOutcome
non_substantive = invalid_input ∷ infrastructure_failed ∷ []

-- The fields that the contract checks when a payload is built, with what it finds.
abbrev pub result_fields : TrialResultPayload → List (String × Bool)
result_fields result =
    ("result_id", result.result_id != "")
    ∷ ("attempt_receipt_hash", is_sha256 result.attempt_receipt_hash)
    ∷ ("trial_manifest_hash", is_sha256_or_none result.trial_manifest_hash)
    ∷ ("environment_admission_hash", is_sha256_or_none result.environment_admission_hash)
    ∷ ("trial_stop_hash", is_sha256 result.trial_stop_hash)
    ∷ ("case_revision", is_positive_or_none result.case_revision)
    ∷ ("frozen_at", is_aware result.frozen_at)
    ∷ []

unfoldable pub check_result_payload : TrialResultPayload → Outcome TrialError (Unit {0})
unfolding is_sha256
check_result_payload result =
    check_fields (payload_error "TrialResultPayload") (result_fields result)

module _ (step_sha256 : TrialRuntimeStepPayload → String)
    (result_sha256 : TrialResultPayload → String) where
  -- `TrialResult.assert_integrity`
  unfoldable pub assert_result_integrity : TrialResult → Outcome TrialError (Unit {0})
  unfolding assert_trajectory check_result_phase allowed_stop_phases stop_outcome_for
  assert_result_integrity result = do
    let payload = result.payload
    raise_if (result.result_hash != result_sha256 payload)
        (contract_error "TrialResult hash does not match payload")
    raise_if (payload.outcome != stop_outcome_for payload.stop_condition)
        (contract_error "TrialResult outcome does not match stop condition")
    raise_if (not (contains payload.stop_phase (allowed_stop_phases payload.stop_condition)))
        (contract_error "TrialResult stop condition is invalid for declared phase")
    assert_unique payload.reasons "TrialResult reasons"
    assert_unique payload.dissent_refs "TrialResult dissent refs"
    assert_unique payload.unresolved_condition_refs "TrialResult unresolved refs"
    raise_if (is_empty payload.reasons) (contract_error "TrialResult requires at least one reason")
    assert_trajectory step_sha256 payload.case_mode payload.case_revision payload.runtime_trajectory
        payload.final_runtime_position
    check_result_phase payload.stop_phase payload
    raise_if
        (payload.outcome == completed_at_authorized_boundary
          && short_of_boundary payload.final_runtime_position)
        (contract_error "completed trial must stop exactly at ADVERSARIAL_REVIEW")
    raise_if (contains payload.outcome non_substantive && is_some payload.substantive_case_outcome)
        (contract_error "invalid-input/infrastructure failure is not a substantive Case outcome")

  unfoldable pub freeze_trial_result : TrialResultPayload → Outcome TrialError TrialResult
  unfolding assert_result_integrity must_be_aware
  freeze_trial_result payload = do
    must_be_aware payload.frozen_at
    let result : TrialResult = record { payload = payload; result_hash = result_sha256 payload }
    assert_result_integrity result
    returned result
