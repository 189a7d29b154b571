-- ===== src/Trial/Closing.antt =====
-- `freeze_terminal` of runtime/src/human_cos/trial/stop_engine.py in full: the stop of Trial/Terminal,
-- the result behind it, and the ledger that is closed when both are frozen.
pub mod Closed
pub mod Total
use human_cos_fft1_trial.Prelude.{
  nat_eq, string_eq, bool_eq, option_eq, list_eq, pair_eq, List, Option, Outcome, String, [],
  get_last?, returned, some, true, ◌>>=◌, ◌>>◌,
}
use human_cos_fft1_trial.Core.Contracts.{Datetime}
use human_cos_fft1_trial.Runtime.States.{mode_eq}
use human_cos_fft1_trial.Trial.Contracts.{
  condition_eq, artifact_eq, TrialError, TrialOutcome, stop_outcome_for,
}
use human_cos_fft1_trial.Trial.Ledger.{TrialStopLedger, assert_open, controlling_signal, from_keys}
use human_cos_fft1_trial.Trial.Meter.{TrialStopSignal}
use human_cos_fft1_trial.Trial.Result.{
  TrialCapabilityAcceptance, TrialResult, TrialResultPayload, check_result_payload,
  cleanup_not_attempted, export_not_attempted, freeze_trial_result,
}
use human_cos_fft1_trial.Trial.Steps.{position_eq, TrialRuntimeStepPayload, position_of}
use human_cos_fft1_trial.Trial.Stop.{
  phase_eq, outcome_eq, TrialStop, TrialStopPayload, check_stop_payload, freeze_trial_stop,
}
use human_cos_fft1_trial.Trial.Terminal.{collect_refs, reasons_of, terminal_payload}

-- The arguments of `freeze_terminal`.
pub record TerminalRequest : Type 0 where
  pub stop_id : String
  pub result_id : String
  pub acceptance : TrialCapabilityAcceptance
  pub stopped_at : Datetime
  pub substantive_case_outcome : Option TrialOutcome
  pub limitations : List String
  pub dissent_refs : List String
  pub unresolved_condition_refs : List String

-- The result that `freeze_terminal` writes.
unfoldable pub result_payload :
    TrialStopLedger → TerminalRequest → TrialStopSignal → String → TrialResultPayload
unfolding collect_refs from_keys stop_outcome_for
result_payload ledger request controlling stop_hash = record {
  result_id = request.result_id;
  attempt_receipt_hash = ledger.attempt_receipt_hash;
  trial_manifest_hash = some ledger.manifest.manifest_hash;
  environment_admission_hash = some ledger.environment_admission_hash;
  trial_stop_hash = stop_hash;
  case_id = some ledger.manifest.case_id;
  case_revision = some ledger.manifest.case_revision;
  case_mode = some ledger.manifest.case_mode;
  outcome = stop_outcome_for controlling.condition;
  stop_condition = controlling.condition;
  stop_phase = controlling.phase;
  trial_capability_acceptance = request.acceptance;
  substantive_case_outcome = request.substantive_case_outcome;
  runtime_trajectory = ledger.steps;
  final_runtime_position = position_of (get_last? ledger.steps);
  controlling_artifact_refs = collect_refs controlling.condition [] ledger.signals;
  reasons = from_keys (reasons_of controlling.condition ledger.signals);
  limitations = request.limitations;
  dissent_refs = request.dissent_refs;
  unresolved_condition_refs = request.unresolved_condition_refs;
  produced_artifacts = ledger.produced_artifacts;
  audit_export_status = export_not_attempted;
  cleanup_disposition = cleanup_not_attempted;
  frozen_at = request.stopped_at;
}

-- `self._terminal_frozen = True`
abbrev pub close_ledger : TrialStopLedger → TrialStopLedger
close_ledger ledger = record ledger { terminal_frozen = true }

module _ (step_sha256 : TrialRuntimeStepPayload → String) (stop_sha256 : TrialStopPayload → String)
    (result_sha256 : TrialResultPayload → String) where
  unfoldable pub freeze_terminal :
      TrialStopLedger
      → TerminalRequest
      → Outcome TrialError (TrialStopLedger × (TrialStop × TrialResult))
  unfolding assert_open controlling_signal terminal_payload check_stop_payload freeze_trial_stop
      result_payload check_result_payload freeze_trial_result
  freeze_terminal ledger request = do
    assert_open ledger
    controlling ← controlling_signal ledger
    let stopped = terminal_payload ledger request.stop_id request.stopped_at controlling
    check_stop_payload stopped
    stop ← freeze_trial_stop step_sha256 stop_sha256 stopped
    let outcome = result_payload ledger request controlling stop.stop_hash
    check_result_payload outcome
    result ← freeze_trial_result step_sha256 result_sha256 outcome
    returned (close_ledger ledger, (stop, result))
