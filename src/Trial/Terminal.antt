-- ===== src/Trial/Terminal.antt =====
-- runtime/src/human_cos/trial/stop_engine.py: what the stop of the terminal freeze says of the
-- ledger. Trial/Closing has the freeze.
pub mod Total
use human_cos_fft1_trial.Prelude.{
  nat_eq, string_eq, bool_eq, option_eq, list_eq, pair_eq, List, String, [], get_last?,
  if◌then◌else◌, keep, map, some, ◌==◌, ◌∷◌,
}
use human_cos_fft1_trial.Core.Contracts.{Datetime}
use human_cos_fft1_trial.Runtime.States.{mode_eq}
use human_cos_fft1_trial.Trial.Contracts.{
  condition_eq, artifact_eq, TrialArtifactRef, TrialStopCondition, stop_outcome_for,
}
use human_cos_fft1_trial.Trial.Ledger.{TrialStopLedger, add_artifacts, from_keys}
use human_cos_fft1_trial.Trial.Meter.{TrialStopSignal}
use human_cos_fft1_trial.Trial.Steps.{position_eq, position_of}
use human_cos_fft1_trial.Trial.Stop.{phase_eq, outcome_eq, TrialStopPayload}

-- The reasons of the signals with the controlling condition.
abbrev pub reasons_of : TrialStopCondition → List TrialStopSignal → List String
reasons_of condition stops =
    map (λ stop. stop.reason) (keep (λ stop. stop.condition == condition) stops)

-- Their artifacts, each once: the loop with its `seen` set adds as `record_artifacts` does.
unfoldable pub collect_refs :
    TrialStopCondition → List TrialArtifactRef → List TrialStopSignal → List TrialArtifactRef
unfolding add_artifacts
collect_refs condition found [] = found
collect_refs condition found (stop ∷ stops) =
    collect_refs condition
      (if stop.condition == condition
        then add_artifacts found stop.controlling_artifact_refs
        else found)
      stops

-- The stop that `freeze_terminal` writes.
unfoldable pub terminal_payload :
    TrialStopLedger → String → Datetime → TrialStopSignal → TrialStopPayload
unfolding collect_refs from_keys stop_outcome_for
terminal_payload ledger stop_id stopped_at controlling = record {
  stop_id = stop_id;
  attempt_receipt_hash = ledger.attempt_receipt_hash;
  trial_manifest_hash = some ledger.manifest.manifest_hash;
  environment_admission_hash = some ledger.environment_admission_hash;
  case_id = some ledger.manifest.case_id;
  case_revision = some ledger.manifest.case_revision;
  case_mode = some ledger.manifest.case_mode;
  outcome = stop_outcome_for controlling.condition;
  stop_condition = controlling.condition;
  stop_phase = controlling.phase;
  runtime_trajectory = ledger.steps;
  final_runtime_position = position_of (get_last? ledger.steps);
  controlling_artifact_refs = collect_refs controlling.condition [] ledger.signals;
  reasons = from_keys (reasons_of controlling.condition ledger.signals);
  produced_artifacts = ledger.produced_artifacts;
  stopped_at = stopped_at;
}
