-- ===== src/Trial/Ledger.antt =====
-- runtime/src/human_cos/trial/stop_engine.py: the append-only ledger of one trial attempt. Of the
-- manifest and of the environment's admission it holds what its operations read.
pub mod Trajectory
pub mod Artifacts
pub mod Boundary
pub mod Journal
pub mod Signals
pub mod Contract
use human_cos_fft1_trial.Prelude.{
  nat_eq, string_eq, bool_eq, option_eq, list_eq, pair_eq, Bool, Eq, List, Option, Outcome, String,
  [], contains, false, find_first, get_last?, if◌then◌else◌, is_empty, keep, length, ltb, map, none,
  not, raise_if, raised, returned, some, ℕ, ◌!=◌, ◌++◌, ◌+◌, ◌==◌, ◌>>=◌, ◌>>◌, ◌||◌, ◌∷◌,
}
use human_cos_fft1_trial.Prelude.Texts.{decimal, format, is_blank}
use human_cos_fft1_trial.Core.Contracts.{Datetime}
use human_cos_fft1_trial.Runtime.Graph.{structural_targets}
use human_cos_fft1_trial.Runtime.States.{mode_eq, state_eq, CaseMode, case_created, state_value}
use human_cos_fft1_trial.Trial.Contracts.{
  condition_eq, artifact_eq, TrialArtifactRef, TrialError, authorized_boundary_reached,
  execution_phase, resource_limit_reached, select_controlling_stop, stop_engine_error, value_error,
}
use human_cos_fft1_trial.Trial.Limits.{TrialHardCaps}
use human_cos_fft1_trial.Trial.Meter.{
  ClockTime, Elapsed, TrialStopSignal, lasting, nanoseconds, not_finite, shows, since, unusable,
}
use human_cos_fft1_trial.Trial.Steps.{
  position_eq, TrialRuntimePosition, TrialRuntimeStep, TrialRuntimeStepPayload,
  freeze_trial_runtime_step,
}

pub record TrialManifest : Type 0 where
  pub manifest_hash : String
  pub case_id : String
  pub case_revision : ℕ
  pub case_mode : CaseMode
  pub resource_limits : TrialHardCaps

pub record TrialStopLedger : Type 0 where
  pub attempt_receipt_hash : String
  pub manifest : TrialManifest
  pub environment_admission_hash : String
  pub steps : List TrialRuntimeStep
  pub produced_artifacts : List TrialArtifactRef
  pub signals : List TrialStopSignal
  pub terminal_frozen : Bool
  pub started_at : ℕ

-- `TrialStopLedger.__post_init__`
unfoldable pub open_ledger :
    String → TrialManifest → String → ClockTime → Outcome TrialError TrialStopLedger
open_ledger attempt_receipt_hash manifest environment_hash not_finite =
    raised (stop_engine_error "ledger clock must return a finite value")
open_ledger attempt_receipt_hash manifest environment_hash (shows now) = returned (record {
  attempt_receipt_hash = attempt_receipt_hash;
  manifest = manifest;
  environment_admission_hash = environment_hash;
  steps = [];
  produced_artifacts = [];
  signals = [];
  terminal_frozen = false;
  started_at = now;
})

unfoldable pub assert_open : TrialStopLedger → Outcome TrialError (Unit {0})
assert_open ledger =
    raise_if ledger.terminal_frozen (stop_engine_error "terminal Trial ledger is frozen")

-- The check of a position against the last step, if there is one.
unfoldable pub check_move :
    Option TrialRuntimeStep → TrialRuntimePosition → Outcome TrialError (Unit {0})
check_move none position =
    raise_if (position.state != case_created)
      (stop_engine_error "Runtime trajectory must start at CASE_CREATED")
check_move (some step) position =
    let previous = step.payload.position in
    raise_if (not (contains position.state (structural_targets previous.mode previous.state))) (
      stop_engine_error (
        format (
          "illegal Runtime transition "
          ∷ state_value previous.state
          ∷ "->"
          ∷ state_value position.state
          ∷ [])))

abbrev pub position_payload :
    TrialStopLedger → TrialRuntimePosition → String → Datetime → TrialRuntimeStepPayload
position_payload ledger position controlling_ref recorded_at = record {
  step_id = format ("trial-step:" ∷ decimal (length ledger.steps + 1) ∷ []);
  step_index = length ledger.steps + 1;
  position = position;
  controlling_ref = controlling_ref;
  recorded_at = recorded_at;
}

-- `self._steps.append(step)`
abbrev pub append_step : TrialStopLedger → TrialRuntimeStep → TrialStopLedger
append_step ledger step = record ledger { steps = ledger.steps ++ (step ∷ []) }

module _ (canonical_document_sha256 : TrialRuntimeStepPayload → String) where
  unfoldable pub record_position :
      TrialStopLedger
      → TrialRuntimePosition
      → String
      → Datetime
      → Outcome TrialError (TrialStopLedger × TrialRuntimeStep)
  unfolding assert_open check_move freeze_trial_runtime_step
  record_position ledger position controlling_ref recorded_at = do
    assert_open ledger
    raise_if (is_blank controlling_ref)
        (stop_engine_error "Runtime step controlling_ref must be non-empty")
    raise_if
        (position.mode != ledger.manifest.case_mode
          || position.case_revision != ledger.manifest.case_revision)
        (stop_engine_error "Runtime trajectory Case identity changed")
    check_move (get_last? ledger.steps) position
    step ←
        freeze_trial_runtime_step canonical_document_sha256
          (position_payload ledger position controlling_ref recorded_at)
    returned (append_step ledger step, step)

-- The loop of `record_artifacts`: an artifact that is known is not added again.
unfoldable pub add_artifacts : List TrialArtifactRef → List TrialArtifactRef → List TrialArtifactRef
add_artifacts produced [] = produced
add_artifacts produced (item ∷ items) =
    add_artifacts (if contains item produced then produced else produced ++ (item ∷ [])) items

unfoldable pub record_artifacts :
    TrialStopLedger → List TrialArtifactRef → Outcome TrialError TrialStopLedger
unfolding assert_open add_artifacts
record_artifacts ledger artifacts = do
  assert_open ledger
  returned
      (record ledger { produced_artifacts = add_artifacts ledger.produced_artifacts artifacts })

abbrev pub wall_clock_signal : TrialStopSignal
wall_clock_signal = record {
  condition = resource_limit_reached;
  phase = execution_phase;
  reason = "code-owned trial wall-clock ceiling was exceeded at terminal boundary";
  controlling_artifact_refs = [];
}

-- The signal that is kept for one of the authorized boundary, after a time that is measured.
unfoldable pub boundary_signal :
    TrialStopLedger → TrialStopSignal → Elapsed → Outcome TrialError TrialStopSignal
boundary_signal ledger stop unusable =
    raised (stop_engine_error "ledger elapsed seconds must be finite and non-negative")
boundary_signal ledger stop (lasting time) = returned (
    if ltb (nanoseconds ledger.manifest.resource_limits.max_wall_clock_seconds) time
    then wall_clock_signal
    else stop)

-- The signal that is kept.
unfoldable pub kept_signal :
    TrialStopLedger → TrialStopSignal → ClockTime → Outcome TrialError TrialStopSignal
unfolding boundary_signal since
kept_signal ledger stop now =
    if stop.condition == authorized_boundary_reached
    then boundary_signal ledger stop (since ledger.started_at now)
    else returned stop

-- `TrialStopLedger.signal`
unfoldable pub signal :
    TrialStopLedger → TrialStopSignal → ClockTime → Outcome TrialError TrialStopLedger
unfolding assert_open kept_signal
signal ledger stop now = do
  assert_open ledger
  kept ← kept_signal ledger stop now
  returned (record ledger { signals = ledger.signals ++ (kept ∷ []) })

-- `tuple(dict.fromkeys(conditions))`
unfoldable pub from_keys : {A : Type 0} ⦃e : Eq A⦄ → List A → List A
from_keys [] = []
from_keys (c ∷ cs) = c ∷ keep (λ d. d != c) (from_keys cs)

unfoldable pub controlling_signal : TrialStopLedger → Outcome TrialError TrialStopSignal
unfolding select_controlling_stop from_keys
controlling_signal ledger = do
  raise_if (is_empty ledger.signals)
      (stop_engine_error "terminal freeze requires at least one stop signal")
  controlling ← select_controlling_stop (from_keys (map (λ stop. stop.condition) ledger.signals))
  elim (find_first (λ stop. stop.condition == controlling) ledger.signals) [
    | none ↦ raised (value_error "StopIteration")
    | some stop ↦ returned stop
  ]
