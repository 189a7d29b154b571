-- ===== src/Tests/Stops.antt =====
-- A trial attempt of stop_engine.py, from its first step to its controlling stop.
use human_cos_fft1_trial.Trial.Ledger.Journal.{opened}
use human_cos_fft1_trial.Trial.Ledger.Journal.{positioned}
use human_cos_fft1_trial.Prelude.{
  nat_eq, string_eq, bool_eq, option_eq, list_eq, pair_eq, List, Memᴰ, Option, String, [], false,
  none, not, raised, refl, returned, some, true, ◌++◌, ◌↔◌, ◌∷◌, ◌≡◌, ◌≢◌, ◌≤◌, ◌⊎◌,
}
use human_cos_fft1_trial.Prelude.Texts.{decimal, is_blank}
use human_cos_fft1_trial.Core.Contracts.{aware}
use human_cos_fft1_trial.Runtime.States.{mode_eq, state_eq, case_created, live_foresight}
use human_cos_fft1_trial.Trial.Contracts.{
  condition_eq, artifact_eq, TrialArtifactRef, TrialStopCondition, authorized_boundary_reached,
  completed_at_authorized_boundary, execution_phase, rank, resource_limit_reached,
  select_controlling_stop, stop_engine_error, stop_outcome_for, trial_stop_precedence,
}
use human_cos_fft1_trial.Trial.Ledger.{
  TrialManifest, TrialStopLedger, append_step, assert_open, boundary_signal, check_move,
  controlling_signal, from_keys, kept_signal, open_ledger, record_position, signal,
  wall_clock_signal,
}
use human_cos_fft1_trial.Trial.Ledger.Boundary.{Keeps, signal_lem}
use human_cos_fft1_trial.Trial.Ledger.Contract.{Journal-accepted}
use human_cos_fft1_trial.Trial.Ledger.Journal.{Journal-WellFormed, WellFormed}
use human_cos_fft1_trial.Trial.Ledger.Signals.{
  ControlsSignals, controlling_signal-completes_iff, controlling_signal_total,
}
use human_cos_fft1_trial.Trial.Limits.{TrialHardCaps, trial_hard_caps, within_hard_caps}
use human_cos_fft1_trial.Trial.Meter.{
  ResourceDeltas, TrialResourceMeter, TrialStopSignal, ceiling_signal, charged, check_stop_signal,
  elapsed_of, exceeded, non_wall_clock_exceeded, pos, record_usage, shows, since, start_meter,
  usage_signal, wall_clock_exceeded,
}
use human_cos_fft1_trial.Trial.Meter.Usage.{
  Charges, Silent-within_hard_caps, WithinCounts, WithinTime, called, record_usage_lem, unused,
}
use human_cos_fft1_trial.Trial.Steps.{
  position_eq, TrialRuntimePosition, TrialRuntimeStep, TrialRuntimeStepPayload,
  assert_step_integrity, assert_trajectory, freeze_trial_runtime_step, must_be_aware,
  trial_runtime_position,
}

abbrev limits : TrialHardCaps
limits = record trial_hard_caps { max_stage_calls = 2; max_wall_clock_seconds = 10 }

limits_accepted : within_hard_caps limits ≡ returned tt
unfolding within_hard_caps
limits_accepted = refl

abbrev trial_manifest : TrialManifest
trial_manifest = record {
  manifest_hash = "m0";
  case_id = "case-1";
  case_revision = 1;
  case_mode = live_foresight;
  resource_limits = limits;
}

-- A hash by a field of the document.
abbrev hash_of : TrialRuntimeStepPayload → String
hash_of payload = payload.step_id

abbrev empty_ledger : TrialStopLedger
empty_ledger = record {
  attempt_receipt_hash = "a0";
  manifest = trial_manifest;
  environment_admission_hash = "n0";
  steps = [];
  produced_artifacts = [];
  signals = [];
  terminal_frozen = false;
  started_at = 5;
}

ledger_opened : open_ledger "a0" trial_manifest "n0" (shows 5) ≡ returned empty_ledger
unfolding open_ledger
ledger_opened = refl

abbrev first_position : TrialRuntimePosition
first_position = record { mode = live_foresight; state = case_created; case_revision = 1 }

abbrev first_step : TrialRuntimeStep
first_step = record {
  payload = record {
    step_id = "trial-step:1";
    step_index = 1;
    position = first_position;
    controlling_ref = "case";
    recorded_at = aware 6;
  };
  step_hash = "trial-step:1";
}

first_recorded :
    record_position hash_of empty_ledger first_position "case" (aware 6)
    ≡ returned (append_step empty_ledger first_step, first_step)
unfolding record_position is_blank decimal assert_open check_move freeze_trial_runtime_step
    assert_step_integrity must_be_aware trial_runtime_position
first_recorded = refl

Journal-WellFormed_example : WellFormed hash_of trial_manifest (append_step empty_ledger first_step)
Journal-WellFormed_example =
    Journal-WellFormed hash_of "a0" "n0" trial_manifest (shows 5) empty_ledger
      (append_step empty_ledger first_step) ledger_opened
      (positioned first_position "case" (aware 6) first_step opened first_recorded)

abbrev boundary : TrialStopSignal
boundary = record {
  condition = authorized_boundary_reached;
  phase = execution_phase;
  reason = "done";
  controlling_artifact_refs = [];
}

-- A signal needs a reason.
blank_signal :
    check_stop_signal (record boundary { reason = " " })
    ≡ raised (stop_engine_error "stop signal reason must be non-empty")
unfolding check_stop_signal
blank_signal = refl

-- The boundary is reached after eleven seconds, one too late.
abbrev stopped_ledger : TrialStopLedger
stopped_ledger = record empty_ledger { signals = wall_clock_signal ∷ [] }

late_boundary : signal empty_ledger boundary (shows 11000000005) ≡ returned stopped_ledger
unfolding signal assert_open kept_signal boundary_signal since
late_boundary = refl

signal_lem_example :
    (kept : TrialStopSignal) × (stopped_ledger
      ≡ record empty_ledger { signals = empty_ledger.signals ++ (kept ∷ []) })
    × Keeps empty_ledger boundary (shows 11000000005) kept
signal_lem_example =
    signal_lem empty_ledger boundary (shows 11000000005) stopped_ledger late_boundary

-- Both signals: the ceiling controls.
abbrev both_ledger : TrialStopLedger
both_ledger = record empty_ledger { signals = boundary ∷ ceiling_signal ∷ [] }

ceiling_controls : controlling_signal both_ledger ≡ returned ceiling_signal
unfolding controlling_signal select_controlling_stop rank from_keys trial_stop_precedence
ceiling_controls = refl

has_signals : both_ledger.signals ≢ []
has_signals = λ h. cc

controlling_signal_total_example :
    (stop : TrialStopSignal) × (controlling_signal both_ledger ≡ returned stop)
    × ControlsSignals stop both_ledger.signals
controlling_signal_total_example = controlling_signal_total both_ledger has_signals

controlling_signal-completes_iff_example :
    (stop_outcome_for resource_limit_reached ≡ completed_at_authorized_boundary) ↔ (
      (other : TrialStopSignal)
      → Memᴰ other both_ledger.signals
      → other.condition ≡ authorized_boundary_reached)
controlling_signal-completes_iff_example =
    controlling_signal-completes_iff both_ledger ceiling_signal ceiling_controls

abbrev two_conditions : List TrialStopCondition
two_conditions = authorized_boundary_reached ∷ resource_limit_reached ∷ []

abbrev artifact : TrialArtifactRef
artifact = record { kind = "step"; ref = "r1"; sha256 = "s1" }

abbrev fresh_meter : TrialResourceMeter
fresh_meter = record {
  resource_limits = limits;
  stage_calls = 0;
  model_calls = 0;
  output_bytes = 0;
  output_tokens = 0;
  frozen_artifacts = 0;
  elapsed = 0;
  retries = 0;
  started_at = 5;
  recorded_once = false;
}

meter_started : start_meter limits (shows 5) ≡ returned fresh_meter
unfolding start_meter
meter_started = refl

-- One stage call with two model calls.
abbrev first_usage : ResourceDeltas
first_usage = record {
  stage_calls = pos 1;
  model_calls = pos 2;
  output_bytes = pos 0;
  output_tokens = pos 0;
  frozen_artifacts = pos 0;
  elapsed = none;
  retries = pos 0;
}

abbrev used_meter : TrialResourceMeter
used_meter = charged fresh_meter first_usage 7

first_charged : record_usage fresh_meter first_usage (shows 12) ≡ returned (used_meter, none)
unfolding record_usage elapsed_of since usage_signal exceeded non_wall_clock_exceeded
    wall_clock_exceeded
first_charged = refl

record_usage_lem_example :
    Charges fresh_meter first_usage (shows 12) used_meter
    × ((◌≡◌ {A = Option TrialStopSignal} none none)
        ↔ WithinCounts used_meter
          × ((not fresh_meter.recorded_once ≡ true) ⊎ WithinTime used_meter))
record_usage_lem_example =
    record_usage_lem fresh_meter first_usage (shows 12) used_meter none first_charged

Silent-within_hard_caps_example :
    (used_meter.stage_calls ≤ 64)
    × (used_meter.model_calls ≤ 64)
    × (used_meter.output_bytes ≤ 2097152)
    × (used_meter.output_tokens ≤ 1000000)
    × (used_meter.frozen_artifacts ≤ 2048)
    × (used_meter.retries ≡ 0)
Silent-within_hard_caps_example =
    Silent-within_hard_caps limits (shows 5) fresh_meter used_meter limits_accepted meter_started
      (called first_usage (shows 12) unused first_charged)

Journal-accepted_example :
    assert_trajectory hash_of (some live_foresight) (some 1) (first_step ∷ []) (some first_position)
    ≡ returned tt
Journal-accepted_example =
    Journal-accepted hash_of trial_manifest "a0" "n0" (shows 5) empty_ledger
      (append_step empty_ledger first_step) ledger_opened
      (positioned first_position "case" (aware 6) first_step opened first_recorded)
