-- ===== src/Trial/Meter.antt =====
-- runtime/src/human_cos/trial/stop_engine.py: the stop signal and the resource meter. A clock shows
-- the nanoseconds from some origin, or a value that is not finite.
pub mod Usage
use human_cos_fft1_trial.Prelude.{
  nat_eq, string_eq, bool_eq, option_eq, list_eq, pair_eq, Bool, List, Option, Outcome, String, [],
  any, false, if◌then◌else◌, ltb, none, not, raise_if, raised, returned, some, suc, true, value_or,
  ℕ, ◌&&◌, ◌*◌, ◌+◌, ◌-◌, ◌>>=◌, ◌>>◌, ◌||◌, ◌∷◌,
}
use human_cos_fft1_trial.Prelude.Texts.{is_blank}
use human_cos_fft1_trial.Trial.Contracts.{
  condition_eq, artifact_eq, TrialArtifactRef, TrialError, TrialStopCondition, TrialStopPhase,
  execution_phase, resource_limit_reached, stop_engine_error,
}
use human_cos_fft1_trial.Trial.Limits.{TrialHardCaps}
use human_cos_fft1_trial.Trial.Stop.{phase_eq}

pub record TrialStopSignal : Type 0 where
  pub condition : TrialStopCondition
  pub phase : TrialStopPhase
  pub reason : String
  pub controlling_artifact_refs : List TrialArtifactRef

-- `TrialStopSignal.__post_init__`, which every signal has passed.
unfoldable pub check_stop_signal : TrialStopSignal → Outcome TrialError (Unit {0})
unfolding is_blank
check_stop_signal stop =
    raise_if (is_blank stop.reason) (stop_engine_error "stop signal reason must be non-empty")

-- Python's `int`.
pub data ℤ : Type 0 where
  pos : ℕ → ℤ
  negsuc : ℕ → ℤ

abbrev pub is_negative : ℤ → Bool
is_negative (pos n) = false
is_negative (negsuc n) = true

-- `counter + delta`, for a delta that the guard has let through.
abbrev pub plus : ℕ → ℤ → ℕ
plus counter (pos n) = counter + n
plus counter (negsuc n) = counter - suc n

-- What the clock shows.
pub data ClockTime : Type 0 where
  not_finite : ClockTime
  shows : ℕ → ClockTime

-- A number of seconds: one that is not finite or below 0, or a length of time.
pub data Elapsed : Type 0 where
  unusable : Elapsed
  lasting : ℕ → Elapsed

-- `clock() - started_at`
unfoldable pub since : ℕ → ClockTime → Elapsed
since started_at not_finite = unusable
since started_at (shows now) = if ltb now started_at then unusable else lasting (now - started_at)

abbrev pub nanoseconds : ℕ → ℕ
nanoseconds seconds = seconds * 1000000000

pub record TrialResourceMeter : Type 0 where
  pub resource_limits : TrialHardCaps
  pub stage_calls : ℕ
  pub model_calls : ℕ
  pub output_bytes : ℕ
  pub output_tokens : ℕ
  pub frozen_artifacts : ℕ
  pub elapsed : ℕ
  pub retries : ℕ
  pub started_at : ℕ
  pub recorded_once : Bool

-- The arguments of `record`.
pub record ResourceDeltas : Type 0 where
  pub stage_calls : ℤ
  pub model_calls : ℤ
  pub output_bytes : ℤ
  pub output_tokens : ℤ
  pub frozen_artifacts : ℤ
  pub elapsed : Option Elapsed
  pub retries : ℤ

-- `TrialResourceMeter.__post_init__`
unfoldable pub start_meter : TrialHardCaps → ClockTime → Outcome TrialError TrialResourceMeter
start_meter limits not_finite =
    raised (stop_engine_error "resource clock must return a finite value")
start_meter limits (shows now) = returned (record {
  resource_limits = limits;
  stage_calls = 0;
  model_calls = 0;
  output_bytes = 0;
  output_tokens = 0;
  frozen_artifacts = 0;
  elapsed = 0;
  retries = 0;
  started_at = now;
  recorded_once = false;
})

unfoldable pub non_wall_clock_exceeded : TrialResourceMeter → Bool
non_wall_clock_exceeded meter =
    let limits = meter.resource_limits in
    ltb limits.max_stage_calls meter.stage_calls
    || ltb limits.max_model_calls meter.model_calls
    || ltb limits.max_output_bytes meter.output_bytes
    || ltb limits.max_output_tokens meter.output_tokens
    || ltb limits.max_frozen_artifacts meter.frozen_artifacts
    || ltb limits.max_retries meter.retries

unfoldable pub wall_clock_exceeded : TrialResourceMeter → Bool
wall_clock_exceeded meter =
    ltb (nanoseconds meter.resource_limits.max_wall_clock_seconds) meter.elapsed

unfoldable pub exceeded : TrialResourceMeter → Bool
exceeded meter =
    let limits = meter.resource_limits in
    ltb limits.max_stage_calls meter.stage_calls
    || ltb limits.max_model_calls meter.model_calls
    || ltb limits.max_output_bytes meter.output_bytes
    || ltb limits.max_output_tokens meter.output_tokens
    || ltb limits.max_frozen_artifacts meter.frozen_artifacts
    || ltb (nanoseconds limits.max_wall_clock_seconds) meter.elapsed
    || ltb limits.max_retries meter.retries

abbrev pub ceiling_signal : TrialStopSignal
ceiling_signal = record {
  condition = resource_limit_reached;
  phase = execution_phase;
  reason = "code-owned trial resource ceiling was exceeded";
  controlling_artifact_refs = [];
}

-- The elapsed time of a call, if it is usable.
unfoldable pub elapsed_of : TrialResourceMeter → Option Elapsed → ClockTime → Outcome TrialError ℕ
unfolding since
elapsed_of meter given now = elim (value_or given (since meter.started_at now)) [
  | unusable ↦ raised (stop_engine_error "elapsed seconds must be finite and non-negative")
  | lasting time ↦ returned time
]

-- The meter after the deltas are added.
abbrev pub charged : TrialResourceMeter → ResourceDeltas → ℕ → TrialResourceMeter
charged meter deltas time = record {
  resource_limits = meter.resource_limits;
  stage_calls = plus meter.stage_calls deltas.stage_calls;
  model_calls = plus meter.model_calls deltas.model_calls;
  output_bytes = plus meter.output_bytes deltas.output_bytes;
  output_tokens = plus meter.output_tokens deltas.output_tokens;
  frozen_artifacts = plus meter.frozen_artifacts deltas.frozen_artifacts;
  elapsed = time;
  retries = plus meter.retries deltas.retries;
  started_at = meter.started_at;
  recorded_once = true;
}

-- The signal of a call, on the meter after it: the first call puts off a stop for time alone.
unfoldable pub usage_signal : Bool → TrialResourceMeter → Option TrialStopSignal
unfolding exceeded wall_clock_exceeded non_wall_clock_exceeded
usage_signal first_record meter =
    let defer = first_record && wall_clock_exceeded meter && not (non_wall_clock_exceeded meter) in
    if not (exceeded meter) || defer then none else some ceiling_signal

-- `any(value < 0 for value in values)`
abbrev pub has_negative : ResourceDeltas → Bool
has_negative deltas = any is_negative (
    deltas.stage_calls ∷ deltas.model_calls ∷ deltas.output_bytes ∷ deltas.output_tokens
    ∷ deltas.frozen_artifacts ∷ deltas.retries ∷ [])

-- `TrialResourceMeter.record`
unfoldable pub record_usage :
    TrialResourceMeter
    → ResourceDeltas
    → ClockTime
    → Outcome TrialError (TrialResourceMeter × Option TrialStopSignal)
unfolding elapsed_of usage_signal
record_usage meter deltas now = do
  raise_if (has_negative deltas) (stop_engine_error "resource deltas must be non-negative")
  time ← elapsed_of meter deltas.elapsed now
  raise_if (ltb time meter.elapsed) (stop_engine_error "elapsed seconds must be monotonic")
  let after : TrialResourceMeter = charged meter deltas time
  returned (after, usage_signal (not meter.recorded_once) after)
