-- ===== src/Trial/Meter/Usage.antt =====
-- What a call of the meter of stop_engine.py charges, and when it stops the trial.
use human_cos_fft1_trial.Prelude.{
  nat_eq, string_eq, bool_eq, option_eq, list_eq, pair_eq, >>=-eq-returned, Bool, Bool-cases,
  Option, arith, false, inl, inr, ltb, none, not, raise_if, raise_if-eq-returned,
  raised_ne_returned, refl, returned, returned-injective, subst, sym, true, ℕ, ◌+◌, ◌||◌, ◌↔◌, ◌∙◌,
  ◌≡◌, ◌≤◌, ◌⊎◌,
}
use human_cos_fft1_trial.Trial.Contracts.{condition_eq}
use human_cos_fft1_trial.Trial.Limits.{TrialHardCaps, within_hard_caps, within_hard_caps_iff}
use human_cos_fft1_trial.Trial.Meter.{
  ClockTime, ResourceDeltas, TrialResourceMeter, TrialStopSignal, charged, elapsed_of, exceeded,
  has_negative, is_negative, nanoseconds, negsuc, non_wall_clock_exceeded, not_finite, plus, pos,
  record_usage, shows, start_meter, usage_signal, wall_clock_exceeded, ℤ,
}

-- Every counter but the time is within its limit.
abbrev pub WithinCounts : TrialResourceMeter → Type 0
WithinCounts meter =
    (meter.stage_calls ≤ meter.resource_limits.max_stage_calls)
    × (meter.model_calls ≤ meter.resource_limits.max_model_calls)
    × (meter.output_bytes ≤ meter.resource_limits.max_output_bytes)
    × (meter.output_tokens ≤ meter.resource_limits.max_output_tokens)
    × (meter.frozen_artifacts ≤ meter.resource_limits.max_frozen_artifacts)
    × (meter.retries ≤ meter.resource_limits.max_retries)

abbrev pub WithinTime : TrialResourceMeter → Type 0
WithinTime meter = meter.elapsed ≤ nanoseconds meter.resource_limits.max_wall_clock_seconds

non_wall_clock_exceeded_iff :
    (meter : TrialResourceMeter) → (non_wall_clock_exceeded meter ≡ false) ↔ WithinCounts meter
unfolding non_wall_clock_exceeded
non_wall_clock_exceeded_iff meter = (
  λ h. (ground arith, ground arith, ground arith, ground arith, ground arith, ground arith),
  λ (a, b, c, d, e, f). ground arith,
)

wall_clock_exceeded_iff :
    (meter : TrialResourceMeter) → (wall_clock_exceeded meter ≡ false) ↔ WithinTime meter
unfolding wall_clock_exceeded
wall_clock_exceeded_iff meter = (λ h. ground arith, λ h. ground arith)

exceeded_split :
    (meter : TrialResourceMeter)
    → exceeded meter ≡ (wall_clock_exceeded meter || non_wall_clock_exceeded meter)
unfolding exceeded wall_clock_exceeded non_wall_clock_exceeded
exceeded_split meter = ground arith

usage_signal-none_iff :
    (first : Bool) (meter : TrialResourceMeter)
    → (usage_signal first meter ≡ none) ↔ WithinCounts meter × ((first ≡ true) ⊎ WithinTime meter)
unfolding usage_signal
usage_signal-none_iff first meter =
    let counts = non_wall_clock_exceeded_iff meter in
    let time = wall_clock_exceeded_iff meter in
    let split = exceeded_split meter in
    (
      λ h.
          let fine : non_wall_clock_exceeded meter ≡ false = ground arith in
          (
            counts.0 fine,
            elim (Bool-cases first) [
              | inl is_first ↦ inl is_first
              | inr is_later ↦ inr (time.0 (ground arith))
            ],
          ),
      λ (within, way).
          let fine = counts.1 within in
          elim way [
            | inl is_first ↦ ground arith
            | inr timely ↦ let t = time.1 timely in ground arith
          ],
    )

-- The delta of a counter is not negative, and it is added.
abbrev pub Adds : ℕ → ℤ → ℕ → Type 0
Adds counter delta total = (n : ℕ) × (delta ≡ pos n) × (total ≡ counter + n)

adds :
    (counter : ℕ) (delta : ℤ) → is_negative delta ≡ false → Adds counter delta (plus counter delta)
adds counter (pos n) h = (n, refl, refl)
adds counter (negsuc n) h = cc

-- What a call changes of the meter.
pub record Charges (meter : TrialResourceMeter) (deltas : ResourceDeltas) (now : ClockTime)
    (after : TrialResourceMeter) : Type 0 where
  pub stage_calls : Adds meter.stage_calls deltas.stage_calls after.stage_calls
  pub model_calls : Adds meter.model_calls deltas.model_calls after.model_calls
  pub output_bytes : Adds meter.output_bytes deltas.output_bytes after.output_bytes
  pub output_tokens : Adds meter.output_tokens deltas.output_tokens after.output_tokens
  pub frozen_artifacts : Adds meter.frozen_artifacts deltas.frozen_artifacts after.frozen_artifacts
  pub retries : Adds meter.retries deltas.retries after.retries
  pub time : elapsed_of meter deltas.elapsed now ≡ returned after.elapsed
  pub monotone : meter.elapsed ≤ after.elapsed
  pub same_limits : after.resource_limits ≡ meter.resource_limits
  pub marked : after.recorded_once ≡ true

-- A call that returns has charged its deltas, all non-negative, and a time that is not less than
-- before; it is silent exactly when every counter is within its limit and so is the time, or the call
-- is the meter's first.
pub record_usage_lem :
    (meter : TrialResourceMeter) (deltas : ResourceDeltas) (now : ClockTime)
    (after : TrialResourceMeter) (signal : Option TrialStopSignal)
    → record_usage meter deltas now ≡ returned (after, signal)
    → Charges meter deltas now after
      × ((signal ≡ none)
          ↔ WithinCounts after × ((not meter.recorded_once ≡ true) ⊎ WithinTime after))
unfolding record_usage
record_usage_lem meter deltas now after signal h =
    let (u, checked, rest) = >>=-eq-returned (raise_if (has_negative deltas) _) _ h in
    let (time, measured, more) = >>=-eq-returned (elapsed_of meter deltas.elapsed now) _ rest in
    let (v, later, end) = >>=-eq-returned (raise_if (ltb time meter.elapsed) _) _ more in
    let signs : has_negative deltas ≡ false = raise_if-eq-returned _ _ checked in
    let forward = raise_if-eq-returned _ _ later in
    let charges : Charges meter deltas now (charged meter deltas time) = record {
      stage_calls = adds _ _ (ground arith);
      model_calls = adds _ _ (ground arith);
      output_bytes = adds _ _ (ground arith);
      output_tokens = adds _ _ (ground arith);
      frozen_artifacts = adds _ _ (ground arith);
      retries = adds _ _ (ground arith);
      time = measured;
      monotone = ground arith;
      same_limits = refl;
      marked = refl;
    } in
    subst
      (λ result.
        Charges meter deltas now result.0
        × ((result.1 ≡ none)
            ↔ WithinCounts result.0 × ((not meter.recorded_once ≡ true) ⊎ WithinTime result.0)))
      (returned-injective end)
      (charges, usage_signal-none_iff (not meter.recorded_once) (charged meter deltas time))

-- Calls in turn, each of them silent.
pub data Silent : TrialResourceMeter → TrialResourceMeter → Type 0 where
  unused : {meter : TrialResourceMeter} → Silent meter meter
  called :
      {origin meter after : TrialResourceMeter} (deltas : ResourceDeltas) (now : ClockTime)
      → Silent origin meter
      → record_usage meter deltas now ≡ returned (after, none)
      → Silent origin after

-- What silence keeps.
Silent-keeps :
    (origin : TrialResourceMeter) {meter : TrialResourceMeter}
    → Silent origin meter
    → WithinCounts origin
    → (meter.resource_limits ≡ origin.resource_limits) × WithinCounts meter
Silent-keeps origin unused within = (refl, within)
Silent-keeps origin (called {meter} {after} deltas now calls h) within =
    let (same, _) = Silent-keeps origin calls within in
    let (charges, silence) = record_usage_lem meter deltas now after none h in
    (charges.same_limits ∙ same, (silence.0 refl).0)

fresh-within :
    (limits : TrialHardCaps) (now : ClockTime) (origin : TrialResourceMeter)
    → start_meter limits now ≡ returned origin
    → (origin.resource_limits ≡ limits) × WithinCounts origin
unfolding start_meter
fresh-within limits not_finite origin h = absurd (raised_ne_returned h)
fresh-within limits (shows now) origin h =
    subst (λ m. (m.resource_limits ≡ limits) × WithinCounts m) (returned-injective h)
      (refl, (omega arith, omega arith, omega arith, omega arith, omega arith, omega arith))

-- A meter that was started with accepted limits and has been silent at every call has counted no more
-- than the code's hard caps, and no retry.
pub Silent-within_hard_caps :
    (limits : TrialHardCaps) (now : ClockTime) (origin meter : TrialResourceMeter)
    → within_hard_caps limits ≡ returned tt
    → start_meter limits now ≡ returned origin
    → Silent origin meter
    → (meter.stage_calls ≤ 64)
      × (meter.model_calls ≤ 64)
      × (meter.output_bytes ≤ 2097152)
      × (meter.output_tokens ≤ 1000000)
      × (meter.frozen_artifacts ≤ 2048)
      × (meter.retries ≡ 0)
Silent-within_hard_caps limits now origin meter accepted fresh calls =
    let (given, zero_counts) = fresh-within limits now origin fresh in
    let (kept, within) = Silent-keeps origin calls zero_counts in
    let same : meter.resource_limits ≡ limits = kept ∙ given in
    let (stages, models, bytes, tokens, artifacts, retried) = within in
    let caps =
      (within_hard_caps_iff meter.resource_limits).0
        (subst (λ l. within_hard_caps l ≡ returned tt) (sym same) accepted) in
    let (_, (_, (_, (_, (_, (c1, (c2, (c3, (c4, (c5, (_, (_, (c6, _))))))))))))) = caps in
    (omega arith, omega arith, omega arith, omega arith, omega arith, omega arith)
