-- ===== src/Trial/Ledger/Boundary.antt =====
-- What the ledger of stop_engine.py keeps of a stop signal.
use human_cos_fft1_trial.Prelude.{
  nat_eq, string_eq, bool_eq, option_eq, list_eq, pair_eq, ==_false_iff, ==_iff, >>=-eq-returned,
  Bool-cases, [], arith, inl, inr, less_iff, ltb, not_less_iff, refl, returned, returned-injective,
  suc, sym, ℕ, ◌++◌, ◌+◌, ◌-◌, ◌==◌, ◌∷◌, ◌≡◌, ◌≢◌, ◌≤◌, ◌⊎◌,
}
use human_cos_fft1_trial.Runtime.States.{mode_eq}
use human_cos_fft1_trial.Trial.Contracts.{condition_eq, artifact_eq, authorized_boundary_reached}
use human_cos_fft1_trial.Trial.Ledger.{
  TrialStopLedger, assert_open, boundary_signal, kept_signal, signal, wall_clock_signal,
}
use human_cos_fft1_trial.Trial.Meter.{
  ClockTime, Elapsed, TrialStopSignal, lasting, nanoseconds, not_finite, shows, since, unusable,
}

-- The clock is within the wall-clock limit of the ledger.
abbrev pub OnClock : TrialStopLedger → ClockTime → Type 0
OnClock ledger now =
    (time : ℕ) × (now ≡ shows time)
    × (ledger.started_at ≤ time)
    × (time
        ≤ ledger.started_at + nanoseconds ledger.manifest.resource_limits.max_wall_clock_seconds)

-- The clock is past it.
abbrev pub PastClock : TrialStopLedger → ClockTime → Type 0
PastClock ledger now =
    (time : ℕ) × (now ≡ shows time)
    × (suc (ledger.started_at + nanoseconds ledger.manifest.resource_limits.max_wall_clock_seconds)
        ≤ time)

-- What the ledger keeps of a signal: any but the authorized boundary as it is; the boundary as it is
-- within the limit, and the stop of the wall clock in its place past the limit.
abbrev pub Keeps : TrialStopLedger → TrialStopSignal → ClockTime → TrialStopSignal → Type 0
Keeps ledger stop now kept =
    (stop.condition ≢ authorized_boundary_reached) × (kept ≡ stop)
    ⊎ (stop.condition ≡ authorized_boundary_reached)
      × (OnClock ledger now × (kept ≡ stop) ⊎ PastClock ledger now × (kept ≡ wall_clock_signal))

since-lasting :
    (started_at : ℕ) (now : ClockTime) (length_of_time : ℕ)
    → since started_at now ≡ lasting length_of_time
    → (time : ℕ) × (now ≡ shows time) × (started_at ≤ time) × (length_of_time ≡ time - started_at)
unfolding since
since-lasting started_at not_finite n h = cc
since-lasting started_at (shows time) n h = elim (Bool-cases (ltb time started_at)) [
  | inl before ↦ cc (rw before at h)
  | inr fine ↦
      let same : time - started_at ≡ n = cc (rw fine at h) in (time, refl, ground arith, sym same)
]

boundary_signal-kept :
    (ledger : TrialStopLedger) (stop kept : TrialStopSignal) (now : ClockTime) (elapsed : Elapsed)
    → since ledger.started_at now ≡ elapsed
    → boundary_signal ledger stop elapsed ≡ returned kept
    → OnClock ledger now × (kept ≡ stop) ⊎ PastClock ledger now × (kept ≡ wall_clock_signal)
unfolding boundary_signal
boundary_signal-kept ledger stop kept now unusable e h = cc
boundary_signal-kept ledger stop kept now (lasting length_of_time) e h =
    let limit = nanoseconds ledger.manifest.resource_limits.max_wall_clock_seconds in
    let (time, shown, later, difference) = since-lasting ledger.started_at now length_of_time e in
    elim (Bool-cases (ltb limit length_of_time)) [
      | inl late ↦
          let over : suc limit ≤ length_of_time = (less_iff limit length_of_time).0 late in
          inr ((time, shown, omega arith), sym (returned-injective (rw late at h)))
      | inr timely ↦
          let within : length_of_time ≤ limit = (not_less_iff limit length_of_time).0 timely in
          inl ((time, shown, later, omega arith), sym (returned-injective (rw timely at h)))
    ]

kept_signal-Keeps :
    (ledger : TrialStopLedger) (stop kept : TrialStopSignal) (now : ClockTime)
    → kept_signal ledger stop now ≡ returned kept
    → Keeps ledger stop now kept
unfolding kept_signal
kept_signal-Keeps ledger stop kept now h =
    elim (Bool-cases (stop.condition == authorized_boundary_reached)) [
      | inr other ↦ inl ((==_false_iff _ _).0 other, sym (returned-injective (rw other at h)))
      | inl boundary ↦
          let kept_so = boundary_signal-kept ledger stop kept now _ refl (rw boundary at h) in
          inr ((==_iff _ _).0 boundary, kept_so)
    ]

-- A signal that is accepted is appended to those of the ledger, whose other facts stay. It is kept as
-- it is, unless it is one of the authorized boundary past the wall-clock limit: the stop of the wall
-- clock is kept in place of that. A boundary that is kept came on a clock that is finite, not before
-- the ledger's start and within the limit from it.
pub signal_lem :
    (ledger : TrialStopLedger) (stop : TrialStopSignal) (now : ClockTime) (after : TrialStopLedger)
    → signal ledger stop now ≡ returned after
    → (kept : TrialStopSignal) × (after ≡ record ledger { signals = ledger.signals ++ (kept ∷ []) })
      × Keeps ledger stop now kept
unfolding signal
signal_lem ledger stop now after h =
    let (u, openly, rest) = >>=-eq-returned (assert_open ledger) _ h in
    let (kept, chosen, end) = >>=-eq-returned (kept_signal ledger stop now) _ rest in
    (kept, sym (returned-injective end), kept_signal-Keeps ledger stop kept now chosen)
