-- ===== src/Trial/Terminal/Total.antt =====
-- What `freeze_terminal` of stop_engine.py freezes first, for a trial that executed: a sound stop.
use human_cos_fft1_trial.Trial.Ledger.Trajectory.{Trajectory}
use human_cos_fft1_trial.Prelude.{
  nat_eq, string_eq, bool_eq, option_eq, list_eq, pair_eq, ==_refl, Bool, Memᴰ, Memᴰ-keep, Memᴰ-map,
  String, [], false, refl, returned, returned-injective, subst, sym, ℕ, ◌==◌, ◌∙◌, ◌≡◌, ◌≢◌,
}
use human_cos_fft1_trial.Core.Contracts.{aware}
use human_cos_fft1_trial.Runtime.States.{mode_eq}
use human_cos_fft1_trial.Trial.Contracts.{condition_eq, artifact_eq, execution_phase}
use human_cos_fft1_trial.Trial.Ledger.{
  TrialManifest, TrialStopLedger, assert_open, controlling_signal, from_keys,
}
use human_cos_fft1_trial.Trial.Ledger.Contract.{Trajectory-accepted}
use human_cos_fft1_trial.Trial.Ledger.Journal.{WellFormed}
use human_cos_fft1_trial.Trial.Ledger.Signals.{
  Memᴰ-from_keys, controlling_signal_total, from_keys-distinct, has_signal,
}
use human_cos_fft1_trial.Trial.Meter.{TrialStopSignal}
use human_cos_fft1_trial.Trial.Steps.{TrialRuntimeStepPayload}
use human_cos_fft1_trial.Trial.Stop.{phase_eq, outcome_eq, TrialStopPayload, allowed_stop_phases}
use human_cos_fft1_trial.Trial.Stop.Integrity.{FitsPhase, KeepsLineage, SoundStop}
use human_cos_fft1_trial.Trial.Terminal.{reasons_of, terminal_payload}

-- The controlling signal gives a reason.
pub reasons-ne_nil :
    (ledger : TrialStopLedger) (controlling : TrialStopSignal)
    → controlling_signal ledger ≡ returned controlling
    → from_keys (reasons_of controlling.condition ledger.signals) ≢ []
reasons-ne_nil ledger controlling h e =
    let (found, known, (there, _)) = controlling_signal_total ledger (has_signal ledger h) in
    let same : found ≡ controlling = returned-injective (sym known ∙ h) in
    let mine : Memᴰ controlling ledger.signals = subst (λ s. Memᴰ s ledger.signals) same there in
    let test : TrialStopSignal → Bool = λ stop. stop.condition == controlling.condition in
    let kept = (Memᴰ-keep test ledger.signals).1 (mine, ==_refl controlling.condition) in
    let reason = Memᴰ-map (λ stop. stop.reason) kept in
    let m = (Memᴰ-from_keys (reasons_of controlling.condition ledger.signals)).1 reason in
    elim (subst (Memᴰ controlling.reason) e m) [ ]

pub assert_open_lem :
    (ledger : TrialStopLedger) → ledger.terminal_frozen ≡ false → assert_open ledger ≡ returned tt
unfolding assert_open
assert_open_lem ledger h = rw h

module _ (step_sha256 : TrialRuntimeStepPayload → String)
    (stop_sha256 : TrialStopPayload → String) where
  pub terminal_payload-SoundStop :
      (manifest : TrialManifest) (ledger : TrialStopLedger) (stop_id : String) (instant : ℕ)
      (controlling : TrialStopSignal)
      → WellFormed step_sha256 manifest ledger
      → controlling_signal ledger ≡ returned controlling
      → controlling.phase ≡ execution_phase
      → Memᴰ execution_phase (allowed_stop_phases controlling.condition)
      → ledger.steps ≢ []
      → KeepsLineage (terminal_payload ledger stop_id (aware instant) controlling)
      → SoundStop step_sha256 stop_sha256
          (terminal_payload ledger stop_id (aware instant) controlling)
  unfolding terminal_payload
  terminal_payload-SoundStop manifest ledger stop_id instant controlling fine h executes fits ran
        lineage =
      record {
        stamped = (instant, refl);
        fits_condition = refl;
        fits_phase =
            subst (λ p. Memᴰ p (allowed_stop_phases controlling.condition)) (sym executes) fits;
        distinct = from_keys-distinct (reasons_of controlling.condition ledger.signals);
        has_reason = reasons-ne_nil ledger controlling h;
        trajectory = Trajectory-accepted step_sha256 ledger.manifest (
            subst (λ m. Trajectory step_sha256 m ledger.steps) (sym fine.same_manifest)
              fine.trajectory);
        phased =
            subst (λ p. FitsPhase p (terminal_payload ledger stop_id (aware instant) controlling))
              (sym executes) (((λ e. cc), (λ e. cc)), ran);
        lineage = lineage;
      }
