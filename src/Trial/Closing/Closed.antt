-- ===== src/Trial/Closing/Closed.antt =====
-- What `freeze_terminal` of stop_engine.py leaves: a closed ledger, and a result that is bound to its
-- stop.
use human_cos_fft1_trial.Prelude.{
  nat_eq, string_eq, bool_eq, option_eq, list_eq, pair_eq, >>=-eq-returned, List, String, ap, false,
  raise_if_iff, raised, refl, returned, returned-injective, subst, sym, ◌∙◌, ◌≡◌,
}
use human_cos_fft1_trial.Core.Contracts.{Datetime}
use human_cos_fft1_trial.Runtime.States.{mode_eq}
use human_cos_fft1_trial.Trial.Closing.{
  TerminalRequest, close_ledger, freeze_terminal, result_payload,
}
use human_cos_fft1_trial.Trial.Contracts.{
  condition_eq, artifact_eq, TrialArtifactRef, TrialError, stop_engine_error,
}
use human_cos_fft1_trial.Trial.Ledger.{
  TrialStopLedger, assert_open, controlling_signal, record_artifacts, record_position, signal,
}
use human_cos_fft1_trial.Trial.Meter.{ClockTime, TrialStopSignal}
use human_cos_fft1_trial.Trial.Result.{
  TrialResult, TrialResultPayload, check_result_payload, freeze_trial_result,
}
use human_cos_fft1_trial.Trial.Result.Integrity.{SoundResult, freeze_trial_result_iff}
use human_cos_fft1_trial.Trial.Steps.{position_eq, TrialRuntimePosition, TrialRuntimeStepPayload}
use human_cos_fft1_trial.Trial.Stop.{
  phase_eq, outcome_eq, TrialStop, TrialStopPayload, check_stop_payload, freeze_trial_stop,
}
use human_cos_fft1_trial.Trial.Stop.Integrity.{SoundStop, freeze_trial_stop_iff}
use human_cos_fft1_trial.Trial.Terminal.{terminal_payload}

abbrev pub terminal_error : TrialError
terminal_error = stop_engine_error "terminal Trial ledger is frozen"

-- The result repeats what the stop says and names its hash.
pub record Bound (stop : TrialStop) (result : TrialResult) : Type 0 where
  pub same_hash : result.payload.trial_stop_hash ≡ stop.stop_hash
  pub same_attempt : result.payload.attempt_receipt_hash ≡ stop.payload.attempt_receipt_hash
  pub same_outcome : result.payload.outcome ≡ stop.payload.outcome
  pub same_condition : result.payload.stop_condition ≡ stop.payload.stop_condition
  pub same_phase : result.payload.stop_phase ≡ stop.payload.stop_phase
  pub same_trajectory : result.payload.runtime_trajectory ≡ stop.payload.runtime_trajectory
  pub same_reasons : result.payload.reasons ≡ stop.payload.reasons
  pub same_artifacts : result.payload.produced_artifacts ≡ stop.payload.produced_artifacts

payloads-Bound :
    (ledger : TrialStopLedger) (request : TerminalRequest) (controlling : TrialStopSignal)
    (stop : TrialStop) (result : TrialResult)
    → stop.payload ≡ terminal_payload ledger request.stop_id request.stopped_at controlling
    → result.payload ≡ result_payload ledger request controlling stop.stop_hash
    → Bound stop result
unfolding terminal_payload result_payload
payloads-Bound ledger request controlling stop result s r = record {
  same_hash = ap (λ p. p.trial_stop_hash) r;
  same_attempt = ap (λ p. p.attempt_receipt_hash) r ∙ sym (ap (λ p. p.attempt_receipt_hash) s);
  same_outcome = ap (λ p. p.outcome) r ∙ sym (ap (λ p. p.outcome) s);
  same_condition = ap (λ p. p.stop_condition) r ∙ sym (ap (λ p. p.stop_condition) s);
  same_phase = ap (λ p. p.stop_phase) r ∙ sym (ap (λ p. p.stop_phase) s);
  same_trajectory = ap (λ p. p.runtime_trajectory) r ∙ sym (ap (λ p. p.runtime_trajectory) s);
  same_reasons = ap (λ p. p.reasons) r ∙ sym (ap (λ p. p.reasons) s);
  same_artifacts = ap (λ p. p.produced_artifacts) r ∙ sym (ap (λ p. p.produced_artifacts) s);
}

assert_open-is_open :
    (ledger : TrialStopLedger) → assert_open ledger ≡ returned tt → ledger.terminal_frozen ≡ false
unfolding assert_open
assert_open-is_open ledger h = (raise_if_iff ledger.terminal_frozen _).0 h

module _ (step_sha256 : TrialRuntimeStepPayload → String) (stop_sha256 : TrialStopPayload → String)
    (result_sha256 : TrialResultPayload → String) where
  -- Every operation on the ledger raises.
  pub record IsClosed (ledger : TrialStopLedger) : Type 0 where
    pub no_position :
        (position : TrialRuntimePosition) (controlling_ref : String) (recorded_at : Datetime)
        → record_position step_sha256 ledger position controlling_ref recorded_at
          ≡ raised terminal_error
    pub no_artifacts :
        (artifacts : List TrialArtifactRef)
        → record_artifacts ledger artifacts ≡ raised terminal_error
    pub no_signal :
        (stop : TrialStopSignal) (now : ClockTime) → signal ledger stop now ≡ raised terminal_error
    pub no_terminal :
        (request : TerminalRequest)
        → freeze_terminal step_sha256 stop_sha256 result_sha256 ledger request
          ≡ raised terminal_error

  close_ledger-IsClosed : (ledger : TrialStopLedger) → IsClosed (close_ledger ledger)
  unfolding record_position record_artifacts signal freeze_terminal assert_open
  close_ledger-IsClosed ledger = record {
    no_position = λ position controlling_ref recorded_at. refl;
    no_artifacts = λ artifacts. refl;
    no_signal = λ stop now. refl;
    no_terminal = λ request. refl;
  }

  -- A terminal freeze that returns was asked of an open ledger and closes it for good: every later
  -- operation, a second freeze too, raises. Its result is bound to its stop, and both are sound.
  pub freeze_terminal-closes :
      (ledger : TrialStopLedger) (request : TerminalRequest) {after : TrialStopLedger}
      {stop : TrialStop} {result : TrialResult}
      → freeze_terminal step_sha256 stop_sha256 result_sha256 ledger request
        ≡ returned (after, (stop, result))
      → (ledger.terminal_frozen ≡ false)
        × IsClosed after
        × Bound stop result
        × SoundStop step_sha256 stop_sha256 stop.payload
        × SoundResult step_sha256 result_sha256 result.payload
  unfolding freeze_terminal
  freeze_terminal-closes ledger request {after} {stop} {result} h =
      let (u, openly, h₁) = >>=-eq-returned (assert_open ledger) _ h in
      let (controlling, controls, h₂) = >>=-eq-returned (controlling_signal ledger) _ h₁ in
      let payload = terminal_payload ledger request.stop_id request.stopped_at controlling in
      let (v, _, h₃) = >>=-eq-returned (check_stop_payload payload) _ h₂ in
      let (s, stopped, h₄) =
        >>=-eq-returned (freeze_trial_stop step_sha256 stop_sha256 payload) _ h₃ in
      let outcome = result_payload ledger request controlling s.stop_hash in
      let (w, _, h₅) = >>=-eq-returned (check_result_payload outcome) _ h₄ in
      let (r, resulted, end) =
        >>=-eq-returned (freeze_trial_result step_sha256 result_sha256 outcome) _ h₅ in
      let same = returned-injective end in
      let (s_is, s_sound) = (freeze_trial_stop_iff step_sha256 stop_sha256 payload s).0 stopped in
      let (r_is, r_sound) =
        (freeze_trial_result_iff step_sha256 result_sha256 outcome r).0 resulted in
      subst
        (λ (t : TrialStopLedger × (TrialStop × TrialResult)).
          (ledger.terminal_frozen ≡ false)
          × IsClosed t.0
          × Bound t.1.0 t.1.1
          × SoundStop step_sha256 stop_sha256 t.1.0.payload
          × SoundResult step_sha256 result_sha256 t.1.1.payload)
        same
        (
          assert_open-is_open ledger openly,
          close_ledger-IsClosed ledger,
          payloads-Bound ledger request controlling s r (ap (λ x. x.payload) s_is)
              (ap (λ x. x.payload) r_is),
          subst (SoundStop step_sha256 stop_sha256) (sym (ap (λ x. x.payload) s_is)) s_sound,
          subst (SoundResult step_sha256 result_sha256) (sym (ap (λ x. x.payload) r_is)) r_sound,
        )
