-- ===== src/Tests/Terminal.antt =====
-- A trial of stop_engine.py that stops at a capability gap after its first step.
use human_cos_fft1_trial.Prelude.{
  nat_eq, string_eq, bool_eq, option_eq, list_eq, pair_eq, ==_false_iff, Memᴰ, String, [], arith,
  false, none, raised, refl, returned, true, ◌∷◌, ◌≡◌, ◌≢◌,
}
use human_cos_fft1_trial.Prelude.Texts.{decimal, is_blank, is_sha256}
use human_cos_fft1_trial.Core.Contracts.{aware}
use human_cos_fft1_trial.Runtime.States.{mode_eq, state_eq, case_created, live_foresight}
use human_cos_fft1_trial.Trial.Closing.{
  TerminalRequest, close_ledger, freeze_terminal, result_payload,
}
use human_cos_fft1_trial.Trial.Closing.Closed.{Bound, IsClosed, freeze_terminal-closes}
use human_cos_fft1_trial.Trial.Closing.Total.{ResultReady, Writable, freeze_terminal_total}
use human_cos_fft1_trial.Trial.Contracts.{
  payload_error, condition_eq, artifact_eq, capability_gap_stop, execution_phase,
  select_controlling_stop, stop_outcome_for,
}
use human_cos_fft1_trial.Trial.Ledger.{
  TrialManifest, TrialStopLedger, append_step, assert_open, check_move, controlling_signal,
  from_keys, kept_signal, open_ledger, record_position, signal,
}
use human_cos_fft1_trial.Trial.Limits.{trial_hard_caps}
use human_cos_fft1_trial.Trial.Meter.{TrialStopSignal, shows}
use human_cos_fft1_trial.Trial.Result.{TrialResult, TrialResultPayload, not_evaluated}
use human_cos_fft1_trial.Trial.Result.Integrity.{SoundResult}
use human_cos_fft1_trial.Trial.Steps.{
  position_eq, TrialRuntimePosition, TrialRuntimeStep, TrialRuntimeStepPayload,
  assert_step_integrity, freeze_trial_runtime_step, must_be_aware, trial_runtime_position,
}
use human_cos_fft1_trial.Trial.Stop.{
  phase_eq, outcome_eq, TrialStop, TrialStopPayload, allowed_stop_phases,
}
use human_cos_fft1_trial.Trial.Stop.Integrity.{KeepsLineage, SoundStop}
use human_cos_fft1_trial.Trial.Terminal.{terminal_payload}
use human_cos_fft1_trial.Trial.Ledger.Journal.{Journal, opened, positioned, signalled}

abbrev digest : String
digest = "0f0f0f0f0f0f0f0f0f0f0f0f0f0f0f0f0f0f0f0f0f0f0f0f0f0f0f0f0f0f0f0f"

abbrev gap_manifest : TrialManifest
gap_manifest = record {
  manifest_hash = digest;
  case_id = "case-2";
  case_revision = 1;
  case_mode = live_foresight;
  resource_limits = trial_hard_caps;
}

abbrev hash_of_step : TrialRuntimeStepPayload → String
hash_of_step payload = payload.step_id

abbrev hash_of_stop : TrialStopPayload → String
hash_of_stop payload = digest

abbrev gap_origin : TrialStopLedger
gap_origin = record {
  attempt_receipt_hash = digest;
  manifest = gap_manifest;
  environment_admission_hash = digest;
  steps = [];
  produced_artifacts = [];
  signals = [];
  terminal_frozen = false;
  started_at = 5;
}

gap_opened : open_ledger digest gap_manifest digest (shows 5) ≡ returned gap_origin
unfolding open_ledger
gap_opened = refl

abbrev gap_position : TrialRuntimePosition
gap_position = record { mode = live_foresight; state = case_created; case_revision = 1 }

abbrev gap_step : TrialRuntimeStep
gap_step = record {
  payload = record {
    step_id = "trial-step:1";
    step_index = 1;
    position = gap_position;
    controlling_ref = "case";
    recorded_at = aware 6;
  };
  step_hash = "trial-step:1";
}

abbrev gap_started : TrialStopLedger
gap_started = append_step gap_origin gap_step

gap_recorded :
    record_position hash_of_step gap_origin gap_position "case" (aware 6)
    ≡ returned (gap_started, gap_step)
unfolding record_position is_blank decimal assert_open check_move freeze_trial_runtime_step
    assert_step_integrity must_be_aware trial_runtime_position
gap_recorded = refl

abbrev gap_signal : TrialStopSignal
gap_signal = record {
  condition = capability_gap_stop;
  phase = execution_phase;
  reason = "no qualified model";
  controlling_artifact_refs = [];
}

abbrev gap_ledger : TrialStopLedger
gap_ledger = record gap_started { signals = gap_signal ∷ [] }

gap_signalled : signal gap_started gap_signal (shows 9) ≡ returned gap_ledger
unfolding signal assert_open kept_signal
gap_signalled = refl

abbrev gap_journal : Journal hash_of_step gap_origin gap_ledger
gap_journal =
    signalled gap_signal (shows 9)
      (positioned gap_position "case" (aware 6) gap_step opened gap_recorded) gap_signalled

gap_controls : controlling_signal gap_ledger ≡ returned gap_signal
unfolding controlling_signal select_controlling_stop from_keys
gap_controls = refl

gap_fits : Memᴰ execution_phase (allowed_stop_phases capability_gap_stop)
unfolding allowed_stop_phases
gap_fits = Memᴰ.head refl

gap_ran : gap_ledger.steps ≢ []
gap_ran = λ h. cc

gap_lineage : KeepsLineage (terminal_payload gap_ledger "stop-2" (aware 10) gap_signal)
unfolding terminal_payload
gap_lineage = λ h. cc

abbrev hash_of_result : TrialResultPayload → String
hash_of_result payload = digest

abbrev gap_request : TerminalRequest
gap_request = record {
  stop_id = "stop-2";
  result_id = "result-2";
  acceptance = not_evaluated;
  stopped_at = aware 10;
  substantive_case_outcome = none;
  limitations = "one step" ∷ [];
  dissent_refs = "d1" ∷ "d2" ∷ [];
  unresolved_condition_refs = [];
}

gap_ready : ResultReady gap_ledger gap_request gap_signal
unfolding stop_outcome_for
gap_ready = record {
  distinct_dissent = refl;
  distinct_unresolved = refl;
  completed = λ h. cc;
  substantive = λ h. refl;
}

gap-Writable : Writable gap_ledger gap_request
unfolding is_sha256
gap-Writable = record {
  named_stop = (==_false_iff "stop-2" "").0 refl;
  named_result = (==_false_iff "result-2" "").0 refl;
  attempt_hash = refl;
  manifest_hash = refl;
  environment_hash = refl;
  revised = omega arith;
}

digest-is_sha256 : is_sha256 digest ≡ true
unfolding is_sha256
digest-is_sha256 = refl

-- A request without an id for the stop is refused.
nameless_refused :
    freeze_terminal hash_of_step hash_of_stop hash_of_result gap_ledger
      (record gap_request { stop_id = "" })
    ≡ raised (payload_error "TrialStopPayload" ("stop_id" ∷ []))
unfolding freeze_terminal
nameless_refused = refl

abbrev gap_stop : TrialStop
gap_stop = record {
  payload = terminal_payload gap_ledger "stop-2" (aware 10) gap_signal;
  stop_hash = hash_of_stop (terminal_payload gap_ledger "stop-2" (aware 10) gap_signal);
}

abbrev gap_result : TrialResult
gap_result = record {
  payload = result_payload gap_ledger gap_request gap_signal gap_stop.stop_hash;
  result_hash =
      hash_of_result (result_payload gap_ledger gap_request gap_signal gap_stop.stop_hash);
}

gap_frozen :
    freeze_terminal hash_of_step hash_of_stop hash_of_result gap_ledger gap_request
    ≡ returned (close_ledger gap_ledger, (gap_stop, gap_result))
unfolding freeze_terminal
gap_frozen = refl

freeze_terminal_total_example :
    freeze_terminal hash_of_step hash_of_stop hash_of_result gap_ledger gap_request
    ≡ returned (close_ledger gap_ledger, (gap_stop, gap_result))
freeze_terminal_total_example =
    freeze_terminal_total hash_of_step hash_of_stop hash_of_result digest digest gap_manifest
      (shows 5) gap_origin gap_ledger gap_opened gap_journal gap_request 10 gap_signal refl
      gap_controls refl gap_fits gap_ran gap_lineage gap_ready gap-Writable digest-is_sha256

freeze_terminal-closes_example :
    (gap_ledger.terminal_frozen ≡ false)
    × IsClosed hash_of_step hash_of_stop hash_of_result (close_ledger gap_ledger)
    × Bound gap_stop gap_result
    × SoundStop hash_of_step hash_of_stop gap_stop.payload
    × SoundResult hash_of_step hash_of_result gap_result.payload
freeze_terminal-closes_example =
    freeze_terminal-closes hash_of_step hash_of_stop hash_of_result gap_ledger gap_request
      gap_frozen
