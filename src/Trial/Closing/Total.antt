-- ===== src/Trial/Closing/Total.antt =====
-- `freeze_terminal` of stop_engine.py for a trial that executed.
use human_cos_fft1_trial.Trial.Ledger.Trajectory.{Trajectory}
use human_cos_fft1_trial.Trial.Ledger.Journal.{Journal}
use human_cos_fft1_trial.Prelude.{
  nat_eq, string_eq, bool_eq, option_eq, list_eq, pair_eq, ==_false_iff, Memᴰ, Outcome, String, [],
  affirmed_iff, all_distinct, ap, arith, check_fields_iff, get_last?, leb, none, refl, returned,
  subst, sym, true, ℕ, ◌!=◌, ◌==◌, ◌>>=◌, ◌↔◌, ◌≡◌, ◌≢◌, ◌≤◌,
}
use human_cos_fft1_trial.Prelude.Texts.{is_sha256}
use human_cos_fft1_trial.Core.Contracts.{Datetime, aware}
use human_cos_fft1_trial.Runtime.States.{mode_eq}
use human_cos_fft1_trial.Trial.Closing.{
  TerminalRequest, close_ledger, freeze_terminal, result_payload,
}
use human_cos_fft1_trial.Trial.Contracts.{
  condition_eq, artifact_eq, TrialError, completed_at_authorized_boundary, execution_phase,
  stop_outcome_for, payload_error,
}
use human_cos_fft1_trial.Trial.Ledger.{
  TrialManifest, TrialStopLedger, controlling_signal, open_ledger,
}
use human_cos_fft1_trial.Trial.Ledger.Contract.{Trajectory-accepted}
use human_cos_fft1_trial.Trial.Ledger.Journal.{Journal-WellFormed, WellFormed}
use human_cos_fft1_trial.Trial.Ledger.Signals.{from_keys-distinct}
use human_cos_fft1_trial.Trial.Meter.{ClockTime, TrialStopSignal}
use human_cos_fft1_trial.Trial.Result.{
  TrialResult, TrialResultPayload, check_result_payload, non_substantive, result_fields,
}
use human_cos_fft1_trial.Trial.Result.Integrity.{
  AtBoundary, ResultFits, SoundResult, freeze_trial_result_iff,
}
use human_cos_fft1_trial.Trial.Steps.{position_eq, TrialRuntimeStepPayload, is_aware, position_of}
use human_cos_fft1_trial.Trial.Stop.{
  phase_eq, outcome_eq, TrialStop, TrialStopPayload, allowed_stop_phases, check_stop_payload,
  stop_fields,
}
use human_cos_fft1_trial.Trial.Stop.Integrity.{KeepsLineage, SoundStop, freeze_trial_stop_iff}
use human_cos_fft1_trial.Trial.Terminal.{reasons_of, terminal_payload}
use human_cos_fft1_trial.Trial.Terminal.Total.{
  assert_open_lem, reasons-ne_nil, terminal_payload-SoundStop,
}

-- What the result needs beyond the stop.
pub record ResultReady (ledger : TrialStopLedger) (request : TerminalRequest)
    (controlling : TrialStopSignal) : Type 0 where
  pub distinct_dissent : all_distinct request.dissent_refs ≡ true
  pub distinct_unresolved : all_distinct request.unresolved_condition_refs ≡ true
  pub completed :
      stop_outcome_for controlling.condition ≡ completed_at_authorized_boundary
      → AtBoundary (position_of (get_last? ledger.steps))
  pub substantive :
      Memᴰ (stop_outcome_for controlling.condition) non_substantive
      → request.substantive_case_outcome ≡ none

-- What the contracts ask of the fields: ids that are there, and the hashes and the revision that the
-- ledger got with its attempt, its manifest and its environment.
pub record Writable (ledger : TrialStopLedger) (request : TerminalRequest) : Type 0 where
  pub named_stop : request.stop_id ≢ ""
  pub named_result : request.result_id ≢ ""
  pub attempt_hash : is_sha256 ledger.attempt_receipt_hash ≡ true
  pub manifest_hash : is_sha256 ledger.manifest.manifest_hash ≡ true
  pub environment_hash : is_sha256 ledger.environment_admission_hash ≡ true
  pub revised : 1 ≤ ledger.manifest.case_revision

there_iff : (text : String) → ((text != "") ≡ true) ↔ (text ≢ "")
there_iff text = affirmed_iff (text == "") (==_false_iff text "")

aware-accepted : {time : Datetime} {instant : ℕ} → time ≡ aware instant → is_aware time ≡ true
aware-accepted h = ap is_aware h

revised_leb : {n : ℕ} → 1 ≤ n → leb 1 n ≡ true
revised_leb h = ground arith

terminal_payload-accepted :
    (ledger : TrialStopLedger) (request : TerminalRequest) (instant : ℕ)
    (controlling : TrialStopSignal)
    → request.stopped_at ≡ aware instant
    → Writable ledger request
    → check_stop_payload (terminal_payload ledger request.stop_id request.stopped_at controlling)
      ≡ returned tt
unfolding check_stop_payload terminal_payload
terminal_payload-accepted ledger request instant controlling timed w =
    (check_fields_iff (payload_error "TrialStopPayload")
        (stop_fields (terminal_payload ledger request.stop_id request.stopped_at controlling))).1
      (
        (there_iff request.stop_id).1 w.named_stop,
        (
          w.attempt_hash,
          (
            w.manifest_hash,
            (w.environment_hash, (revised_leb w.revised, (aware-accepted timed, tt))),
          ),
        ),
      )

result_payload-accepted :
    (ledger : TrialStopLedger) (request : TerminalRequest) (instant : ℕ)
    (controlling : TrialStopSignal) (stop_hash : String)
    → request.stopped_at ≡ aware instant
    → is_sha256 stop_hash ≡ true
    → Writable ledger request
    → check_result_payload (result_payload ledger request controlling stop_hash) ≡ returned tt
unfolding check_result_payload result_payload
result_payload-accepted ledger request instant controlling stop_hash timed digest w =
    (check_fields_iff (payload_error "TrialResultPayload")
        (result_fields (result_payload ledger request controlling stop_hash))).1
      (
        (there_iff request.result_id).1 w.named_result,
        (
          w.attempt_hash,
          (
            w.manifest_hash,
            (w.environment_hash, (digest, (revised_leb w.revised, (aware-accepted timed, tt)))),
          ),
        ),
      )

module _ (step_sha256 : TrialRuntimeStepPayload → String) (stop_sha256 : TrialStopPayload → String)
    (result_sha256 : TrialResultPayload → String) where
  result_payload-SoundResult :
      (manifest : TrialManifest) (ledger : TrialStopLedger) (request : TerminalRequest)
      (instant : ℕ) (controlling : TrialStopSignal) (stop_hash : String)
      → request.stopped_at ≡ aware instant
      → WellFormed step_sha256 manifest ledger
      → controlling_signal ledger ≡ returned controlling
      → controlling.phase ≡ execution_phase
      → Memᴰ execution_phase (allowed_stop_phases controlling.condition)
      → ledger.steps ≢ []
      → ResultReady ledger request controlling
      → SoundResult step_sha256 result_sha256 (result_payload ledger request controlling stop_hash)
  unfolding result_payload
  result_payload-SoundResult manifest ledger request instant controlling stop_hash timed fine h
        executes fits ran ready =
      record {
        stamped = (instant, timed);
        fits_condition = refl;
        fits_phase =
            subst (λ p. Memᴰ p (allowed_stop_phases controlling.condition)) (sym executes) fits;
        distinct_reasons = from_keys-distinct (reasons_of controlling.condition ledger.signals);
        distinct_dissent = ready.distinct_dissent;
        distinct_unresolved = ready.distinct_unresolved;
        has_reason = reasons-ne_nil ledger controlling h;
        trajectory = Trajectory-accepted step_sha256 ledger.manifest (
            subst (λ m. Trajectory step_sha256 m ledger.steps) (sym fine.same_manifest)
              fine.trajectory);
        phased =
            subst (λ p. ResultFits p (result_payload ledger request controlling stop_hash))
              (sym executes) (((λ e. cc), (λ e. cc)), ran);
        completed = ready.completed;
        substantive = ready.substantive;
      }

  -- A trial that has recorded a step and whose controlling signal belongs to the execution, under a
  -- condition that may stop an execution, is frozen, whatever else was recorded: its stop and its
  -- result are the payloads of the ledger with their hashes, and the ledger is closed. The request
  -- needs ids for both and an aware time; the hashes of the attempt, the manifest and the environment
  -- and the one of the stop must be hashes, and the revision of the Case at least 1. The stop of the
  -- AT-17 integration needs its lineage among the artifacts of the signals; the dissent and the
  -- unresolved conditions of the request must be distinct, a completed trial must stand at the
  -- boundary, and a failed infrastructure or an invalid input may claim no substantive outcome.
  pub freeze_terminal_total :
      (attempt_receipt_hash environment_hash : String) (manifest : TrialManifest) (now : ClockTime)
      (origin ledger : TrialStopLedger)
      → open_ledger attempt_receipt_hash manifest environment_hash now ≡ returned origin
      → Journal step_sha256 origin ledger
      → (request : TerminalRequest) (instant : ℕ) (controlling : TrialStopSignal)
      → request.stopped_at ≡ aware instant
      → controlling_signal ledger ≡ returned controlling
      → controlling.phase ≡ execution_phase
      → Memᴰ execution_phase (allowed_stop_phases controlling.condition)
      → ledger.steps ≢ []
      → KeepsLineage (terminal_payload ledger request.stop_id request.stopped_at controlling)
      → ResultReady ledger request controlling
      → Writable ledger request
      → is_sha256
          (stop_sha256 (terminal_payload ledger request.stop_id request.stopped_at controlling))
        ≡ true
      → let stop = terminal_payload ledger request.stop_id request.stopped_at controlling in
        let result = result_payload ledger request controlling (stop_sha256 stop) in
        freeze_terminal step_sha256 stop_sha256 result_sha256 ledger request
        ≡ returned (
          close_ledger ledger,
          (
            record { payload = stop; stop_hash = stop_sha256 stop },
            record { payload = result; result_hash = result_sha256 result },
          ),
        )
  unfolding freeze_terminal
  freeze_terminal_total attempt_receipt_hash environment_hash manifest now origin ledger h journal
        request instant controlling timed controls executes fits ran lineage ready writable digest =
      let fine =
        Journal-WellFormed step_sha256 attempt_receipt_hash environment_hash manifest now origin
          ledger h journal in
      let openly = assert_open_lem ledger fine.is_open in
      let stop = terminal_payload ledger request.stop_id request.stopped_at controlling in
      let result = result_payload ledger request controlling (stop_sha256 stop) in
      let stop_sound =
        subst
          (λ t.
            KeepsLineage (terminal_payload ledger request.stop_id t controlling)
            → SoundStop step_sha256 stop_sha256
                (terminal_payload ledger request.stop_id t controlling))
          (sym timed)
          (terminal_payload-SoundStop step_sha256 stop_sha256 manifest ledger request.stop_id
            instant controlling fine controls executes fits ran)
          lineage in
      let result_sound =
        result_payload-SoundResult manifest ledger request instant controlling (stop_sha256 stop)
          timed fine controls executes fits ran ready in
      let stopped =
        (freeze_trial_stop_iff step_sha256 stop_sha256 stop
            (record { payload = stop; stop_hash = stop_sha256 stop })).1
          (refl, stop_sound) in
      let resulted =
        (freeze_trial_result_iff step_sha256 result_sha256 result
            (record { payload = result; result_hash = result_sha256 result })).1
          (refl, result_sound) in
      let stop_accepted =
        terminal_payload-accepted ledger request instant controlling timed writable in
      let result_accepted =
        result_payload-accepted ledger request instant controlling (stop_sha256 stop) timed digest
          writable in
      let end : TrialResult → Outcome TrialError (TrialStopLedger × (TrialStop × TrialResult)) =
        λ r.
          returned
            (close_ledger ledger, (record { payload = stop; stop_hash = stop_sha256 stop }, r)) in
      rw (openly, controls, stop_accepted, stopped, result_accepted) (ap (λ o. o >>= end) resulted)
