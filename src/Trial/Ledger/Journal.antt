-- ===== src/Trial/Ledger/Journal.antt =====
-- Every history of the ledger of stop_engine.py, as calls of its operations in turn.
use human_cos_fft1_trial.Trial.Ledger.Trajectory.{Trajectory}
use human_cos_fft1_trial.Trial.Ledger.Trajectory.{nothing}
use human_cos_fft1_trial.Prelude.{
  nat_eq, string_eq, bool_eq, option_eq, list_eq, pair_eq, >>=-eq-returned, List, String, [],
  all_distinct, false, raised_ne_returned, refl, returned, returned-injective, subst, sym, true,
  ◌++◌, ◌∷◌, ◌≡◌,
}
use human_cos_fft1_trial.Core.Contracts.{Datetime}
use human_cos_fft1_trial.Runtime.States.{mode_eq}
use human_cos_fft1_trial.Trial.Contracts.{condition_eq, artifact_eq, TrialArtifactRef}
use human_cos_fft1_trial.Trial.Ledger.{
  TrialManifest, TrialStopLedger, assert_open, kept_signal, open_ledger, record_artifacts,
  record_position, signal,
}
use human_cos_fft1_trial.Trial.Ledger.Artifacts.{add_artifacts-distinct}
use human_cos_fft1_trial.Trial.Ledger.Trajectory.{
  Recorded, Recorded-Trajectory, record_position-Recorded,
}
use human_cos_fft1_trial.Trial.Meter.{ClockTime, TrialStopSignal, not_finite, shows}
use human_cos_fft1_trial.Trial.Steps.{
  position_eq, TrialRuntimePosition, TrialRuntimeStep, TrialRuntimeStepPayload,
}

module _ (canonical_document_sha256 : TrialRuntimeStepPayload → String) where
  -- The ledger after one more operation that returned.
  pub data Journal (origin : TrialStopLedger) : TrialStopLedger → Type 0 where
    opened : Journal origin origin
    positioned :
        {ledger after : TrialStopLedger} (position : TrialRuntimePosition)
        (controlling_ref : String) (recorded_at : Datetime) (step : TrialRuntimeStep)
        → Journal origin ledger
        → record_position canonical_document_sha256 ledger position controlling_ref recorded_at
          ≡ returned (after, step)
        → Journal origin after
    produced :
        {ledger after : TrialStopLedger} (artifacts : List TrialArtifactRef)
        → Journal origin ledger
        → record_artifacts ledger artifacts ≡ returned after
        → Journal origin after
    signalled :
        {ledger after : TrialStopLedger} (stop : TrialStopSignal) (now : ClockTime)
        → Journal origin ledger
        → signal ledger stop now ≡ returned after
        → Journal origin after

  -- What every ledger of a history is.
  pub record WellFormed (manifest : TrialManifest) (ledger : TrialStopLedger) : Type 0 where
    pub same_manifest : ledger.manifest ≡ manifest
    pub is_open : ledger.terminal_frozen ≡ false
    pub trajectory : Trajectory canonical_document_sha256 manifest ledger.steps
    pub distinct : all_distinct ledger.produced_artifacts ≡ true

  opened-WellFormed :
      (attempt_receipt_hash environment_hash : String) (manifest : TrialManifest) (now : ClockTime)
      {origin : TrialStopLedger}
      → open_ledger attempt_receipt_hash manifest environment_hash now ≡ returned origin
      → WellFormed manifest origin
  unfolding open_ledger
  opened-WellFormed attempt_receipt_hash environment_hash manifest not_finite h =
      absurd (raised_ne_returned h)
  opened-WellFormed attempt_receipt_hash environment_hash manifest (shows now) h =
      subst (WellFormed manifest) (returned-injective h)
        (record { same_manifest = refl; is_open = refl; trajectory = nothing; distinct = refl })

  -- A signal changes the signals alone.
  signalled-WellFormed :
      (manifest : TrialManifest) (ledger : TrialStopLedger) (stop : TrialStopSignal)
      (now : ClockTime) {after : TrialStopLedger}
      → signal ledger stop now ≡ returned after
      → WellFormed manifest ledger
      → WellFormed manifest after
  unfolding signal
  signalled-WellFormed manifest ledger stop now h fine =
      let (u, openly, rest) = >>=-eq-returned (assert_open ledger) _ h in
      let (kept, chosen, end) = >>=-eq-returned (kept_signal ledger stop now) _ rest in
      subst (WellFormed manifest) (returned-injective end) (record {
        same_manifest = fine.same_manifest;
        is_open = fine.is_open;
        trajectory = fine.trajectory;
        distinct = fine.distinct;
      })

  produced-WellFormed :
      (manifest : TrialManifest) (ledger : TrialStopLedger) (artifacts : List TrialArtifactRef)
      {after : TrialStopLedger}
      → record_artifacts ledger artifacts ≡ returned after
      → WellFormed manifest ledger
      → WellFormed manifest after
  unfolding record_artifacts
  produced-WellFormed manifest ledger artifacts h fine =
      let (u, openly, end) = >>=-eq-returned (assert_open ledger) _ h in
      subst (WellFormed manifest) (returned-injective end) (record {
        same_manifest = fine.same_manifest;
        is_open = fine.is_open;
        trajectory = fine.trajectory;
        distinct = add_artifacts-distinct ledger.produced_artifacts artifacts fine.distinct;
      })

  positioned-WellFormed :
      (manifest : TrialManifest) (ledger : TrialStopLedger) {position : TrialRuntimePosition}
      {after : TrialStopLedger} {step : TrialRuntimeStep}
      → Recorded canonical_document_sha256 ledger position after step
      → WellFormed manifest ledger
      → WellFormed manifest after
  positioned-WellFormed manifest ledger {after} {step} taken fine =
      let so_far : Trajectory canonical_document_sha256 ledger.manifest ledger.steps =
        subst (λ m. Trajectory canonical_document_sha256 m ledger.steps) (sym fine.same_manifest)
          fine.trajectory in
      let longer = Recorded-Trajectory canonical_document_sha256 ledger taken so_far in
      subst (WellFormed manifest) (sym taken.appended) (record {
        same_manifest = fine.same_manifest;
        is_open = fine.is_open;
        trajectory =
            subst (λ m. Trajectory canonical_document_sha256 m (ledger.steps ++ (step ∷ [])))
              fine.same_manifest longer;
        distinct = fine.distinct;
      })

  -- From an opened ledger, whatever positions, artifacts and signals are recorded in whatever order,
  -- the manifest stays, no artifact stands twice, and the steps are a trajectory of the manifest's
  -- Case: numbered from one, hashed, in authorized states, from CASE_CREATED along the transition
  -- graph.
  pub Journal-WellFormed :
      (attempt_receipt_hash environment_hash : String) (manifest : TrialManifest) (now : ClockTime)
      (origin ledger : TrialStopLedger)
      → open_ledger attempt_receipt_hash manifest environment_hash now ≡ returned origin
      → Journal origin ledger
      → WellFormed manifest ledger
  Journal-WellFormed attempt_receipt_hash environment_hash manifest now origin ledger h opened =
      opened-WellFormed attempt_receipt_hash environment_hash manifest now h
  Journal-WellFormed attempt_receipt_hash environment_hash manifest now origin ledger h
        (positioned {ledger = before} position controlling_ref recorded_at step past e) =
      positioned-WellFormed manifest before
        (record_position-Recorded canonical_document_sha256 before position controlling_ref
          recorded_at e)
        (Journal-WellFormed attempt_receipt_hash environment_hash manifest now origin before h past)
  Journal-WellFormed attempt_receipt_hash environment_hash manifest now origin ledger h
        (produced {ledger = before} artifacts past e) =
      produced-WellFormed manifest before artifacts e
        (Journal-WellFormed attempt_receipt_hash environment_hash manifest now origin before h past)
  Journal-WellFormed attempt_receipt_hash environment_hash manifest now origin ledger h
        (signalled {ledger = before} stop clock past e) =
      signalled-WellFormed manifest before stop clock e
        (Journal-WellFormed attempt_receipt_hash environment_hash manifest now origin before h past)
