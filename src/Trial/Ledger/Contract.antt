-- ===== src/Trial/Ledger/Contract.antt =====
-- The trajectory that the ledger of stop_engine.py records against `_assert_trajectory` of
-- contracts.py, the check of the frozen contracts.
use human_cos_fft1_trial.Trial.Ledger.Journal.{Journal}
use human_cos_fft1_trial.Trial.Ledger.Trajectory.{Trajectory}
use human_cos_fft1_trial.Prelude.{
  nat_eq, string_eq, bool_eq, option_eq, list_eq, pair_eq, !=_false_iff, >>_iff, List, Option-cases,
  Outcome, String, [], arith, contains_iff, get_last?, inl, inr, length, refl, returned, some,
  subst, ℕ, ◌++◌, ◌+◌, ◌∷◌, ◌≡◌,
}
use human_cos_fft1_trial.Runtime.States.{mode_eq, state_eq}
use human_cos_fft1_trial.Trial.Contracts.{artifact_eq, TrialError}
use human_cos_fft1_trial.Trial.Ledger.{TrialManifest, TrialStopLedger, open_ledger}
use human_cos_fft1_trial.Trial.Ledger.Journal.{Journal-WellFormed}
use human_cos_fft1_trial.Trial.Ledger.Trajectory.{SoundStep}
use human_cos_fft1_trial.Trial.Meter.{ClockTime}
use human_cos_fft1_trial.Trial.Steps.{
  position_eq, TrialRuntimeStep, TrialRuntimeStepPayload, assert_step_integrity, assert_trajectory,
  authorized_trial_states, check_final, check_place, check_places, position_of,
}

module _ (canonical_document_sha256 : TrialRuntimeStepPayload → String)
    (manifest : TrialManifest) where
  abbrev places : ℕ → List TrialRuntimeStep → Outcome TrialError (Unit {0})
  places =
      check_places canonical_document_sha256 (some manifest.case_mode) (some manifest.case_revision)

  SoundStep-checked :
      (index : ℕ) (step : TrialRuntimeStep)
      → SoundStep canonical_document_sha256 manifest index step
      → check_place canonical_document_sha256
          (some manifest.case_mode)
          (some manifest.case_revision)
          index
          step
        ≡ returned tt
  unfolding check_place assert_step_integrity
  SoundStep-checked index step sound =
      let hashed = (!=_false_iff _ _).1 sound.hashed in
      let known =
        (contains_iff step.payload.position.state authorized_trial_states).1 sound.authorized in
      let numbered = (!=_false_iff _ _).1 sound.numbered in
      let mode = (!=_false_iff _ _).1 sound.same_mode in
      let revision = (!=_false_iff _ _).1 sound.same_revision in
      rw (hashed, known, numbered, mode, revision)

  -- A checked list with a sound step behind it.
  places-snoc :
      (index : ℕ) (steps : List TrialRuntimeStep) (step : TrialRuntimeStep)
      → places index steps ≡ returned tt
      → SoundStep canonical_document_sha256 manifest (index + length steps) step
      → places index (steps ++ (step ∷ [])) ≡ returned tt
  unfolding check_places
  places-snoc index [] step checked sound =
      let here =
        SoundStep-checked index step
          (subst (λ n. SoundStep canonical_document_sha256 manifest n step) (omega arith) sound) in
      rw here
  places-snoc index (first ∷ steps) step checked sound =
      let (this, rest) = (>>_iff _ _).0 checked in
      (>>_iff _ _).1 (
        this,
        places-snoc (index + 1) steps step rest
            (subst (λ n. SoundStep canonical_document_sha256 manifest n step) (omega arith) sound),
      )

  Trajectory-places :
      {steps : List TrialRuntimeStep}
      → Trajectory canonical_document_sha256 manifest steps
      → places 1 steps ≡ returned tt
  unfolding check_places
  Trajectory-places Trajectory.nothing = refl
  Trajectory-places (Trajectory.begun step sound at_start) = rw (SoundStep-checked 1 step sound)
  Trajectory-places (Trajectory.moved {steps} last step path found move sound) =
      places-snoc 1 steps step (Trajectory-places path)
        (subst (λ n. SoundStep canonical_document_sha256 manifest n step) (omega arith) sound)

  final_checked :
      (steps : List TrialRuntimeStep)
      → check_final (get_last? steps) (position_of (get_last? steps)) ≡ returned tt
  unfolding check_final
  final_checked steps = elim (Option-cases (get_last? steps)) [
    | inl empty ↦ rw empty
    | inr (last, found) ↦
        let same =
          (!=_false_iff (some last.payload.position) (some last.payload.position)).1 refl in
        rw (found, same)
  ]

  -- A trajectory of the manifest's Case, with the position of its last step as the final one.
  pub Trajectory-accepted :
      {steps : List TrialRuntimeStep}
      → Trajectory canonical_document_sha256 manifest steps
      → assert_trajectory canonical_document_sha256
          (some manifest.case_mode)
          (some manifest.case_revision)
          steps
          (position_of (get_last? steps))
        ≡ returned tt
  unfolding assert_trajectory
  Trajectory-accepted {steps} path = (>>_iff _ _).1 (Trajectory-places path, final_checked steps)

  -- Whatever an opened ledger records, its steps with the position of the last one, if there is one,
  -- pass the check of the frozen contracts for the manifest's Case.
  pub Journal-accepted :
      (attempt_receipt_hash environment_hash : String) (now : ClockTime)
      (origin ledger : TrialStopLedger)
      → open_ledger attempt_receipt_hash manifest environment_hash now ≡ returned origin
      → Journal canonical_document_sha256 origin ledger
      → assert_trajectory canonical_document_sha256
          (some manifest.case_mode)
          (some manifest.case_revision)
          ledger.steps
          (position_of (get_last? ledger.steps))
        ≡ returned tt
  Journal-accepted attempt_receipt_hash environment_hash now origin ledger h journal =
      Trajectory-accepted
        (Journal-WellFormed canonical_document_sha256 attempt_receipt_hash environment_hash manifest
          now origin ledger h journal).trajectory
