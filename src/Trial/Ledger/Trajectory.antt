-- ===== src/Trial/Ledger/Trajectory.antt =====
-- The runtime trajectory and the artifacts that the ledger of stop_engine.py records.
use human_cos_fft1_trial.Prelude.{
  nat_eq, string_eq, bool_eq, option_eq, list_eq, pair_eq, !=_false_iff, >>=-eq-returned, List,
  Memᴰ, Option-cases, String, [], arith, contains_iff, false, get_last?, inl, inr, length, ltb,
  none, raise_if, raise_if-eq-returned, raise_if_iff, refl, returned, returned-injective, some,
  subst, sym, ℕ, ◌!=◌, ◌++◌, ◌+◌, ◌||◌, ◌∷◌, ◌≡◌,
}
use human_cos_fft1_trial.Prelude.Texts.{is_blank}
use human_cos_fft1_trial.Core.Contracts.{Datetime}
use human_cos_fft1_trial.Runtime.Graph.{structural_targets}
use human_cos_fft1_trial.Runtime.States.{mode_eq, state_eq, case_created}
use human_cos_fft1_trial.Trial.Contracts.{artifact_eq}
use human_cos_fft1_trial.Trial.Ledger.{
  TrialManifest, TrialStopLedger, append_step, assert_open, check_move, position_payload,
  record_position,
}
use human_cos_fft1_trial.Trial.Steps.{
  TrialRuntimePosition, TrialRuntimeStep, TrialRuntimeStepPayload, assert_step_integrity,
  authorized_trial_states, freeze_trial_runtime_step, must_be_aware, trial_runtime_position,
}

module _ (canonical_document_sha256 : TrialRuntimeStepPayload → String) where
  -- A step in its place: its number, the manifest's Case, an authorized state, its hash.
  pub record SoundStep (manifest : TrialManifest) (place : ℕ) (step : TrialRuntimeStep)
      : Type 0 where
    pub numbered : step.payload.step_index ≡ place
    pub same_mode : step.payload.position.mode ≡ manifest.case_mode
    pub same_revision : step.payload.position.case_revision ≡ manifest.case_revision
    pub authorized : Memᴰ step.payload.position.state authorized_trial_states
    pub hashed : step.step_hash ≡ canonical_document_sha256 step.payload

  -- A trajectory of the manifest's Case starts at CASE_CREATED and follows the transition graph.
  pub data Trajectory (manifest : TrialManifest) : List TrialRuntimeStep → Type 0 where
    nothing : Trajectory manifest []
    begun :
        (step : TrialRuntimeStep)
        → SoundStep manifest 1 step
        → step.payload.position.state ≡ case_created
        → Trajectory manifest (step ∷ [])
    moved :
        {steps : List TrialRuntimeStep} (last step : TrialRuntimeStep)
        → Trajectory manifest steps
        → get_last? steps ≡ some last
        → Memᴰ step.payload.position.state
            (structural_targets last.payload.position.mode last.payload.position.state)
        → SoundStep manifest (length steps + 1) step
        → Trajectory manifest (steps ++ (step ∷ []))

  -- A step that is frozen holds its payload, which the checks accept, with its hash.
  frozen_step :
      (payload : TrialRuntimeStepPayload) {step : TrialRuntimeStep}
      → freeze_trial_runtime_step canonical_document_sha256 payload ≡ returned step
      → (step ≡ record { payload = payload; step_hash = canonical_document_sha256 payload })
        × Memᴰ payload.position.state authorized_trial_states
  unfolding freeze_trial_runtime_step trial_runtime_position
  frozen_step payload h =
      let (u, dated, rest) = >>=-eq-returned (must_be_aware payload.recorded_at) _ h in
      let (v, placed, more) = >>=-eq-returned (trial_runtime_position payload.position) _ rest in
      let (w, intact, end) =
        >>=-eq-returned (assert_step_integrity canonical_document_sha256 _) _ more in
      let (x, positive, known) =
        >>=-eq-returned (raise_if (ltb payload.position.case_revision 1) _) _ placed in
      let t = raise_if-eq-returned _ _ known in
      (sym (returned-injective end), (contains_iff _ _).0 (ground arith))

  -- What a recorded position has passed.
  pub record Recorded (ledger : TrialStopLedger) (position : TrialRuntimePosition)
      (after : TrialStopLedger) (step : TrialRuntimeStep) : Type 0 where
    pub opened : ledger.terminal_frozen ≡ false
    pub appended : after ≡ append_step ledger step
    pub at : step.payload.position ≡ position
    pub move : check_move (get_last? ledger.steps) position ≡ returned tt
    pub sound : SoundStep ledger.manifest (length ledger.steps + 1) step

  pub record_position-Recorded :
      (ledger : TrialStopLedger) (position : TrialRuntimePosition) (controlling_ref : String)
      (recorded_at : Datetime) {after : TrialStopLedger} {step : TrialRuntimeStep}
      → record_position canonical_document_sha256 ledger position controlling_ref recorded_at
        ≡ returned (after, step)
      → Recorded ledger position after step
  unfolding record_position assert_open
  record_position-Recorded ledger position controlling_ref recorded_at {after} {step} h =
      let payload = position_payload ledger position controlling_ref recorded_at in
      let other_mode = position.mode != ledger.manifest.case_mode in
      let other_revision = position.case_revision != ledger.manifest.case_revision in
      let (u, openly, rest) = >>=-eq-returned (assert_open ledger) _ h in
      let (v, named, more) = >>=-eq-returned (raise_if (is_blank controlling_ref) _) _ rest in
      let (w, mine, on) = >>=-eq-returned (raise_if (other_mode || other_revision) _) _ more in
      let (x, moves, later) = >>=-eq-returned (check_move (get_last? ledger.steps) position) _ on in
      let (s, froze, end) =
        >>=-eq-returned (freeze_trial_runtime_step canonical_document_sha256 payload) _ later in
      let tests = raise_if-eq-returned _ _ mine in
      let (made, known) = frozen_step payload froze in
      let sealed_step : TrialRuntimeStep = record {
        payload = payload;
        step_hash = canonical_document_sha256 payload;
      } in
      subst (λ result. Recorded ledger position result.0 result.1) (returned-injective end)
        (subst (λ t. Recorded ledger position (append_step ledger t) t) (sym made)
          (record {
            opened = raise_if-eq-returned _ _ openly;
            appended = refl;
            at = refl;
            move = moves;
            sound = record {
              numbered = refl;
              same_mode = (!=_false_iff _ _).0 (ground arith);
              same_revision = (!=_false_iff _ _).0 (ground arith);
              authorized = known;
              hashed = refl;
            };
          }))

  get_last?-none : (steps : List TrialRuntimeStep) → get_last? steps ≡ none → steps ≡ []
  get_last?-none [] h = refl
  get_last?-none (x ∷ []) h = cc
  get_last?-none (x ∷ y ∷ xs) h = absurd (cc (get_last?-none (y ∷ xs) h))

  -- The move that the check accepts.
  check_move_iff :
      (last step : TrialRuntimeStep)
      → check_move (some last) step.payload.position ≡ returned tt
      → Memᴰ step.payload.position.state
          (structural_targets last.payload.position.mode last.payload.position.state)
  unfolding check_move
  check_move_iff last step h = let t = (raise_if_iff _ _).0 h in (contains_iff _ _).0 (ground arith)

  first_move :
      (step : TrialRuntimeStep)
      → check_move none step.payload.position ≡ returned tt
      → step.payload.position.state ≡ case_created
  unfolding check_move
  first_move step h = (!=_false_iff _ _).0 ((raise_if_iff _ _).0 h)

  -- A recorded step goes on with the trajectory.
  pub Recorded-Trajectory :
      (ledger : TrialStopLedger) {position : TrialRuntimePosition} {after : TrialStopLedger}
      {step : TrialRuntimeStep}
      → Recorded ledger position after step
      → Trajectory ledger.manifest ledger.steps
      → Trajectory ledger.manifest (ledger.steps ++ (step ∷ []))
  Recorded-Trajectory ledger {step} taken so_far =
      let move : check_move (get_last? ledger.steps) step.payload.position ≡ returned tt =
        subst (λ p. check_move (get_last? ledger.steps) p ≡ returned tt) (sym taken.at)
          taken.move in
      elim (Option-cases (get_last? ledger.steps)) [
        | inl fresh ↦
            let empty = get_last?-none ledger.steps fresh in
            let sound : SoundStep ledger.manifest 1 step =
              subst (λ s. SoundStep ledger.manifest (length s + 1) step) empty taken.sound in
            subst (λ s. Trajectory ledger.manifest (s ++ (step ∷ []))) (sym empty)
              (begun step sound (
                first_move step
                  (subst (λ o. check_move o step.payload.position ≡ returned tt) fresh move)))
        | inr (last, found) ↦
            moved last step so_far found
              (check_move_iff last step
                (subst (λ o. check_move o step.payload.position ≡ returned tt) found move))
              taken.sound
      ]
