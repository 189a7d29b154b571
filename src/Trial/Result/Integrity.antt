-- ===== src/Trial/Result/Integrity.antt =====
-- Which results of a trial are frozen, by `TrialResult.assert_integrity` of contracts.py.
use human_cos_fft1_trial.Prelude.{some-injective}
use human_cos_fft1_trial.Prelude.{
  nat_eq, string_eq, bool_eq, option_eq, list_eq, pair_eq, !=_false_iff, ==_iff, Memᴰ, Option,
  String, [], absent_iff, all_distinct, ap, both_iff, contains_iff, empty_iff, false, filled_iff,
  frozen_iff, implies_iff, member_iff, none, not-false_iff, or_false_iff, present_iff, raises_iff,
  refl, returned, some, true, ℕ, ◌↔◌, ◌∙◌, ◌≡◌, ◌≢◌,
}
use human_cos_fft1_trial.Core.Contracts.{aware}
use human_cos_fft1_trial.Runtime.States.{mode_eq, state_eq, adversarial_review}
use human_cos_fft1_trial.Trial.Contracts.{
  condition_eq, artifact_eq, TrialStopPhase, admission_phase, audit_export_phase, cleanup_phase,
  completed_at_authorized_boundary, execution_phase, input_phase, persistence_phase,
  stop_outcome_for,
}
use human_cos_fft1_trial.Trial.Result.{
  TrialResult, TrialResultPayload, assert_result_integrity, check_result_phase, freeze_trial_result,
  non_substantive, short_of_boundary,
}
use human_cos_fft1_trial.Trial.Steps.{
  position_eq, TrialRuntimePosition, TrialRuntimeStepPayload, assert_trajectory,
}
use human_cos_fft1_trial.Trial.Stop.{phase_eq, outcome_eq, allowed_stop_phases}
use human_cos_fft1_trial.Trial.Stop.Integrity.{must_be_aware_iff}

-- What a phase asks of the result.
abbrev pub ResultFits : TrialStopPhase → TrialResultPayload → Type 0
ResultFits input_phase result =
    (result.runtime_trajectory ≡ []) × (result.environment_admission_hash ≡ none)
ResultFits admission_phase result =
    ((result.trial_manifest_hash ≢ none) × (result.environment_admission_hash ≢ none))
    × (result.runtime_trajectory ≡ [])
ResultFits _ result =
    ((result.trial_manifest_hash ≢ none) × (result.environment_admission_hash ≢ none))
    × (result.runtime_trajectory ≢ [])

-- The last position is the end of the authorized path.
abbrev pub AtBoundary : Option TrialRuntimePosition → Type 0
AtBoundary position =
    (p : TrialRuntimePosition) × (position ≡ some p) × (p.state ≡ adversarial_review)

AtBoundary-iff :
    (position : Option TrialRuntimePosition)
    → (short_of_boundary position ≡ false) ↔ AtBoundary position
AtBoundary-iff none = (λ h. cc, λ (p, e, _). absurd (cc e))
AtBoundary-iff (some position) =
    let same = !=_false_iff position.state adversarial_review in
    (
      λ h. (position, refl, same.0 h),
      λ (p, e, s). same.1 (ap (λ q. q.state) (some-injective _ _ e) ∙ s),
    )

-- The check of a phase behind the admission.
later_iff :
    (result : TrialResultPayload)
    → (check_result_phase execution_phase result ≡ returned tt) ↔ ResultFits execution_phase result
unfolding check_result_phase
later_iff result =
    both_iff
      (raises_iff _ (
        or_false_iff (present_iff result.trial_manifest_hash)
          (present_iff result.environment_admission_hash)))
      (raises_iff _ (filled_iff result.runtime_trajectory))

check_result_phase_iff :
    (phase : TrialStopPhase) (result : TrialResultPayload)
    → (check_result_phase phase result ≡ returned tt) ↔ ResultFits phase result
unfolding check_result_phase
check_result_phase_iff input_phase result = raises_iff _ (
    or_false_iff (empty_iff result.runtime_trajectory)
      (absent_iff result.environment_admission_hash))
check_result_phase_iff admission_phase result =
    both_iff
      (raises_iff _ (
        or_false_iff (present_iff result.trial_manifest_hash)
          (present_iff result.environment_admission_hash)))
      (raises_iff _ (empty_iff result.runtime_trajectory))
check_result_phase_iff execution_phase result = later_iff result
check_result_phase_iff persistence_phase result = later_iff result
check_result_phase_iff audit_export_phase result = later_iff result
check_result_phase_iff cleanup_phase result = later_iff result

module _ (step_sha256 : TrialRuntimeStepPayload → String)
    (result_sha256 : TrialResultPayload → String) where
  -- A result that may be frozen.
  pub record SoundResult (result : TrialResultPayload) : Type 0 where
    pub stamped : (instant : ℕ) × (result.frozen_at ≡ aware instant)
    pub fits_condition : result.outcome ≡ stop_outcome_for result.stop_condition
    pub fits_phase : Memᴰ result.stop_phase (allowed_stop_phases result.stop_condition)
    pub distinct_reasons : all_distinct result.reasons ≡ true
    pub distinct_dissent : all_distinct result.dissent_refs ≡ true
    pub distinct_unresolved : all_distinct result.unresolved_condition_refs ≡ true
    pub has_reason : result.reasons ≢ []
    pub trajectory :
        assert_trajectory step_sha256 result.case_mode result.case_revision
          result.runtime_trajectory result.final_runtime_position
        ≡ returned tt
    pub phased : ResultFits result.stop_phase result
    pub completed :
        result.outcome ≡ completed_at_authorized_boundary → AtBoundary result.final_runtime_position
    pub substantive : Memᴰ result.outcome non_substantive → result.substantive_case_outcome ≡ none

  abbrev sealed_result : TrialResultPayload → TrialResult
  sealed_result result = record { payload = result; result_hash = result_sha256 result }

  integrity_iff :
      (result : TrialResultPayload)
      → (assert_result_integrity step_sha256 result_sha256 (sealed_result result) ≡ returned tt)
        ↔ (result_sha256 result ≡ result_sha256 result)
          × ((result.outcome ≡ stop_outcome_for result.stop_condition)
              × (Memᴰ result.stop_phase (allowed_stop_phases result.stop_condition)
                  × ((all_distinct result.reasons ≡ true)
                      × ((all_distinct result.dissent_refs ≡ true)
                          × ((all_distinct result.unresolved_condition_refs ≡ true)
                              × ((result.reasons ≢ [])
                                  × ((assert_trajectory step_sha256 result.case_mode
                                          result.case_revision result.runtime_trajectory
                                          result.final_runtime_position
                                        ≡ returned tt)
                                      × (ResultFits result.stop_phase result
                                          × ((result.outcome ≡ completed_at_authorized_boundary
                                                → AtBoundary result.final_runtime_position)
                                              × (Memᴰ result.outcome non_substantive
                                                  → result.substantive_case_outcome ≡ none))))))))))
  unfolding assert_result_integrity
  integrity_iff result =
      let phases = member_iff result.stop_phase (allowed_stop_phases result.stop_condition) in
      let boundary =
        implies_iff (==_iff result.outcome completed_at_authorized_boundary)
          (AtBoundary-iff result.final_runtime_position) in
      let substance =
        implies_iff (contains_iff result.outcome non_substantive)
          (absent_iff result.substantive_case_outcome) in
      both_iff (raises_iff _ (!=_false_iff _ _)) (
        both_iff (raises_iff _ (!=_false_iff _ _)) (
          both_iff (raises_iff _ phases) (
            both_iff (raises_iff _ (not-false_iff _)) (
              both_iff (raises_iff _ (not-false_iff _)) (
                both_iff (raises_iff _ (not-false_iff _)) (
                  both_iff (raises_iff _ (filled_iff result.reasons)) (
                    both_iff (λ h. h, λ h. h)
                      (both_iff (check_result_phase_iff result.stop_phase result)
                        (both_iff (raises_iff _ boundary) (raises_iff _ substance))))))))))

  -- A result is frozen, with its payload and the hash of it, exactly when its time is aware, its
  -- outcome and phase fit its condition, its reasons are there, they, the dissent and the unresolved
  -- conditions are distinct, its trajectory passes the check, its phase gets what it asks for, a
  -- completed trial stands at the boundary, and no substantive outcome is claimed for an invalid input
  -- or a failed infrastructure.
  pub freeze_trial_result_iff :
      (payload : TrialResultPayload) (result : TrialResult)
      → (freeze_trial_result step_sha256 result_sha256 payload ≡ returned result)
        ↔ (result ≡ record { payload = payload; result_hash = result_sha256 payload })
          × SoundResult payload
  unfolding freeze_trial_result
  freeze_trial_result_iff payload result =
      let whole = frozen_iff (must_be_aware_iff payload.frozen_at) (integrity_iff payload) in
      (
        λ h.
            let (same, (time, (_, (a, (b, (c, (d, (e, (f, (g, (i, (j, k)))))))))))) = whole.0 h in
            (
              same,
              record {
                stamped = time;
                fits_condition = a;
                fits_phase = b;
                distinct_reasons = c;
                distinct_dissent = d;
                distinct_unresolved = e;
                has_reason = f;
                trajectory = g;
                phased = i;
                completed = j;
                substantive = k;
              },
            ),
        λ (same, s). whole.1 (
          same,
          (
            s.stamped,
            (
              refl,
              (
                s.fits_condition,
                (
                  s.fits_phase,
                  (
                    s.distinct_reasons,
                    (
                      s.distinct_dissent,
                      (
                        s.distinct_unresolved,
                        (s.has_reason, (s.trajectory, (s.phased, (s.completed, s.substantive)))),
                      ),
                    ),
                  ),
                ),
              ),
            ),
          ),
        ),
      )
