-- ===== src/Trial/Stop/Integrity.antt =====
-- Which stops of a trial are frozen, by `TrialStop.assert_integrity` of contracts.py.
use human_cos_fft1_trial.Prelude.{
  nat_eq, string_eq, bool_eq, option_eq, list_eq, pair_eq, !=_false_iff, ==_iff, All, Memᴰ, String,
  [], absent_iff, all_distinct, all_pass_iff, both_iff, contains_iff, denied_iff, empty_iff, false,
  filled_iff, frozen_iff, implies_iff, map, member_iff, none, not-false_iff, or_false_iff,
  present_iff, raises_iff, refl, returned, true, ℕ, ◌↔◌, ◌≡◌, ◌≢◌,
}
use human_cos_fft1_trial.Core.Contracts.{Datetime, aware, naive}
use human_cos_fft1_trial.Runtime.States.{mode_eq}
use human_cos_fft1_trial.Trial.Contracts.{
  condition_eq, TrialStopPhase, admission_phase, at17_integration_failure, input_invalid,
  input_phase, stop_outcome_for,
}
use human_cos_fft1_trial.Trial.Steps.{TrialRuntimeStepPayload, assert_trajectory, must_be_aware}
use human_cos_fft1_trial.Trial.Stop.{
  phase_eq, outcome_eq, TrialStop, TrialStopPayload, allowed_stop_phases, assert_stop_integrity,
  at17_kinds, check_phase, freeze_trial_stop, lacks_admission, lacks_at17,
}

-- Both admission hashes are there.
abbrev pub IsAdmitted : TrialStopPayload → Type 0
IsAdmitted stop = (stop.trial_manifest_hash ≢ none) × (stop.environment_admission_hash ≢ none)

-- What a phase asks of the stop.
abbrev pub FitsPhase : TrialStopPhase → TrialStopPayload → Type 0
FitsPhase input_phase stop =
    (stop.runtime_trajectory ≡ [])
    × (stop.stop_condition ≡ input_invalid → stop.environment_admission_hash ≡ none)
FitsPhase admission_phase stop = IsAdmitted stop × (stop.runtime_trajectory ≡ [])
FitsPhase _ stop = IsAdmitted stop × (stop.runtime_trajectory ≢ [])

-- The stop of the AT-17 integration preserves its three kinds of artifacts.
abbrev pub KeepsLineage : TrialStopPayload → Type 0
KeepsLineage stop =
    stop.stop_condition ≡ at17_integration_failure
    → All (λ kind. Memᴰ kind (map (λ item. item.kind) stop.controlling_artifact_refs)) at17_kinds

lacks_admission_iff : (stop : TrialStopPayload) → (lacks_admission stop ≡ false) ↔ IsAdmitted stop
lacks_admission_iff stop =
    or_false_iff (present_iff stop.trial_manifest_hash)
      (present_iff stop.environment_admission_hash)

check_phase_iff :
    (phase : TrialStopPhase) (stop : TrialStopPayload)
    → (check_phase phase stop ≡ returned tt) ↔ FitsPhase phase stop
unfolding check_phase
check_phase_iff input_phase stop = both_iff (raises_iff _ (empty_iff stop.runtime_trajectory)) (
    raises_iff _ (
      implies_iff (==_iff stop.stop_condition input_invalid)
        (absent_iff stop.environment_admission_hash)))
check_phase_iff admission_phase stop =
    both_iff (raises_iff _ (lacks_admission_iff stop))
      (raises_iff _ (empty_iff stop.runtime_trajectory))
check_phase_iff _ stop =
    both_iff (raises_iff _ (lacks_admission_iff stop))
      (raises_iff _ (filled_iff stop.runtime_trajectory))

lacks_at17_iff : (stop : TrialStopPayload) → (lacks_at17 stop ≡ false) ↔ KeepsLineage stop
unfolding lacks_at17
lacks_at17_iff stop =
    let present = map (λ item. item.kind) stop.controlling_artifact_refs in
    let kinds = all_pass_iff at17_kinds (λ kind. contains_iff kind present) in
    implies_iff (==_iff stop.stop_condition at17_integration_failure) (denied_iff _ kinds)

pub must_be_aware_iff :
    (time : Datetime)
    → (must_be_aware time ≡ returned tt) ↔ ((instant : ℕ) × (time ≡ aware instant))
unfolding must_be_aware
must_be_aware_iff (aware instant) = (λ h. (instant, refl), λ h. refl)
must_be_aware_iff (naive reading) = (λ h. cc, λ (i, e). cc e)

module _ (step_sha256 : TrialRuntimeStepPayload → String)
    (stop_sha256 : TrialStopPayload → String) where
  -- A stop that may be frozen.
  pub record SoundStop (stop : TrialStopPayload) : Type 0 where
    pub stamped : (instant : ℕ) × (stop.stopped_at ≡ aware instant)
    pub fits_condition : stop.outcome ≡ stop_outcome_for stop.stop_condition
    pub fits_phase : Memᴰ stop.stop_phase (allowed_stop_phases stop.stop_condition)
    pub distinct : all_distinct stop.reasons ≡ true
    pub has_reason : stop.reasons ≢ []
    pub trajectory :
        assert_trajectory step_sha256 stop.case_mode stop.case_revision stop.runtime_trajectory
          stop.final_runtime_position
        ≡ returned tt
    pub phased : FitsPhase stop.stop_phase stop
    pub lineage : KeepsLineage stop

  abbrev sealed_stop : TrialStopPayload → TrialStop
  sealed_stop stop = record { payload = stop; stop_hash = stop_sha256 stop }

  integrity_iff :
      (stop : TrialStopPayload)
      → (assert_stop_integrity step_sha256 stop_sha256 (sealed_stop stop) ≡ returned tt)
        ↔ (stop_sha256 stop ≡ stop_sha256 stop)
          × ((stop.outcome ≡ stop_outcome_for stop.stop_condition)
              × (Memᴰ stop.stop_phase (allowed_stop_phases stop.stop_condition)
                  × ((all_distinct stop.reasons ≡ true)
                      × ((stop.reasons ≢ [])
                          × ((assert_trajectory step_sha256 stop.case_mode stop.case_revision
                                  stop.runtime_trajectory stop.final_runtime_position
                                ≡ returned tt)
                              × (FitsPhase stop.stop_phase stop × KeepsLineage stop))))))
  unfolding assert_stop_integrity
  integrity_iff stop = both_iff (raises_iff _ (!=_false_iff _ _)) (
      both_iff (raises_iff _ (!=_false_iff _ _)) (
        both_iff
          (raises_iff _ (member_iff stop.stop_phase (allowed_stop_phases stop.stop_condition)))
          (both_iff (raises_iff _ (not-false_iff _)) (
            both_iff (raises_iff _ (filled_iff stop.reasons)) (
              both_iff (λ h. h, λ h. h)
                (both_iff (check_phase_iff stop.stop_phase stop)
                  (raises_iff _ (lacks_at17_iff stop))))))))

  -- A stop is frozen exactly with its payload and the payload's hash, and exactly when its time is
  -- aware, its outcome is the one of its condition, the condition is allowed in its phase, it has
  -- reasons, all different, its trajectory passes the check, and it has what its phase and, for the
  -- AT-17 integration, its lineage ask for.
  pub freeze_trial_stop_iff :
      (payload : TrialStopPayload) (stop : TrialStop)
      → (freeze_trial_stop step_sha256 stop_sha256 payload ≡ returned stop)
        ↔ (stop ≡ record { payload = payload; stop_hash = stop_sha256 payload }) × SoundStop payload
  unfolding freeze_trial_stop
  freeze_trial_stop_iff payload stop =
      let whole = frozen_iff (must_be_aware_iff payload.stopped_at) (integrity_iff payload) in
      (
        λ h.
            let (same, (time, (_, (a, (b, (c, (d, (e, (f, g))))))))) = whole.0 h in
            (
              same,
              record {
                stamped = time;
                fits_condition = a;
                fits_phase = b;
                distinct = c;
                has_reason = d;
                trajectory = e;
                phased = f;
                lineage = g;
              },
            ),
        λ (same, s). whole.1 (
          same,
          (
            s.stamped,
            (
              refl,
              (
                s.fits_condition,
                (s.fits_phase, (s.distinct, (s.has_reason, (s.trajectory, (s.phased, s.lineage))))),
              ),
            ),
          ),
        ),
      )
