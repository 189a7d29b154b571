-- ===== src/Tests/Frozen.antt =====
-- Contracts of contracts.py: a stop that is frozen before anything ran, one that is refused, and the
-- admission of an environment.
use human_cos_fft1_trial.Prelude.{
  nat_eq, string_eq, bool_eq, option_eq, list_eq, pair_eq, String, [], false, none, raised, refl,
  returned, some, true, ◌↔◌, ◌∷◌, ◌≡◌,
}
use human_cos_fft1_trial.Core.Contracts.{aware}
use human_cos_fft1_trial.Runtime.States.{mode_eq}
use human_cos_fft1_trial.Trial.Contracts.{
  condition_eq, artifact_eq, capability_gap_found, capability_gap_stop, contract_error,
  execution_phase, input_invalid, input_phase, invalid_input, stop_outcome_for,
}
use human_cos_fft1_trial.Trial.Environment.{
  TrialEnvironmentAdmission, TrialEnvironmentAdmissionPayload, admission_pass, admission_rejected,
  assert_environment_integrity, expected_status, freeze_trial_environment_admission,
}
use human_cos_fft1_trial.Trial.Environment.Sandbox.{
  SoundEnvironment, freeze_trial_environment_admission_iff,
}
use human_cos_fft1_trial.Trial.Steps.{
  TrialRuntimeStepPayload, assert_trajectory, check_final, check_places, must_be_aware,
}
use human_cos_fft1_trial.Trial.Stop.{
  phase_eq, outcome_eq, TrialStop, TrialStopPayload, allowed_stop_phases, assert_stop_integrity,
  check_phase, freeze_trial_stop, lacks_at17,
}
use human_cos_fft1_trial.Trial.Stop.Integrity.{SoundStop, freeze_trial_stop_iff}

abbrev step_hash_of : TrialRuntimeStepPayload → String
step_hash_of payload = payload.step_id

abbrev stop_hash_of : TrialStopPayload → String
stop_hash_of payload = payload.stop_id

abbrev early_stop : TrialStopPayload
early_stop = record {
  stop_id = "stop-1";
  attempt_receipt_hash = "a0";
  trial_manifest_hash = none;
  environment_admission_hash = none;
  case_id = none;
  case_revision = none;
  case_mode = none;
  outcome = invalid_input;
  stop_condition = input_invalid;
  stop_phase = input_phase;
  runtime_trajectory = [];
  final_runtime_position = none;
  controlling_artifact_refs = [];
  reasons = "unreadable manifest" ∷ [];
  produced_artifacts = [];
  stopped_at = aware 9;
}

early_frozen :
    freeze_trial_stop step_hash_of stop_hash_of early_stop
    ≡ returned (record { payload = early_stop; stop_hash = "stop-1" })
unfolding freeze_trial_stop assert_stop_integrity assert_trajectory check_places check_final
    check_phase lacks_at17 allowed_stop_phases stop_outcome_for must_be_aware
early_frozen = refl

-- Without a step there is no stop of an execution.
late_refused :
    freeze_trial_stop step_hash_of stop_hash_of (record early_stop {
      stop_condition = capability_gap_stop;
      outcome = capability_gap_found;
      stop_phase = execution_phase;
      trial_manifest_hash = some "m0";
      environment_admission_hash = some "e0";
    })
    ≡ raised (contract_error "post-admission stop requires a non-empty trajectory")
unfolding freeze_trial_stop assert_stop_integrity assert_trajectory check_places check_final
    check_phase lacks_at17 allowed_stop_phases stop_outcome_for must_be_aware
late_refused = refl

freeze_trial_stop_iff_example :
    (freeze_trial_stop step_hash_of stop_hash_of early_stop
      ≡ returned (record { payload = early_stop; stop_hash = "stop-1" }))
    ↔ (◌≡◌ {A = TrialStop}
        (record { payload = early_stop; stop_hash = "stop-1" })
        (record { payload = early_stop; stop_hash = stop_hash_of early_stop }))
      × SoundStop step_hash_of stop_hash_of early_stop
freeze_trial_stop_iff_example =
    freeze_trial_stop_iff step_hash_of stop_hash_of early_stop
      (record { payload = early_stop; stop_hash = "stop-1" })

-- An environment with a network, which is recorded as rejected.
abbrev networked : TrialEnvironmentAdmissionPayload
networked = record {
  admission_id = "e1";
  attempt_receipt_hash = "a0";
  manifest_hash = "m0";
  canonical_admission_hash = "c0";
  canonical_registry_entry_id = "r0";
  detached_input_address = "d0";
  observed_source_commit_sha = some "s0";
  observed_database_target = some "trial_db";
  observed_output_root = some "out";
  sandbox_mode = true;
  mock_only = true;
  live_provider_disabled = true;
  outbound_network_disabled = false;
  external_tools_disabled = true;
  reality_execution_disabled = true;
  sensitive_data_absent = true;
  real_experts_disabled = true;
  provider_secrets_disabled = true;
  trial_database_disposable = true;
  database_ownership_marker_present = true;
  output_root_disposable = true;
  output_root_ownership_marker_present = true;
  resource_limits_admitted = true;
  status = admission_rejected;
  reasons = "outbound network is enabled" ∷ [];
  frozen_at = aware 4;
}

abbrev environment_hash_of : TrialEnvironmentAdmissionPayload → String
environment_hash_of payload = payload.admission_id

networked_recorded :
    freeze_trial_environment_admission environment_hash_of networked
    ≡ returned (record { payload = networked; environment_admission_hash = "e1" })
unfolding freeze_trial_environment_admission assert_environment_integrity expected_status
    must_be_aware
networked_recorded = refl

-- It cannot be recorded as admitted.
networked_refused :
    freeze_trial_environment_admission environment_hash_of
      (record networked { status = admission_pass })
    ≡ raised (contract_error "Environment Admission status is not derivable from facts")
unfolding freeze_trial_environment_admission assert_environment_integrity expected_status
    must_be_aware
networked_refused = refl

freeze_trial_environment_admission_iff_example :
    (freeze_trial_environment_admission environment_hash_of networked
      ≡ returned (record { payload = networked; environment_admission_hash = "e1" }))
    ↔ (◌≡◌ {A = TrialEnvironmentAdmission}
        (record { payload = networked; environment_admission_hash = "e1" })
        (record {
          payload = networked;
          environment_admission_hash = environment_hash_of networked;
        }))
      × SoundEnvironment environment_hash_of networked
freeze_trial_environment_admission_iff_example =
    freeze_trial_environment_admission_iff environment_hash_of networked
      (record { payload = networked; environment_admission_hash = "e1" })
