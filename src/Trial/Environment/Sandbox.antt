-- ===== src/Trial/Environment/Sandbox.antt =====
-- Which environments of a trial contracts.py admits.
use human_cos_fft1_trial.Prelude.{
  nat_eq, string_eq, bool_eq, option_eq, list_eq, pair_eq, !=_false_iff, Bool, Option, String, [],
  all, all_distinct, and_true_iff, arith, both_iff, false, frozen_iff, if◌then◌else◌, is_empty,
  is_empty_iff, is_some, none, not-false_iff, raises_iff, refl, returned, some, sym, true, ℕ, ◌&&◌,
  ◌↔◌, ◌∙◌, ◌≡◌, ◌≢◌,
}
use human_cos_fft1_trial.Core.Contracts.{aware}
use human_cos_fft1_trial.Trial.Environment.{
  admission_status_eq, TrialAdmissionStatus, TrialEnvironmentAdmission,
  TrialEnvironmentAdmissionPayload, admission_pass, admission_rejected,
  assert_environment_integrity, expected_status, freeze_trial_environment_admission, required,
}
use human_cos_fft1_trial.Trial.Stop.Integrity.{must_be_aware_iff}

-- Nothing real is within the trial's reach, and the trial may dispose of what it uses.
pub record IsSandboxed (e : TrialEnvironmentAdmissionPayload) : Type 0 where
  pub sandbox_mode : e.sandbox_mode ≡ true
  pub mock_only : e.mock_only ≡ true
  pub live_provider_disabled : e.live_provider_disabled ≡ true
  pub outbound_network_disabled : e.outbound_network_disabled ≡ true
  pub external_tools_disabled : e.external_tools_disabled ≡ true
  pub reality_execution_disabled : e.reality_execution_disabled ≡ true
  pub sensitive_data_absent : e.sensitive_data_absent ≡ true
  pub real_experts_disabled : e.real_experts_disabled ≡ true
  pub provider_secrets_disabled : e.provider_secrets_disabled ≡ true
  pub trial_database_disposable : e.trial_database_disposable ≡ true
  pub database_ownership_marker_present : e.database_ownership_marker_present ≡ true
  pub output_root_disposable : e.output_root_disposable ≡ true
  pub output_root_ownership_marker_present : e.output_root_ownership_marker_present ≡ true
  pub resource_limits_admitted : e.resource_limits_admitted ≡ true
  pub observed_source_commit_sha : e.observed_source_commit_sha ≢ none
  pub observed_database_target : e.observed_database_target ≢ none
  pub observed_output_root : e.observed_output_root ≢ none

seen_iff : {A : Type 0} (o : Option A) → (is_some o ≡ true) ↔ (o ≢ none)
seen_iff none = (λ h. cc, λ h. absurd (h refl))
seen_iff (some a) = (λ h e. cc e, λ h. refl)

required-IsSandboxed :
    (e : TrialEnvironmentAdmissionPayload)
    → (all (λ fact. fact) (required e) ≡ true) ↔ IsSandboxed e
required-IsSandboxed e =
    let commit = seen_iff e.observed_source_commit_sha in
    let database = seen_iff e.observed_database_target in
    let root = seen_iff e.observed_output_root in
    (
      λ h. record {
        sandbox_mode = ground arith;
        mock_only = ground arith;
        live_provider_disabled = ground arith;
        outbound_network_disabled = ground arith;
        external_tools_disabled = ground arith;
        reality_execution_disabled = ground arith;
        sensitive_data_absent = ground arith;
        real_experts_disabled = ground arith;
        provider_secrets_disabled = ground arith;
        trial_database_disposable = ground arith;
        database_ownership_marker_present = ground arith;
        output_root_disposable = ground arith;
        output_root_ownership_marker_present = ground arith;
        resource_limits_admitted = ground arith;
        observed_source_commit_sha = commit.0 (ground arith);
        observed_database_target = database.0 (ground arith);
        observed_output_root = root.0 (ground arith);
      },
      λ s.
          let c = commit.1 s.observed_source_commit_sha in
          let d = database.1 s.observed_database_target in
          let r = root.1 s.observed_output_root in
          rw (
            s.sandbox_mode, s.mock_only, s.live_provider_disabled, s.outbound_network_disabled,
            s.external_tools_disabled, s.reality_execution_disabled, s.sensitive_data_absent,
            s.real_experts_disabled, s.provider_secrets_disabled, s.trial_database_disposable,
            s.database_ownership_marker_present, s.output_root_disposable,
            s.output_root_ownership_marker_present, s.resource_limits_admitted, c, d, r,
          ),
    )

chosen_iff :
    (test : Bool)
    → ((if test then admission_pass else admission_rejected) ≡ admission_pass) ↔ (test ≡ true)
chosen_iff true = (λ h. refl, λ h. refl)
chosen_iff false = (λ h. cc, λ h. cc)

expected_status_iff :
    (e : TrialEnvironmentAdmissionPayload)
    → (expected_status e ≡ admission_pass) ↔ IsSandboxed e × (e.reasons ≡ [])
unfolding expected_status
expected_status_iff e =
    let chosen = chosen_iff (all (λ fact. fact) (required e) && is_empty e.reasons) in
    let facts = and_true_iff (required-IsSandboxed e) (is_empty_iff e.reasons) in
    (λ h. facts.0 (chosen.0 h), λ h. chosen.1 (facts.1 h))

-- Two values of two are equal when they pass alike.
alike : (s t : TrialAdmissionStatus) → ((s ≡ admission_pass) ↔ (t ≡ admission_pass)) → s ≡ t
alike admission_pass t h = sym (h.0 refl)
alike admission_rejected admission_pass h = h.1 refl
alike admission_rejected admission_rejected h = refl

module _ (environment_sha256 : TrialEnvironmentAdmissionPayload → String) where
  -- An environment that may be recorded.
  pub record SoundEnvironment (e : TrialEnvironmentAdmissionPayload) : Type 0 where
    pub stamped : (instant : ℕ) × (e.frozen_at ≡ aware instant)
    pub distinct_reasons : all_distinct e.reasons ≡ true
    pub derived : (e.status ≡ admission_pass) ↔ IsSandboxed e × (e.reasons ≡ [])

  -- An admission is frozen, with its payload and the hash of it, exactly when its time is aware, its
  -- reasons are distinct and it says PASS when, and only when, every fact of a sandbox is there and no
  -- reason speaks against it.
  pub freeze_trial_environment_admission_iff :
      (payload : TrialEnvironmentAdmissionPayload) (admission : TrialEnvironmentAdmission)
      → (freeze_trial_environment_admission environment_sha256 payload ≡ returned admission)
        ↔ (admission
            ≡ record { payload = payload; environment_admission_hash = environment_sha256 payload })
          × SoundEnvironment payload
  unfolding freeze_trial_environment_admission assert_environment_integrity
  freeze_trial_environment_admission_iff payload admission =
      let status = expected_status_iff payload in
      let intact =
        both_iff
          (raises_iff _ (!=_false_iff (environment_sha256 payload) (environment_sha256 payload)))
          (both_iff (raises_iff _ (not-false_iff (all_distinct payload.reasons)))
            (raises_iff _ (!=_false_iff payload.status (expected_status payload)))) in
      let whole = frozen_iff (must_be_aware_iff payload.frozen_at) intact in
      (
        λ h.
            let (same, (time, (_, (alone, agrees)))) = whole.0 h in
            (
              same,
              record {
                stamped = time;
                distinct_reasons = alone;
                derived = (λ h. status.0 (sym agrees ∙ h), λ h. agrees ∙ status.1 h);
              },
            ),
        λ (same, s).
            let agrees =
              alike payload.status (expected_status payload)
                (λ h. status.1 (s.derived.0 h), λ h. s.derived.1 (status.0 h)) in
            whole.1 (same, (s.stamped, (refl, (s.distinct_reasons, agrees)))),
      )
