-- ===== src/Trial/Environment.antt =====
-- runtime/src/human_cos/trial/contracts.py: the admission of a trial's environment. Its five authority
-- flags, which the contract's types hold to be false, are left out, and so is the check on them; the
-- length and pattern of its texts are not modelled.
pub mod Sandbox
use human_cos_fft1_trial.Prelude.{
  nat_eq, string_eq, bool_eq, option_eq, list_eq, pair_eq, Bool, Eq, List, Option, Outcome, String,
  [], all, false, if◌then◌else◌, is_empty, is_some, raise_if, refl, returned, through, true, ◌!=◌,
  ◌&&◌, ◌>>=◌, ◌>>◌, ◌∷◌, ◌≡◌,
}
use human_cos_fft1_trial.Core.Contracts.{Datetime}
use human_cos_fft1_trial.Trial.Contracts.{TrialError, contract_error}
use human_cos_fft1_trial.Trial.Result.{assert_unique}
use human_cos_fft1_trial.Trial.Steps.{must_be_aware}

pub data TrialAdmissionStatus : Type 0 where
  admission_pass admission_rejected : TrialAdmissionStatus

abbrev passed : TrialAdmissionStatus → Bool
passed admission_pass = true
passed admission_rejected = false

abbrev member_of : Bool → TrialAdmissionStatus
member_of test = if test then admission_pass else admission_rejected

pub member_of-passed : (s : TrialAdmissionStatus) → member_of (passed s) ≡ s
member_of-passed admission_pass = refl
member_of-passed admission_rejected = refl

instance abbrev pub admission_status_eq : Eq TrialAdmissionStatus
admission_status_eq = through passed member_of member_of-passed

pub record TrialEnvironmentAdmissionPayload : Type 0 where
  pub admission_id : String
  pub attempt_receipt_hash : String
  pub manifest_hash : String
  pub canonical_admission_hash : String
  pub canonical_registry_entry_id : String
  pub detached_input_address : String
  pub observed_source_commit_sha : Option String
  pub observed_database_target : Option String
  pub observed_output_root : Option String
  pub sandbox_mode : Bool
  pub mock_only : Bool
  pub live_provider_disabled : Bool
  pub outbound_network_disabled : Bool
  pub external_tools_disabled : Bool
  pub reality_execution_disabled : Bool
  pub sensitive_data_absent : Bool
  pub real_experts_disabled : Bool
  pub provider_secrets_disabled : Bool
  pub trial_database_disposable : Bool
  pub database_ownership_marker_present : Bool
  pub output_root_disposable : Bool
  pub output_root_ownership_marker_present : Bool
  pub resource_limits_admitted : Bool
  pub status : TrialAdmissionStatus
  pub reasons : List String
  pub frozen_at : Datetime

pub record TrialEnvironmentAdmission : Type 0 where
  pub payload : TrialEnvironmentAdmissionPayload
  pub environment_admission_hash : String

abbrev pub required : TrialEnvironmentAdmissionPayload → List Bool
required e =
    e.sandbox_mode
    ∷ e.mock_only
    ∷ e.live_provider_disabled
    ∷ e.outbound_network_disabled
    ∷ e.external_tools_disabled
    ∷ e.reality_execution_disabled
    ∷ e.sensitive_data_absent
    ∷ e.real_experts_disabled
    ∷ e.provider_secrets_disabled
    ∷ e.trial_database_disposable
    ∷ e.database_ownership_marker_present
    ∷ e.output_root_disposable
    ∷ e.output_root_ownership_marker_present
    ∷ e.resource_limits_admitted
    ∷ is_some e.observed_source_commit_sha
    ∷ is_some e.observed_database_target
    ∷ is_some e.observed_output_root
    ∷ []

-- The status that the facts derive.
unfoldable pub expected_status : TrialEnvironmentAdmissionPayload → TrialAdmissionStatus
expected_status e =
    if all (λ fact. fact) (required e) && is_empty e.reasons
    then admission_pass
    else admission_rejected

module _ (environment_sha256 : TrialEnvironmentAdmissionPayload → String) where
  -- `TrialEnvironmentAdmission.assert_integrity`
  unfoldable pub assert_environment_integrity :
      TrialEnvironmentAdmission → Outcome TrialError (Unit {0})
  unfolding expected_status
  assert_environment_integrity admission = do
    let payload = admission.payload
    raise_if (admission.environment_admission_hash != environment_sha256 payload)
        (contract_error "TrialEnvironmentAdmission hash does not match payload")
    assert_unique payload.reasons "TrialEnvironmentAdmission reasons"
    raise_if (payload.status != expected_status payload)
        (contract_error "Environment Admission status is not derivable from facts")

  unfoldable pub freeze_trial_environment_admission :
      TrialEnvironmentAdmissionPayload → Outcome TrialError TrialEnvironmentAdmission
  unfolding assert_environment_integrity must_be_aware
  freeze_trial_environment_admission payload = do
    must_be_aware payload.frozen_at
    let admission : TrialEnvironmentAdmission = record {
      payload = payload;
      environment_admission_hash = environment_sha256 payload;
    }
    assert_environment_integrity admission
    returned admission
