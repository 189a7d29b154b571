-- ===== src/Models/Fallback.antt =====
-- runtime/src/human_cos/models/fallback.py. An adapter is not under the modelled code: it is an
-- identity with a function from a request to a response or an exception. The usage that a provider
-- reports with a response is not modelled.
pub mod Provenance
use human_cos_fft1_trial.Prelude.{
  nat_eq, string_eq, bool_eq, option_eq, list_eq, pair_eq, Option, Outcome, String, none, not,
  raise_if, raised, returned, some, ℕ, ◌!=◌, ◌>>=◌, ◌>>◌,
}
use human_cos_fft1_trial.Models.Profile.{
  status_eq, identity_eq, AdapterErrorCode, ModelError, ModelIdentity, ModelProfile, Profiles,
  assert_identity, identity_mismatch_error, model_adapter_error,
}
use human_cos_fft1_trial.Models.Qualification.{EligibilityRequirement, assert_requirement}

pub record ModelRequest : Type 0 where
  pub input_text : String
  pub max_output_tokens : ℕ

pub record ModelResponse : Type 0 where
  pub identity : ModelIdentity
  pub output_text : String
  pub finish_reason : Option String
  pub provider_request_id : Option String

pub record InvocationOutcome : Type 0 where
  pub response : ModelResponse
  pub fallback_from : Option String
  pub primary_error_code : Option AdapterErrorCode

pub record ModelAdapter : Type 0 where
  pub identity : ModelIdentity
  pub invoke : ModelRequest → Outcome ModelError ModelResponse

unfoldable pub assert_adapter :
    Profiles → ModelAdapter → EligibilityRequirement → Outcome ModelError ModelProfile
unfolding assert_identity assert_requirement
assert_adapter registry adapter requirement = do
  profile ← assert_identity registry adapter.identity
  assert_requirement registry adapter.identity.model_id requirement

unfoldable pub invoke_checked :
    ModelAdapter → ModelRequest → Profiles → Outcome ModelError ModelResponse
unfolding assert_identity
invoke_checked adapter request registry = do
  response ← adapter.invoke request
  raise_if (response.identity != adapter.identity) (
      identity_mismatch_error
        "adapter returned a response identity different from its declared identity")
  profile ← assert_identity registry response.identity
  returned response

-- The `except ModelAdapterError` block: what the caller gets from the exception of the primary.
unfoldable pub after_failure :
    ModelAdapter
    → ModelAdapter
    → ModelRequest
    → Profiles
    → EligibilityRequirement
    → ModelError
    → Outcome ModelError InvocationOutcome
unfolding assert_adapter invoke_checked
after_failure primary second request registry requirement (model_adapter_error failure) = do
  raise_if (not failure.retryable) (model_adapter_error failure)
  profile ← assert_adapter registry second requirement
  response ← invoke_checked second request registry
  returned (record {
    response = response;
    fallback_from = some primary.identity.model_id;
    primary_error_code = some failure.code;
  })
after_failure primary second request registry requirement error = raised error

unfoldable pub invoke_with_explicit_fallback :
    ModelAdapter
    → ModelAdapter
    → ModelRequest
    → Profiles
    → EligibilityRequirement
    → Outcome ModelError InvocationOutcome
unfolding assert_adapter invoke_checked after_failure
invoke_with_explicit_fallback primary second request registry requirement = do
  profile ← assert_adapter registry primary requirement
  elim (invoke_checked primary request registry) [
    | returned response ↦
        returned (record { response = response; fallback_from = none; primary_error_code = none })
    | raised error ↦ after_failure primary second request registry requirement error
  ]
