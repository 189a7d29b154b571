-- ===== src/Tests/ModelRoles.antt =====
-- A qualified controller of the model registry and its fallback.
use human_cos_fft1_trial.Prelude.{
  nat_eq, string_eq, bool_eq, option_eq, list_eq, pair_eq, [], false, none, raised, refl, returned,
  some, true, ◌↔◌, ◌∷◌, ◌≡◌, ◌⊎◌,
}
use human_cos_fft1_trial.Models.Fallback.{
  InvocationOutcome, ModelAdapter, ModelRequest, ModelResponse, invoke_with_explicit_fallback,
}
use human_cos_fft1_trial.Models.Fallback.Provenance.{Admitted, Direct, FellBack, invoke_iff}
use human_cos_fft1_trial.Models.Profile.{
  status_eq, identity_eq, AdapterFailure, ModelIdentity, ModelProfile, Profiles, RoleEligibility,
  causal_inference, model_adapter_error, qualified, rate_limit,
}
use human_cos_fft1_trial.Models.Qualification.{
  EligibilityRequirement, assert_requirement, domain_worker_role,
}
use human_cos_fft1_trial.Models.Qualification.Eligibility.{Eligible, assert_requirement_iff}

abbrev no_roles : RoleEligibility
no_roles = record {
  meta_controller = false;
  challenger = false;
  evaluator = false;
  domain_worker = [];
}

abbrev pub alpha_profile : ModelProfile
alpha_profile = record {
  model_id = "alpha";
  model_family = "greek";
  provider = "north";
  status = qualified;
  role_eligibility = record no_roles { challenger = true; domain_worker = "energy" ∷ [] };
  controller_qualification = none;
  domain_capabilities =
      record { domain = "energy"; task_type = causal_inference; eligibility = qualified } ∷ [];
}

abbrev pub beta_profile : ModelProfile
beta_profile = record alpha_profile { model_id = "beta"; provider = "south" }

abbrev pub registry : Profiles
registry = ("alpha", alpha_profile) ∷ ("beta", beta_profile) ∷ []

abbrev alpha_identity : ModelIdentity
alpha_identity = record { provider = "north"; model_id = "alpha"; model_family = "greek" }

abbrev beta_identity : ModelIdentity
beta_identity = record { provider = "south"; model_id = "beta"; model_family = "greek" }

abbrev pub energy_work : EligibilityRequirement
energy_work = record {
  role = domain_worker_role;
  domain = some "energy";
  task_type = some causal_inference;
}

abbrev ask : ModelRequest
ask = record { input_text = "Why?"; max_output_tokens = 1024 }

abbrev busy : AdapterFailure
busy = record { code = rate_limit; identity = alpha_identity; message = "busy"; retryable = true }

abbrev pub alpha : ModelAdapter
alpha = record { identity = alpha_identity; invoke = λ request. raised (model_adapter_error busy) }

abbrev beta_response : ModelResponse
beta_response = record {
  identity = beta_identity;
  output_text = "Because.";
  finish_reason = none;
  provider_request_id = none;
}

abbrev pub beta : ModelAdapter
beta = record { identity = beta_identity; invoke = λ request. returned beta_response }

abbrev pub fell_back : InvocationOutcome
fell_back = record {
  response = beta_response;
  fallback_from = some "alpha";
  primary_error_code = some rate_limit;
}

answered : invoke_with_explicit_fallback alpha beta ask registry energy_work ≡ returned fell_back
unfolding invoke_with_explicit_fallback
answered = refl

invoke_iff_example :
    (invoke_with_explicit_fallback alpha beta ask registry energy_work ≡ returned fell_back)
    ↔ Admitted registry energy_work ask alpha
      × (Direct registry energy_work ask alpha fell_back
          ⊎ FellBack registry energy_work ask alpha beta fell_back)
invoke_iff_example = invoke_iff registry energy_work ask alpha beta fell_back

assert_requirement_iff_example :
    (assert_requirement registry "alpha" energy_work ≡ returned alpha_profile)
    ↔ Eligible registry "alpha" energy_work alpha_profile
assert_requirement_iff_example = assert_requirement_iff registry "alpha" alpha_profile energy_work
