-- ===== src/Models/Profile.antt =====
-- runtime/src/human_cos/models/types.py, errors.py, profile.py and registry.py: the approved model
-- profiles, without the fields that no modelled operation reads (the scores of a controller
-- qualification and the evaluation data of a domain capability).
pub mod Identity
use human_cos_fft1_trial.Prelude.{
  nat_eq, string_eq, bool_eq, option_eq, list_eq, pair_eq, Bool, Eq, List, Option, Outcome, String,
  [], get_or, insert, is_some, lookup, none, raise_if, raised, refl, returned, some, through, ℕ,
  ◌!=◌, ◌>>=◌, ◌>>◌, ◌||◌, ◌∷◌, ◌≡◌,
}
use human_cos_fft1_trial.Prelude.Texts.{format}

pub data DomainTaskType : Type 0 where
  evidence_interpretation mechanism_analysis causal_inference quantitative_reasoning
        scenario_analysis policy_constraint_analysis source_research :
      DomainTaskType

-- The members in the order of their declaration.
abbrev pub every_task : List DomainTaskType
every_task =
    evidence_interpretation ∷ mechanism_analysis ∷ causal_inference ∷ quantitative_reasoning
    ∷ scenario_analysis ∷ policy_constraint_analysis ∷ source_research ∷ []

abbrev pub task_place : DomainTaskType → ℕ
task_place evidence_interpretation = 0
task_place mechanism_analysis = 1
task_place causal_inference = 2
task_place quantitative_reasoning = 3
task_place scenario_analysis = 4
task_place policy_constraint_analysis = 5
task_place source_research = 6

abbrev pub task_member : ℕ → DomainTaskType
task_member n = get_or every_task n evidence_interpretation

pub task_member_place : (t : DomainTaskType) → task_member (task_place t) ≡ t
task_member_place evidence_interpretation = refl
task_member_place _ = refl

instance abbrev pub task_eq : Eq DomainTaskType
task_eq = through task_place task_member task_member_place

unfoldable pub task_value : DomainTaskType → String
task_value evidence_interpretation = "evidence_interpretation"
task_value mechanism_analysis = "mechanism_analysis"
task_value causal_inference = "causal_inference"
task_value quantitative_reasoning = "quantitative_reasoning"
task_value scenario_analysis = "scenario_analysis"
task_value policy_constraint_analysis = "policy_constraint_analysis"
task_value source_research = "source_research"

-- The status of a model; a capability is never disabled.
pub data ModelStatus : Type 0 where
  candidate qualified restricted disabled : ModelStatus

abbrev pub status_place : ModelStatus → ℕ
status_place candidate = 0
status_place qualified = 1
status_place restricted = 2
status_place disabled = 3

abbrev pub status_member : ℕ → ModelStatus
status_member n = get_or (candidate ∷ qualified ∷ restricted ∷ disabled ∷ []) n candidate

pub status_member_place : (s : ModelStatus) → status_member (status_place s) ≡ s
status_member_place candidate = refl
status_member_place _ = refl

instance abbrev pub status_eq : Eq ModelStatus
status_eq = through status_place status_member status_member_place

pub record RoleEligibility : Type 0 where
  pub meta_controller : Bool
  pub challenger : Bool
  pub evaluator : Bool
  pub domain_worker : List String

pub record ControllerQualification : Type 0 where
  pub benchmark_version : Option String

pub record DomainCapability : Type 0 where
  pub domain : String
  pub task_type : DomainTaskType
  pub eligibility : ModelStatus

pub record ModelProfile : Type 0 where
  pub model_id : String
  pub model_family : String
  pub provider : String
  pub status : ModelStatus
  pub role_eligibility : RoleEligibility
  pub controller_qualification : Option ControllerQualification
  pub domain_capabilities : List DomainCapability

pub record ModelIdentity : Type 0 where
  pub provider : String
  pub model_id : String
  pub model_family : String

abbrev pub identity_fields : ModelIdentity → String × (String × String)
identity_fields identity = (identity.provider, (identity.model_id, identity.model_family))

abbrev pub identity_of : String × (String × String) → ModelIdentity
identity_of (provider, rest) = record {
  provider = provider;
  model_id = rest.0;
  model_family = rest.1;
}

instance abbrev pub identity_eq : Eq ModelIdentity
identity_eq = through identity_fields identity_of (λ identity. refl)

pub data AdapterErrorCode : Type 0 where
  authentication rate_limit timeout content_filter provider_unavailable invalid_response
        configuration :
      AdapterErrorCode

pub record CapabilityGap : Type 0 where
  pub capability_gap_id : String
  pub model_id : String
  pub domain : String
  pub task_type : DomainTaskType
  pub why_required : String
  pub impact_if_missing : String
  pub resolution : List String
  pub status : String

-- The reason of a refusal: the message, by the values that it prints.
pub data EligibilityReason : Type 0 where
  status_not_qualified : ModelStatus → EligibilityReason
  role_not_eligible : String → EligibilityReason
  qualification_absent : EligibilityReason
  domain_not_eligible : String → EligibilityReason
  no_capability : EligibilityReason
  ambiguous_capability : EligibilityReason
  capability_not_qualified : ModelStatus → EligibilityReason
  recorded : EligibilityReason

pub record AdapterFailure : Type 0 where
  pub code : AdapterErrorCode
  pub identity : ModelIdentity
  pub message : String
  pub retryable : Bool

-- The exceptions of errors.py, and `ValueError`.
pub data ModelError : Type 0 where
  model_adapter_error : AdapterFailure → ModelError
  registry_error : String → ModelError
  unknown_model_error : String → ModelError
  identity_mismatch_error : String → ModelError
  eligibility_error : String → EligibilityReason → ModelError
  capability_gap_error : String → EligibilityReason → CapabilityGap → ModelError
  value_error : String → ModelError

abbrev pub Profiles : Type 0
Profiles = List (String × ModelProfile)

-- The loop of `ModelRegistry.__init__`, over the dictionary that it fills.
unfoldable pub fill : Profiles → List ModelProfile → Outcome ModelError Profiles
fill by_id [] = returned by_id
fill by_id (profile ∷ rest) = do
  raise_if (is_some (lookup profile.model_id by_id))
      (registry_error (format ("duplicate model_id: " ∷ profile.model_id ∷ [])))
  fill (insert profile.model_id profile by_id) rest

unfoldable pub model_registry : List ModelProfile → Outcome ModelError Profiles
unfolding fill
model_registry profiles = fill [] profiles

-- `ModelRegistry.get`
unfoldable pub get : Profiles → String → Outcome ModelError ModelProfile
get registry model_id = elim (lookup model_id registry) [
  | none ↦ raised (unknown_model_error (format ("unknown model_id: " ∷ model_id ∷ [])))
  | some profile ↦ returned profile
]

unfoldable pub assert_identity : Profiles → ModelIdentity → Outcome ModelError ModelProfile
unfolding get
assert_identity registry identity = do
  profile ← get registry identity.model_id
  raise_if (profile.provider != identity.provider || profile.model_family != identity.model_family)
      (identity_mismatch_error (
        format (
          "adapter identity does not match registered provider/model_family for "
          ∷ identity.model_id ∷ [])))
  returned profile

-- `compare_identity_independence` of independence.py: the family differs, the provider differs.
unfoldable pub compare_identity_independence : ModelIdentity → ModelIdentity → Bool × Bool
compare_identity_independence left right =
    (left.model_family != right.model_family, left.provider != right.provider)
