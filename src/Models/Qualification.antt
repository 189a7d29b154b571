-- ===== src/Models/Qualification.antt =====
-- runtime/src/human_cos/models/qualification.py: who may take a restricted role.
pub mod Eligibility
use human_cos_fft1_trial.Prelude.{
  nat_eq, string_eq, bool_eq, option_eq, list_eq, pair_eq, Bool, List, Option, Outcome, String, [],
  contains, false, if◌then◌else◌, is_some, keep, not, raise_if, raised, returned, some, true, ◌!=◌,
  ◌&&◌, ◌==◌, ◌>>=◌, ◌>>◌, ◌∷◌,
}
use human_cos_fft1_trial.Prelude.Texts.{format}
use human_cos_fft1_trial.Core.Visibility.{role}
use human_cos_fft1_trial.Models.Profile.{
  task_eq, status_eq, CapabilityGap, DomainCapability, DomainTaskType, EligibilityReason,
  ModelError, ModelProfile, Profiles, ambiguous_capability, capability_gap_error,
  capability_not_qualified, domain_not_eligible, eligibility_error, get, no_capability,
  qualification_absent, qualified, recorded, role_not_eligible, status_not_qualified, task_value,
  value_error,
}

pub record EligibilityDecision : Type 0 where
  pub allowed : Bool
  pub reason : EligibilityReason

abbrev pub denied : EligibilityReason → EligibilityDecision
denied reason = record { allowed = false; reason = reason }

abbrev pub granted : EligibilityDecision
granted = record { allowed = true; reason = recorded }

unfoldable pub controller_verdict : ModelProfile → EligibilityDecision
controller_verdict profile =
    if profile.status != qualified
    then denied (status_not_qualified profile.status)
    else if not profile.role_eligibility.meta_controller
    then denied (role_not_eligible "meta_controller")
    else if not (is_some profile.controller_qualification)
    then denied qualification_absent
    else granted

unfoldable pub controller_decision : Profiles → String → Outcome ModelError EligibilityDecision
unfolding get controller_verdict
controller_decision registry model_id = do
  profile ← get registry model_id
  returned (controller_verdict profile)

unfoldable pub challenger_verdict : ModelProfile → EligibilityDecision
challenger_verdict profile =
    if profile.status != qualified
    then denied (status_not_qualified profile.status)
    else if not profile.role_eligibility.challenger
    then denied (role_not_eligible "challenger")
    else granted

unfoldable pub challenger_decision : Profiles → String → Outcome ModelError EligibilityDecision
unfolding get challenger_verdict
challenger_decision registry model_id = do
  profile ← get registry model_id
  returned (challenger_verdict profile)

unfoldable pub evaluator_verdict : ModelProfile → EligibilityDecision
evaluator_verdict profile =
    if profile.status != qualified
    then denied (status_not_qualified profile.status)
    else if not profile.role_eligibility.evaluator
    then denied (role_not_eligible "evaluator")
    else granted

unfoldable pub evaluator_decision : Profiles → String → Outcome ModelError EligibilityDecision
unfolding get evaluator_verdict
evaluator_decision registry model_id = do
  profile ← get registry model_id
  returned (evaluator_verdict profile)

-- `_matching_domain_capabilities`
unfoldable pub matching_domain_capabilities :
    ModelProfile → String → DomainTaskType → List DomainCapability
matching_domain_capabilities profile domain task_type =
    keep (λ capability. capability.domain == domain && capability.task_type == task_type)
      profile.domain_capabilities

-- What the matching records say: one, and qualified.
unfoldable pub capability_verdict : List DomainCapability → EligibilityDecision
capability_verdict [] = denied no_capability
capability_verdict (capability ∷ []) =
    if capability.eligibility != qualified
    then denied (capability_not_qualified capability.eligibility)
    else granted
capability_verdict (capability ∷ another ∷ rest) = denied ambiguous_capability

unfoldable pub domain_verdict : ModelProfile → String → DomainTaskType → EligibilityDecision
unfolding capability_verdict matching_domain_capabilities
domain_verdict profile domain task_type =
    if profile.status != qualified
    then denied (status_not_qualified profile.status)
    else if not (contains domain profile.role_eligibility.domain_worker)
    then denied (domain_not_eligible domain)
    else capability_verdict (matching_domain_capabilities profile domain task_type)

unfoldable pub domain_decision :
    Profiles → String → String → DomainTaskType → Outcome ModelError EligibilityDecision
unfolding get domain_verdict
domain_decision registry model_id domain task_type = do
  profile ← get registry model_id
  returned (domain_verdict profile domain task_type)

unfoldable pub capability_gap : String → String → DomainTaskType → CapabilityGap
unfolding task_value
capability_gap model_id domain task_type = record {
  capability_gap_id = format ("gap:" ∷ model_id ∷ ":" ∷ domain ∷ ":" ∷ task_value task_type ∷ []);
  model_id = model_id;
  domain = domain;
  task_type = task_type;
  why_required = "restricted Human-COS domain task requires explicit qualification";
  impact_if_missing = "result must pause or preserve unknown; role-play fallback forbidden";
  resolution = "new_model" ∷ "expert" ∷ "tool" ∷ "more_evidence" ∷ "preserve_unknown" ∷ [];
  status = "OPEN";
}

-- The three `assert_..._eligible` of a role without a domain: the decision, then the profile.
unfoldable pub assert_eligible :
    Profiles → String → Outcome ModelError EligibilityDecision → Outcome ModelError ModelProfile
unfolding get
assert_eligible registry model_id decided = do
  verdict ← decided
  raise_if (not verdict.allowed) (eligibility_error model_id verdict.reason)
  get registry model_id

unfoldable pub assert_domain_eligible :
    Profiles → String → String → DomainTaskType → Outcome ModelError ModelProfile
unfolding get domain_decision capability_gap
assert_domain_eligible registry model_id domain task_type = do
  verdict ← domain_decision registry model_id domain task_type
  raise_if (not verdict.allowed)
      (capability_gap_error model_id verdict.reason (capability_gap model_id domain task_type))
  get registry model_id

pub data RestrictedRole : Type 0 where
  meta_controller_role domain_worker_role challenger_role evaluator_role : RestrictedRole

unfoldable pub role_value : RestrictedRole → String
role_value meta_controller_role = "meta_controller"
role_value domain_worker_role = "domain_worker"
role_value challenger_role = "challenger"
role_value evaluator_role = "evaluator"

pub record EligibilityRequirement : Type 0 where
  pub role : RestrictedRole
  pub domain : Option String
  pub task_type : Option DomainTaskType

-- The last lines of `assert_requirement`, for a domain worker.
unfoldable pub assert_domain_requirement :
    Profiles → String → Option String → Option DomainTaskType → Outcome ModelError ModelProfile
unfolding assert_domain_eligible
assert_domain_requirement registry model_id (some domain) (some task_type) =
    assert_domain_eligible registry model_id domain task_type
assert_domain_requirement registry model_id _ _ =
    raised (value_error "domain_worker requirement needs domain and task_type")

unfoldable pub assert_requirement :
    Profiles → String → EligibilityRequirement → Outcome ModelError ModelProfile
unfolding assert_eligible controller_decision challenger_decision evaluator_decision
    assert_domain_requirement
assert_requirement registry model_id requirement = elim requirement.role [
  | meta_controller_role ↦ assert_eligible registry model_id (controller_decision registry model_id)
  | challenger_role ↦ assert_eligible registry model_id (challenger_decision registry model_id)
  | evaluator_role ↦ assert_eligible registry model_id (evaluator_decision registry model_id)
  | domain_worker_role ↦
      assert_domain_requirement registry model_id requirement.domain requirement.task_type
]
