-- ===== src/Runtime/Scheduler/Checks.antt =====
-- The checks that `TrustedScheduler.run` of scheduler.py makes, and the calls of it that store nothing.
use human_cos_fft1_trial.Prelude.{
  nat_eq, string_eq, bool_eq, option_eq, list_eq, pair_eq, List, Option, Outcome, String, [],
  contains, is_empty, is_some, ltb, none, not, raise_if, raised, returned, some, wrap, ℕ, ◌!=◌,
  ◌&&◌, ◌==◌, ◌>>=◌, ◌>>◌, ◌||◌, ◌∷◌,
}
use human_cos_fft1_trial.Prelude.Texts.{format}
use human_cos_fft1_trial.Core.Context.{ContextBuildRequest, EvidenceAdmissionRecord}
use human_cos_fft1_trial.Core.Contracts.{temporal_eq, Case, Evidence}
use human_cos_fft1_trial.Models.Fallback.{
  InvocationOutcome, ModelAdapter, ModelRequest, invoke_checked, invoke_with_explicit_fallback,
}
use human_cos_fft1_trial.Models.Profile.{
  task_eq, identity_eq, DomainTaskType, ModelError, ModelProfile, Profiles, assert_identity,
}
use human_cos_fft1_trial.Models.Qualification.{
  EligibilityRequirement, assert_domain_eligible, assert_eligible, challenger_role,
  controller_decision, domain_worker_role, evaluator_role, meta_controller_role,
}
use human_cos_fft1_trial.Runtime.Scheduler.{
  SchedulerFailure, WorkerTask, model_failure, repository_failure, scheduler_error,
  worker_isolation_error,
}
use human_cos_fft1_trial.Runtime.States.{
  mode_eq, state_eq, RuntimeState, domain_independent_run, framing_independent, state_value,
}
use human_cos_fft1_trial.Runtime.Transition.{CaseRuntimePosition}

abbrev pub independent_stages : List String
independent_stages = "FRAMING_INDEPENDENT" ∷ "DOMAIN_INDEPENDENT_RUN" ∷ []

unfoldable pub assert_worker_disclosure : String → List String → Outcome SchedulerFailure (Unit {0})
assert_worker_disclosure stage prior_run_ids = do
  raise_if (contains stage independent_stages && not (is_empty prior_run_ids)) (
      worker_isolation_error
        (format (stage ∷ " forbids cross-worker prior_run_ids before protocol disclosure" ∷ [])))
  raise_if (not (contains stage independent_stages) && not (is_empty prior_run_ids)) (
      worker_isolation_error (
        format ("disclosure policy for " ∷ stage ∷ " is not authorized in S3-N; fail closed" ∷ [])))

-- The branches on the role of the requirement.
unfoldable pub authorize_role :
    RuntimeState → EligibilityRequirement → Outcome SchedulerFailure (Unit {0})
authorize_role state requirement = elim requirement.role [
  | domain_worker_role ↦ raise_if (state != domain_independent_run) (
      scheduler_error (
        format (
          "domain worker requires runtime state DOMAIN_INDEPENDENT_RUN, got "
          ∷ state_value state
          ∷ [])))
  | meta_controller_role ↦ (do
    raise_if (state != framing_independent) (
        scheduler_error (
          format (
            "meta_controller Initial Framing requires runtime state FRAMING_INDEPENDENT, got "
            ∷ state_value state
            ∷ [])))
    raise_if (is_some requirement.domain || is_some requirement.task_type)
        (scheduler_error "meta_controller Initial Framing cannot carry domain task fields"))
  | challenger_role ↦ raised (scheduler_error "unsupported trusted scheduler role: challenger")
  | evaluator_role ↦ raised (scheduler_error "unsupported trusted scheduler role: evaluator")
]

-- Step 1 of `run`: state and role authorization.
unfoldable pub authorize_position :
    Case → CaseRuntimePosition → WorkerTask → Outcome SchedulerFailure (Unit {0})
unfolding assert_worker_disclosure authorize_role state_value
authorize_position case position task = do
  raise_if (case.case_mode != position.mode)
      (scheduler_error "Case Mode does not match scheduler runtime position")
  raise_if (case.revision != position.case_revision)
      (scheduler_error "Case revision does not match scheduler runtime position")
  assert_worker_disclosure (state_value position.state) task.prior_run_ids
  authorize_role position.state task.requirement

-- A check of the fallback adapter, when there is one.
abbrev pub for_fallback :
    Option ModelAdapter
    → (ModelAdapter → Outcome ModelError ModelProfile)
    → Outcome SchedulerFailure (Unit {0})
for_fallback none check = returned tt
for_fallback (some adapter) check = wrap model_failure (check adapter) >>= λ _. returned tt

-- Step 2: registry identity.
unfoldable pub authorize_identity :
    Profiles → WorkerTask → ModelAdapter → Option ModelAdapter → Outcome SchedulerFailure (Unit {0})
authorize_identity registry task adapter fallback_adapter = do
  profile ← wrap model_failure (assert_identity registry adapter.identity)
  raise_if (profile.model_id != task.model_id)
      (scheduler_error "task model_id does not match adapter/Registry identity")
  for_fallback fallback_adapter (λ other. assert_identity registry other.identity)

unfoldable pub assert_controller_eligible : Profiles → String → Outcome ModelError ModelProfile
unfolding assert_eligible controller_decision
assert_controller_eligible registry model_id =
    assert_eligible registry model_id (controller_decision registry model_id)

-- The branch of step 3 on a domain worker.
unfoldable pub authorize_domain_worker :
    Profiles
    → String
    → Option String
    → Option DomainTaskType
    → Option ModelAdapter
    → Outcome SchedulerFailure (Unit {0})
authorize_domain_worker registry model_id (some domain) (some task_type) fallback_adapter = do
  profile ← wrap model_failure (assert_domain_eligible registry model_id domain task_type)
  for_fallback fallback_adapter
      (λ other. assert_domain_eligible registry other.identity.model_id domain task_type)
authorize_domain_worker registry model_id _ _ fallback_adapter =
    raised (scheduler_error "domain worker requires domain and task_type")

-- Step 3: qualification, the fallback's too.
unfoldable pub authorize_qualification :
    Profiles
    → String
    → EligibilityRequirement
    → Option ModelAdapter
    → Outcome SchedulerFailure (Unit {0})
unfolding assert_controller_eligible authorize_domain_worker
authorize_qualification registry model_id requirement fallback_adapter = elim requirement.role [
  | domain_worker_role ↦
      authorize_domain_worker registry model_id requirement.domain requirement.task_type
        fallback_adapter
  | _ ↦ (do
    profile ← wrap model_failure (assert_controller_eligible registry model_id)
    for_fallback fallback_adapter
        (λ other. assert_controller_eligible registry other.identity.model_id))
]

-- Steps 1 to 3 of `run`: nothing is stored and no model is called before they pass.
unfoldable pub authorize :
    Profiles
    → Case
    → CaseRuntimePosition
    → WorkerTask
    → ModelAdapter
    → Option ModelAdapter
    → Outcome SchedulerFailure (Unit {0})
unfolding authorize_position authorize_identity authorize_qualification
authorize registry case position task adapter fallback_adapter = do
  authorize_position case position task
  authorize_identity registry task adapter fallback_adapter
  authorize_qualification registry task.model_id task.requirement fallback_adapter

abbrev pub context_request : CaseRuntimePosition → WorkerTask → ContextBuildRequest
context_request position task = record {
  context_manifest_id = task.context_manifest_id;
  run_id = task.run_id;
  stage = state_value position.state;
  role_id = task.role_id;
  actor_id = task.actor_id;
  model_id = task.model_id;
  prompt_version = task.prompt_version;
  reference_time = task.reference_time;
  tool_permissions = task.requested_tools;
  prior_run_ids = task.prior_run_ids;
  forbidden_scopes = task.forbidden_scopes;
}

-- The constructor of a request, with its `__post_init__`.
unfoldable pub model_request : String → ℕ → Outcome ModelError ModelRequest
model_request input_text max_output_tokens = do
  raise_if (input_text == "") (ModelError.value_error "input_text must be non-empty")
  raise_if (ltb max_output_tokens 1) (ModelError.value_error "max_output_tokens must be >= 1")
  returned (record { input_text = input_text; max_output_tokens = max_output_tokens })

unfoldable pub evidence_payloads :
    (String → ℕ → Outcome String (Evidence × ℕ))
    → List EvidenceAdmissionRecord
    → Outcome SchedulerFailure (List Evidence)
evidence_payloads get_evidence [] = returned []
evidence_payloads get_evidence (admitted ∷ rest) = do
  found ← wrap repository_failure (get_evidence admitted.evidence_id admitted.revision)
  raise_if (found.1 != admitted.revision || found.0.snapshot_hash != admitted.snapshot_hash)
      (scheduler_error "admitted Evidence revision/hash binding changed before invocation")
  others ← evidence_payloads get_evidence rest
  returned (found.0 ∷ others)

-- Step 7: the call of the model, without and with a fallback.
unfoldable pub invoke_model :
    Profiles
    → EligibilityRequirement
    → ModelRequest
    → ModelAdapter
    → Option ModelAdapter
    → Outcome ModelError InvocationOutcome
unfolding invoke_checked invoke_with_explicit_fallback
invoke_model registry requirement request adapter none = do
  response ← invoke_checked adapter request registry
  returned (record { response = response; fallback_from = none; primary_error_code = none })
invoke_model registry requirement request adapter (some other) =
    invoke_with_explicit_fallback adapter other request registry requirement
