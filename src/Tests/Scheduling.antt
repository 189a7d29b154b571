-- ===== src/Tests/Scheduling.antt =====
-- A run of scheduler.py whose model is busy and whose fallback answers.
use human_cos_fft1_trial.Prelude.{
  nat_eq, string_eq, bool_eq, option_eq, list_eq, pair_eq, String, [], length, none, refl, returned,
  some, ◌↔◌, ◌∷◌, ◌≡◌, ◌≢◌, ◌⊎◌,
}
use human_cos_fft1_trial.Core.Context.{
  ContextBuildRequest, ContextBuildResult, admission_payload, admission_record_of, admit, assemble,
  build_context, context_admission_record, effective_reference_time, manifest_document,
  parse_context_manifest, revalidate_candidates, sort_by_id,
}
use human_cos_fft1_trial.Core.Visibility.{temporal_allows, visibility_basis}
use human_cos_fft1_trial.Models.Fallback.{ModelRequest, invoke_with_explicit_fallback}
use human_cos_fft1_trial.Models.Profile.{assert_identity}
use human_cos_fft1_trial.Models.Qualification.{role_value, assert_domain_eligible}
use human_cos_fft1_trial.Prelude.Texts.{is_sha256}
use human_cos_fft1_trial.Runtime.Journal.{Emits, ask, lift, read, write, ◌>>=◌, ◌>>◌}
use human_cos_fft1_trial.Runtime.Run.{
  independence_eq, RunManifest, identity, validate_run_snapshot_transition,
}
use human_cos_fft1_trial.Runtime.Scheduler.{
  ScheduledRunResult, SchedulerServices, TrustedScheduler, WorkerTask,
}
use human_cos_fft1_trial.Runtime.Scheduler.Authorization.{Authorized, authorize_iff}
use human_cos_fft1_trial.Runtime.Scheduler.Checks.{authorize, context_request, invoke_model}
use human_cos_fft1_trial.Runtime.Scheduler.Completion.{Completed, run-Completed}
use human_cos_fft1_trial.Runtime.Scheduler.Manifests.{
  created_manifest, frozen_manifest_of, running_manifest,
}
use human_cos_fft1_trial.Runtime.Scheduler.Run.{prompt_of, run}
use human_cos_fft1_trial.Runtime.Scheduler.Script.{
  effect_kind, run-Emits, run_script, used_fallback_of,
}
use human_cos_fft1_trial.Runtime.Scheduler.Snapshots.{
  first_snapshot, second_snapshot, snapshots_iff, third_snapshot,
}
use human_cos_fft1_trial.Runtime.States.{
  mode_eq, state_eq, domain_independent_run, historical_blind_eval,
}
use human_cos_fft1_trial.Runtime.ToolPolicy.{authorize_context}
use human_cos_fft1_trial.Runtime.Transition.{CaseRuntimePosition}
use human_cos_fft1_trial.Tests.Contexts.{admitted_notes, note, note_services, old_case}
use human_cos_fft1_trial.Tests.ModelRoles.{alpha, beta, energy_work, fell_back, registry}
use human_cos_fft1_trial.Tests.Tools.{catalog, search_tool}

abbrev digest : String
digest = "aaaaaaaaaaaaaaaaaaaaaaaaaaaaaaaaaaaaaaaaaaaaaaaaaaaaaaaaaaaaaaaa"

abbrev worker_task : WorkerTask
worker_task = record {
  run_id = "run-1";
  context_manifest_id = "cm-1";
  role_id = "worker";
  model_id = "alpha";
  prompt_version = "p1";
  input_text = "Why?";
  requirement = energy_work;
  requested_tools = "search" ∷ [];
  prior_run_ids = [];
  forbidden_scopes = "market" ∷ [];
  actor_id = none;
  reference_time = none;
  max_output_tokens = 1024;
  parent_run_id = none;
}

abbrev position : CaseRuntimePosition
position = record {
  mode = historical_blind_eval;
  state = domain_independent_run;
  case_revision = 1;
}

-- A repository that stores everything, with a clock that counts the effects.
abbrev accepting_services : SchedulerServices
accepting_services = record {
  context = record note_services { stable_hash = λ manifest. digest };
  get_evidence = λ effects evidence_id revision. returned (note, revision);
  store_context_admission = λ effects a. returned tt;
  append_run_manifest = λ effects m. returned tt;
  store_raw_output = λ effects run_id output_ref content. returned content;
  store_audit_event = λ effects e. returned tt;
  utc_now = λ effects. length effects;
  structured_output_sha256 = λ output_text finish_reason. output_text;
  dumps = λ evidence. "[]";
}

abbrev scheduler : TrustedScheduler
scheduler = record { services = accepting_services; registry = registry; tool_policy = catalog }

abbrev task_request : ContextBuildRequest
task_request = context_request position worker_task

abbrev task_context : ContextBuildResult
task_context = record {
  manifest = manifest_document old_case task_request 100 admitted_notes (some digest);
  admission = record {
    payload = admission_payload task_request 100 admitted_notes "cm-1" digest;
    record_hash = digest;
  };
}

task_context_built :
    build_context accepting_services.context old_case task_request ≡ returned task_context
unfolding build_context effective_reference_time revalidate_candidates temporal_allows
    visibility_basis assemble parse_context_manifest sort_by_id admit context_admission_record
    admission_record_of
task_context_built = refl

authorized : authorize registry old_case position worker_task alpha (some beta) ≡ returned tt
unfolding authorize assert_identity assert_domain_eligible
authorized = refl

authorize_iff_example :
    (authorize registry old_case position worker_task alpha (some beta) ≡ returned tt)
    ↔ Authorized registry old_case position worker_task alpha (some beta)
authorize_iff_example = authorize_iff registry old_case position worker_task alpha (some beta)

tools_allowed :
    authorize_context catalog ("search" ∷ []) ("market" ∷ []) ≡ returned (search_tool ∷ [])
unfolding authorize_context
tools_allowed = refl

abbrev prompt : ModelRequest
prompt = record {
  input_text = prompt_of accepting_services worker_task (note ∷ []);
  max_output_tokens = 1024;
}

answered : invoke_model registry energy_work prompt alpha (some beta) ≡ returned fell_back
unfolding invoke_model invoke_with_explicit_fallback
answered = refl

abbrev task_result : ScheduledRunResult
task_result = record {
  response = fell_back.response;
  context = task_context;
  frozen_manifest =
      frozen_manifest_of
        (running_manifest
          (created_manifest old_case position worker_task alpha task_context.manifest digest) 1)
        fell_back "raw:run-1" fell_back.response.output_text fell_back.response.output_text 5;
  authorized_tools = search_tool ∷ [];
}

run_returned :
    (run scheduler old_case position worker_task alpha (some beta) []).0 ≡ returned task_result
unfolding run ◌>>◌ ◌>>=◌ lift read ask write build_context effective_reference_time
    revalidate_candidates temporal_allows visibility_basis sort_by_id admission_record_of
    authorize_context role_value is_sha256
run_returned = refl

run-Emits_example :
    Emits effect_kind run_script used_fallback_of
      (run scheduler old_case position worker_task alpha (some beta))
run-Emits_example = run-Emits scheduler old_case position worker_task alpha (some beta)

run-Completed_example :
    Completed scheduler old_case position worker_task alpha (some beta) task_result
run-Completed_example =
    run-Completed scheduler old_case position worker_task alpha (some beta) [] run_returned

abbrev second : RunManifest
second = second_snapshot old_case position worker_task alpha task_context.manifest digest 3

abbrev third : RunManifest
third =
    third_snapshot old_case position worker_task alpha task_context.manifest digest 3 fell_back
      "raw:run-1" "aa" "bb" 9

snapshots_iff_example :
    (validate_run_snapshot_transition
        (first_snapshot old_case position worker_task alpha task_context.manifest digest 3)
        second
      ≡ returned tt)
    × ((validate_run_snapshot_transition second third ≡ returned tt)
        ↔ (fell_back.fallback_from ≡ none) ⊎ (identity third ≢ identity second))
snapshots_iff_example =
    snapshots_iff old_case position worker_task alpha task_context.manifest digest 3 fell_back
      "raw:run-1" "aa" "bb" 9 registry energy_work prompt (some beta) answered
