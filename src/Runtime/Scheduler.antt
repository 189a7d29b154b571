-- ===== src/Runtime/Scheduler.antt =====
-- runtime/src/human_cos/runtime/scheduler.py: the trusted scheduler of a worker's run. These are its
-- data and the services that it calls; the clock, the hashes, the JSON text and the repository are
-- parameters.
pub mod Checks
pub mod Manifests
pub mod Run
pub mod Requirements
pub mod Authorization
pub mod Script
pub mod Snapshots
pub mod Completion
use human_cos_fft1_trial.Prelude.{
  nat_eq, string_eq, bool_eq, option_eq, list_eq, pair_eq, Bool, List, Option, Outcome, String, ℕ,
}
use human_cos_fft1_trial.Core.Context.{
  ContextAdmissionRecord, ContextBuildResult, ContextError, ContextServices,
}
use human_cos_fft1_trial.Core.Contracts.{temporal_eq, Datetime, Evidence}
use human_cos_fft1_trial.Models.Fallback.{ModelRequest, ModelResponse}
use human_cos_fft1_trial.Models.Profile.{AdapterErrorCode, ModelError, Profiles}
use human_cos_fft1_trial.Models.Qualification.{EligibilityRequirement}
use human_cos_fft1_trial.Runtime.Run.{independence_eq, RunManifest}
use human_cos_fft1_trial.Runtime.ToolPolicy.{
  class_eq, Capabilities, ToolCapability, ToolPolicyError, tool_policy,
}

pub data SchedulerFailure : Type 0 where
  scheduler_error : String → SchedulerFailure
  worker_isolation_error : String → SchedulerFailure
  model_failure : ModelError → SchedulerFailure
  context_failure : ContextError → SchedulerFailure
  tool_failure : ToolPolicyError → SchedulerFailure
  repository_failure : String → SchedulerFailure
  contract_failure : List String → SchedulerFailure

pub record WorkerTask : Type 0 where
  pub run_id : String
  pub context_manifest_id : String
  pub role_id : String
  pub model_id : String
  pub prompt_version : String
  pub input_text : String
  pub requirement : EligibilityRequirement
  pub requested_tools : List String
  pub prior_run_ids : List String
  pub forbidden_scopes : List String
  pub actor_id : Option String
  pub reference_time : Option Datetime
  pub max_output_tokens : ℕ
  pub parent_run_id : Option String

pub record ScheduledRunResult : Type 0 where
  pub response : ModelResponse
  pub context : ContextBuildResult
  pub frozen_manifest : RunManifest
  pub authorized_tools : List ToolCapability

pub data AuditMetadata : Type 0 where
  error_metadata : Option AdapterErrorCode → Bool → AuditMetadata
  frozen_metadata : String → String → List String → AuditMetadata

pub record AuditEvent : Type 0 where
  pub event_id : String
  pub timestamp : ℕ
  pub actor_type : String
  pub actor_id : String
  pub case_id : String
  pub run_id : String
  pub event_type : String
  pub object_ref : String
  pub metadata : AuditMetadata

-- What a run does to the outside: the rows that the repository stores and the calls of a model.
pub data Effect : Type 0 where
  admission_stored : ContextAdmissionRecord → Effect
  manifest_appended : RunManifest → Effect
  model_called : ModelRequest → Effect
  raw_output_stored : String → String → String → Effect
  audit_event_stored : AuditEvent → Effect

abbrev pub Effects : Type 0
Effects = List Effect

-- The repository, which answers by what was stored so far, with the context source, the clock, the
-- hash of a structured output and the JSON text of the evidence.
pub record SchedulerServices : Type 0 where
  pub context : ContextServices
  pub get_evidence : Effects → String → ℕ → Outcome String (Evidence × ℕ)
  pub store_context_admission : Effects → ContextAdmissionRecord → Outcome String (Unit {0})
  pub append_run_manifest : Effects → RunManifest → Outcome String (Unit {0})
  pub store_raw_output : Effects → String → String → String → Outcome String String
  pub store_audit_event : Effects → AuditEvent → Outcome String (Unit {0})
  pub utc_now : Effects → ℕ
  pub structured_output_sha256 : String → Option String → String
  pub dumps : List Evidence → String

-- The gate of a scheduler decides over the profiles of its registry.
pub record TrustedScheduler : Type 0 where
  pub services : SchedulerServices
  pub registry : Profiles
  pub tool_policy : Capabilities
