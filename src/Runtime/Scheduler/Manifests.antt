-- ===== src/Runtime/Scheduler/Manifests.antt =====
-- The three snapshots of the run's manifest in `TrustedScheduler.run` of scheduler.py.
use human_cos_fft1_trial.Prelude.{
  nat_eq, string_eq, bool_eq, option_eq, list_eq, pair_eq, String, false, none, some, true, ℕ,
}
use human_cos_fft1_trial.Core.Contracts.{Case, ContextManifest}
use human_cos_fft1_trial.Models.Fallback.{InvocationOutcome, ModelAdapter}
use human_cos_fft1_trial.Models.Profile.{identity_eq}
use human_cos_fft1_trial.Models.Qualification.{role_value}
use human_cos_fft1_trial.Runtime.Run.{independence_eq, RunIndependence, RunManifest, RunStatus}
use human_cos_fft1_trial.Runtime.Scheduler.{WorkerTask}
use human_cos_fft1_trial.Runtime.States.{mode_eq, state_eq, state_value}
use human_cos_fft1_trial.Runtime.Transition.{CaseRuntimePosition}

abbrev pub independence : RunIndependence
independence = record {
  context = true;
  prompt = true;
  model_family = false;
  provider = false;
  evidence_path = true;
  expert = none;
}

abbrev pub created_manifest :
    Case → CaseRuntimePosition → WorkerTask → ModelAdapter → ContextManifest → String → RunManifest
created_manifest case position task adapter manifest hash = record {
  run_id = task.run_id;
  case_id = case.case_id;
  stage = state_value position.state;
  role_type = role_value task.requirement.role;
  model_id = adapter.identity.model_id;
  model_family = adapter.identity.model_family;
  provider = adapter.identity.provider;
  protocol_version = case.protocol_version;
  context_manifest_hash = hash;
  prompt_version = some task.prompt_version;
  tool_permissions = some manifest.tool_permissions;
  status = RunStatus.created;
  parent_run_id = task.parent_run_id;
  fallback_from = none;
  raw_output_ref = none;
  raw_output_hash = none;
  structured_output_hash = none;
  independence = independence;
  started_at = none;
  finished_at = none;
}

-- `created.model_copy(update={"status": "RUNNING", "started_at": now})`
abbrev pub running_manifest : RunManifest → ℕ → RunManifest
running_manifest manifest now = record manifest {
  status = RunStatus.running;
  started_at = some now;
}

-- The copy of the running manifest that `run` freezes.
abbrev pub frozen_manifest_of :
    RunManifest → InvocationOutcome → String → String → String → ℕ → RunManifest
frozen_manifest_of manifest outcome output_ref output_hash structured_hash now = record manifest {
  status = RunStatus.frozen;
  model_id = outcome.response.identity.model_id;
  model_family = outcome.response.identity.model_family;
  provider = outcome.response.identity.provider;
  fallback_from = outcome.fallback_from;
  raw_output_ref = some output_ref;
  raw_output_hash = some output_hash;
  structured_output_hash = some structured_hash;
  finished_at = some now;
}
