-- ===== src/Runtime/Scheduler/Script.antt =====
-- The order in which `TrustedScheduler.run` of scheduler.py stores and asks, whether it returns or
-- raises.
use human_cos_fft1_trial.Prelude.{
  nat_eq, string_eq, bool_eq, option_eq, list_eq, pair_eq, Bool, List, Option, String, [], ap,
  false, is_some, none, refl, returned, some, true, ◌++◌, ◌∷◌,
}
use human_cos_fft1_trial.Core.Context.{ContextBuildResult}
use human_cos_fft1_trial.Core.Contracts.{Case}
use human_cos_fft1_trial.Models.Fallback.{InvocationOutcome, ModelAdapter}
use human_cos_fft1_trial.Models.Profile.{identity_eq, AdapterErrorCode, Profiles}
use human_cos_fft1_trial.Runtime.Journal.{
  Emits, ask-Emits, bind-Emits, lift-Emits, one_of-Emits, only, read-Emits, the_one, write-Emits,
  ◌>>◌,
}
use human_cos_fft1_trial.Runtime.Run.{independence_eq, RunManifest, RunStatus}
use human_cos_fft1_trial.Runtime.Scheduler.{
  Effect, ScheduledRunResult, SchedulerServices, TrustedScheduler, WorkerTask, admission_stored,
  audit_event_stored, manifest_appended, model_called, raw_output_stored,
}
use human_cos_fft1_trial.Runtime.Scheduler.Completion.{close_run-Closed}
use human_cos_fft1_trial.Runtime.Scheduler.Manifests.{created_manifest, running_manifest}
use human_cos_fft1_trial.Runtime.Scheduler.Run.{
  append_manifest, audit_fallback, close_run, perform, read_payloads, run, store_admission,
  store_event, store_output,
}
use human_cos_fft1_trial.Runtime.States.{mode_eq, state_eq}
use human_cos_fft1_trial.Runtime.ToolPolicy.{class_eq, ToolCapability}
use human_cos_fft1_trial.Runtime.Transition.{CaseRuntimePosition}

pub data EffectKind : Type 0 where
  admission_kind : EffectKind
  manifest_kind : RunStatus → EffectKind
  model_kind : EffectKind
  output_kind : EffectKind
  event_kind : String → EffectKind

abbrev pub effect_kind : Effect → EffectKind
effect_kind (admission_stored _) = admission_kind
effect_kind (manifest_appended m) = manifest_kind m.status
effect_kind (model_called _) = model_kind
effect_kind (raw_output_stored _ _ _) = output_kind
effect_kind (audit_event_stored event) = event_kind event.event_type

abbrev pub fallback_script : Bool → List EffectKind
fallback_script true = event_kind "PRIMARY_MODEL_ERROR" ∷ []
fallback_script false = []

abbrev pub closing_script : Bool → List EffectKind
closing_script used_fallback =
    output_kind
    ∷ manifest_kind RunStatus.frozen
    ∷ (fallback_script used_fallback ++ (event_kind "RUN_FROZEN" ∷ []))

-- Whether a fallback answered.
abbrev pub used_fallback_of : ScheduledRunResult → Bool
used_fallback_of result = is_some result.frozen_manifest.fallback_from

-- What a whole run does, with or without the record of a primary that failed.
abbrev pub run_script : Bool → List EffectKind
run_script used_fallback =
    admission_kind
    ∷ manifest_kind RunStatus.created
    ∷ manifest_kind RunStatus.running
    ∷ model_kind
    ∷ closing_script used_fallback

module _ (services : SchedulerServices) where
  audit_fallback-Emits :
      (case : Case) (task : WorkerTask) (fallback_from : Option String)
      (error_code : Option AdapterErrorCode)
      → Emits effect_kind
          (only (fallback_script (is_some fallback_from)))
          the_one
          (audit_fallback services case task fallback_from error_code)
  unfolding audit_fallback store_event
  audit_fallback-Emits case task none error_code = lift-Emits effect_kind (returned tt)
  audit_fallback-Emits case task (some name) error_code =
      bind-Emits effect_kind tt _ _ (read-Emits effect_kind _)
        (λ now. write-Emits effect_kind _ _ refl)

  close_run-Emits :
      (case : Case) (position : CaseRuntimePosition) (task : WorkerTask)
      (context : ContextBuildResult) (tools : List ToolCapability) (snapshot : RunManifest)
      (outcome : InvocationOutcome)
      → Emits effect_kind closing_script used_fallback_of
          (close_run services case position task context tools snapshot outcome)
  unfolding close_run store_output append_manifest store_event ◌>>◌
  close_run-Emits case position task context tools snapshot outcome =
      one_of-Emits effect_kind closing_script used_fallback_of _ (is_some outcome.fallback_from)
        (λ effects result h.
          ap is_some
            (close_run-Closed services case position task context tools snapshot outcome effects
              h).final_origin)
        (bind-Emits effect_kind tt _ _ (write-Emits effect_kind _ _ refl) λ output_hash.
          bind-Emits effect_kind tt _ _ (read-Emits effect_kind _) λ finished.
            bind-Emits effect_kind tt _ _ (write-Emits effect_kind _ _ refl) λ u.
              bind-Emits effect_kind tt _ _ (audit_fallback-Emits case task _ _) λ u.
                bind-Emits effect_kind tt _ _ (read-Emits effect_kind _) λ now.
                  bind-Emits effect_kind tt _ _ (write-Emits effect_kind _ _ refl)
                    λ u. lift-Emits effect_kind _)

  perform-Emits :
      (registry : Profiles) (case : Case) (position : CaseRuntimePosition) (task : WorkerTask)
      (adapter : ModelAdapter) (fallback_adapter : Option ModelAdapter)
      (context : ContextBuildResult) (hash : String) (tools : List ToolCapability)
      → Emits effect_kind
          (λ used.
            manifest_kind RunStatus.created
            ∷ manifest_kind RunStatus.running
            ∷ model_kind
            ∷ closing_script used)
          used_fallback_of
          (perform services registry case position task adapter fallback_adapter context hash tools)
  unfolding perform append_manifest read_payloads ◌>>◌
  perform-Emits registry case position task adapter fallback_adapter context hash tools =
      bind-Emits effect_kind false _ _ (read-Emits effect_kind _) λ now.
        bind-Emits effect_kind false _ _ (lift-Emits effect_kind _) λ u.
          bind-Emits effect_kind false _ _ (write-Emits effect_kind _ _ refl) λ u.
            bind-Emits effect_kind false _ _ (write-Emits effect_kind _ _ refl) λ u.
              bind-Emits effect_kind false _ _ (ask-Emits effect_kind _) λ payloads.
                bind-Emits effect_kind false _ _ (lift-Emits effect_kind _) λ request.
                  bind-Emits effect_kind false _ _ (write-Emits effect_kind _ _ refl) λ u.
                    bind-Emits effect_kind false _ _ (lift-Emits effect_kind _) λ outcome.
                      close_run-Emits case position task context tools
                        (running_manifest
                          (created_manifest case position task adapter context.manifest hash) now)
                        outcome

-- Whatever the run returns or raises, what it stores and asks for is a beginning of a script: the
-- admission of the context, the created and the running manifest, the call of the model, the raw
-- output, the frozen manifest, perhaps the audit event of a failed primary, and the audit event of the
-- frozen run. When the run returns, it is the whole script, with the event of the failed primary
-- exactly when the frozen manifest of the result names a model that a fallback replaced.
pub run-Emits :
    (scheduler : TrustedScheduler) (case : Case) (position : CaseRuntimePosition)
    (task : WorkerTask) (adapter : ModelAdapter) (fallback_adapter : Option ModelAdapter)
    → Emits effect_kind run_script used_fallback_of
        (run scheduler case position task adapter fallback_adapter)
unfolding run store_admission ◌>>◌
run-Emits scheduler case position task adapter fallback_adapter =
    bind-Emits effect_kind false _ _ (lift-Emits effect_kind _) λ u.
      bind-Emits effect_kind false _ _ (lift-Emits effect_kind _) λ context.
        bind-Emits effect_kind false _ _ (write-Emits effect_kind _ _ refl) λ u.
          bind-Emits effect_kind false _ _ (lift-Emits effect_kind _) λ tools.
            bind-Emits effect_kind false _ _ (lift-Emits effect_kind _) λ hash.
              perform-Emits scheduler.services scheduler.registry case position task adapter
                fallback_adapter context hash tools
