-- ===== src/Runtime/Scheduler/Completion.antt =====
-- What holds when `TrustedScheduler.run` of scheduler.py returns a result.
use human_cos_fft1_trial.Prelude.{
  nat_eq, string_eq, bool_eq, option_eq, list_eq, pair_eq, !=_false_iff, >>=-eq-returned, Bool,
  List, Option, Outcome, String, [], ap, arith, false, ltb, map, raise_if, raise_if-eq-returned,
  returned, returned-injective, subst, sym, wrap, wrap-eq-returned, ℕ, ◌!=◌, ◌==◌, ◌||◌, ◌∙◌, ◌∷◌,
  ◌≡◌,
}
use human_cos_fft1_trial.Core.Context.{ContextBuildResult, EvidenceAdmissionRecord, build_context}
use human_cos_fft1_trial.Core.Contracts.{temporal_eq, Case, Evidence}
use human_cos_fft1_trial.Models.Fallback.{InvocationOutcome, ModelAdapter, ModelRequest}
use human_cos_fft1_trial.Models.Profile.{identity_eq}
use human_cos_fft1_trial.Runtime.Journal.{ask, bind-eq-returned, lift, ◌>>◌}
use human_cos_fft1_trial.Runtime.Run.{independence_eq, RunManifest, RunStatus}
use human_cos_fft1_trial.Runtime.Scheduler.{
  Effects, ScheduledRunResult, SchedulerServices, TrustedScheduler, WorkerTask, context_failure,
  model_failure, repository_failure, tool_failure,
}
use human_cos_fft1_trial.Runtime.Scheduler.Authorization.{Authorized, authorize_iff}
use human_cos_fft1_trial.Runtime.Scheduler.Checks.{
  context_request, evidence_payloads, invoke_model, model_request,
}
use human_cos_fft1_trial.Runtime.Scheduler.Manifests.{created_manifest, running_manifest}
use human_cos_fft1_trial.Runtime.Scheduler.Run.{close_run, perform, prompt_of, read_payloads, run}
use human_cos_fft1_trial.Runtime.States.{mode_eq, state_eq}
use human_cos_fft1_trial.Runtime.ToolPolicy.{class_eq, ToolCapability, authorize_context}
use human_cos_fft1_trial.Runtime.Transition.{CaseRuntimePosition}

second_false : (a b : Bool) → (a || b) ≡ false → b ≡ false
second_false a b h = ground arith

ap2_cons : {A : Type 0} {x y : A} {xs ys : List A} → x ≡ y → xs ≡ ys → (x ∷ xs) ≡ (y ∷ ys)
ap2_cons e f = cc

-- Each evidence that is read has the hash and the revision that were admitted.
evidence_payloads-hashes :
    (get_evidence : String → ℕ → Outcome String (Evidence × ℕ))
    (admitted : List EvidenceAdmissionRecord) {payloads : List Evidence}
    → evidence_payloads get_evidence admitted ≡ returned payloads
    → map (λ e. e.snapshot_hash) payloads ≡ map (λ a. a.snapshot_hash) admitted
unfolding evidence_payloads
evidence_payloads-hashes get_evidence [] h =
    ap (map (λ e. e.snapshot_hash)) (sym (returned-injective h))
evidence_payloads-hashes get_evidence (a ∷ admitted) h =
    let (found, got, rest) =
      >>=-eq-returned (wrap repository_failure (get_evidence a.evidence_id a.revision)) _ h in
    let (u, checked, after) =
      >>=-eq-returned
        (raise_if (found.1 != a.revision || found.0.snapshot_hash != a.snapshot_hash) _) _ rest in
    let (others, later, end) = >>=-eq-returned (evidence_payloads get_evidence admitted) _ after in
    let same : found.0.snapshot_hash ≡ a.snapshot_hash =
      (!=_false_iff _ _).0
        (second_false (found.1 != a.revision) _ (raise_if-eq-returned _ _ checked)) in
    ap (map (λ e. e.snapshot_hash)) (sym (returned-injective end))
    ∙ ap2_cons same (evidence_payloads-hashes get_evidence admitted later)

pub record Completed (scheduler : TrustedScheduler) (case : Case) (position : CaseRuntimePosition)
    (task : WorkerTask) (adapter : ModelAdapter) (fallback_adapter : Option ModelAdapter)
    (result : ScheduledRunResult) : Type 0 where
  pub payloads : List Evidence
  pub outcome : InvocationOutcome
  pub may_start : Authorized scheduler.registry case position task adapter fallback_adapter
  pub built :
      build_context scheduler.services.context case (context_request position task)
      ≡ returned result.context
  pub tools_allowed :
      authorize_context scheduler.tool_policy result.context.manifest.tool_permissions
        result.context.manifest.forbidden_scopes
      ≡ returned result.authorized_tools
  pub bound_evidence :
      map (λ e. e.snapshot_hash) payloads
      ≡ map (λ a. a.snapshot_hash) result.context.admission.payload.evidence
  pub answered :
      invoke_model scheduler.registry task.requirement
        (record {
          input_text = prompt_of scheduler.services task payloads;
          max_output_tokens = task.max_output_tokens;
        })
        adapter
        fallback_adapter
      ≡ returned outcome
  pub response : result.response ≡ outcome.response
  pub final_status : result.frozen_manifest.status ≡ RunStatus.frozen
  pub final_model : result.frozen_manifest.model_id ≡ outcome.response.identity.model_id
  pub final_origin : result.frozen_manifest.fallback_from ≡ outcome.fallback_from

request_of :
    (input_text : String) (max_output_tokens : ℕ) {request : ModelRequest}
    → model_request input_text max_output_tokens ≡ returned request
    → record { input_text = input_text; max_output_tokens = max_output_tokens } ≡ request
unfolding model_request
request_of input_text max_output_tokens h =
    let (u, _, rest) = >>=-eq-returned (raise_if (input_text == "") _) _ h in
    let (v, _, end) = >>=-eq-returned (raise_if (ltb max_output_tokens 1) _) _ rest in
    returned-injective end

module _ (services : SchedulerServices) (case : Case) (position : CaseRuntimePosition)
    (task : WorkerTask) (context : ContextBuildResult) (tools : List ToolCapability) where
  -- What the result of a closed run says.
  pub record Closed (outcome : InvocationOutcome) (result : ScheduledRunResult) : Type 0 where
    pub response : result.response ≡ outcome.response
    pub same_context : result.context ≡ context
    pub same_tools : result.authorized_tools ≡ tools
    pub final_status : result.frozen_manifest.status ≡ RunStatus.frozen
    pub final_model : result.frozen_manifest.model_id ≡ outcome.response.identity.model_id
    pub final_origin : result.frozen_manifest.fallback_from ≡ outcome.fallback_from

  pub close_run-Closed :
      (snapshot : RunManifest) (outcome : InvocationOutcome) (effects : Effects)
      {result : ScheduledRunResult}
      → (close_run services case position task context tools snapshot outcome effects).0
        ≡ returned result
      → Closed outcome result
  unfolding close_run lift ◌>>◌
  close_run-Closed snapshot outcome effects h =
      let (output_hash, _, h₁) = bind-eq-returned _ _ _ h in
      let (finished, _, h₂) = bind-eq-returned _ _ _ h₁ in
      let (u, _, h₃) = bind-eq-returned _ _ _ h₂ in
      let (v, _, h₄) = bind-eq-returned _ _ _ h₃ in
      let (now, _, h₅) = bind-eq-returned _ _ _ h₄ in
      let (w, _, end) = bind-eq-returned _ _ _ h₅ in
      let e = sym (returned-injective end) in
      record {
        response = ap (λ r. r.response) e;
        same_context = ap (λ r. r.context) e;
        same_tools = ap (λ r. r.authorized_tools) e;
        final_status = ap (λ r. r.frozen_manifest.status) e;
        final_model = ap (λ r. r.frozen_manifest.model_id) e;
        final_origin = ap (λ r. r.frozen_manifest.fallback_from) e;
      }

module _ (scheduler : TrustedScheduler) (case : Case) (position : CaseRuntimePosition)
    (task : WorkerTask) (adapter : ModelAdapter) (fallback_adapter : Option ModelAdapter) where
  abbrev services : SchedulerServices
  services = scheduler.services

  -- What a run from a context that was built says when it returns.
  record Performed (context : ContextBuildResult) (tools : List ToolCapability)
      (result : ScheduledRunResult) : Type 0 where
    pub payloads : List Evidence
    pub outcome : InvocationOutcome
    pub bound_evidence :
        map (λ e. e.snapshot_hash) payloads
        ≡ map (λ a. a.snapshot_hash) context.admission.payload.evidence
    pub answered :
        invoke_model scheduler.registry task.requirement
          (record {
            input_text = prompt_of services task payloads;
            max_output_tokens = task.max_output_tokens;
          })
          adapter
          fallback_adapter
        ≡ returned outcome
    pub closed : Closed services case position task context tools outcome result

  perform-Performed :
      (context : ContextBuildResult) (hash : String) (tools : List ToolCapability)
      (effects : Effects) {result : ScheduledRunResult}
      → (perform services scheduler.registry case position task adapter fallback_adapter context
          hash tools effects).0
        ≡ returned result
      → Performed context tools result
  unfolding perform lift ask read_payloads ◌>>◌
  perform-Performed context hash tools effects h =
      let (now, _, h₀) = bind-eq-returned _ _ _ h in
      let (c, _, h₁) = bind-eq-returned _ _ _ h₀ in
      let (u, _, h₂) = bind-eq-returned _ _ _ h₁ in
      let (v, _, h₃) = bind-eq-returned _ _ _ h₂ in
      let (payloads, found, h₄) = bind-eq-returned _ _ _ h₃ in
      let (request, asked, h₅) = bind-eq-returned _ _ _ h₄ in
      let (w, _, h₆) = bind-eq-returned _ _ _ h₅ in
      let (outcome, answer, end) = bind-eq-returned _ _ _ h₆ in
      let same = request_of _ _ (wrap-eq-returned model_failure _ asked) in
      record {
        payloads = payloads;
        outcome = outcome;
        bound_evidence = evidence_payloads-hashes _ _ found;
        answered =
            subst
              (λ r.
                invoke_model scheduler.registry task.requirement r adapter fallback_adapter
                ≡ returned outcome)
              (sym same) (wrap-eq-returned model_failure _ answer);
        closed =
            close_run-Closed services case position task context tools
              (running_manifest (created_manifest case position task adapter context.manifest hash)
                now)
              outcome _ end;
      }

  -- A run that returns was authorized, built its context from the task, had all of its tools allowed,
  -- read evidence with the admitted hashes, and got its response from the call of the model on the
  -- prompt of that evidence; its manifest is frozen and names the model that answered and the one
  -- that was replaced.
  pub run-Completed :
      (effects : Effects) {result : ScheduledRunResult}
      → (run scheduler case position task adapter fallback_adapter effects).0 ≡ returned result
      → Completed scheduler case position task adapter fallback_adapter result
  unfolding run lift ◌>>◌
  run-Completed effects {result} h =
      let (u, permit, h₁) = bind-eq-returned _ _ _ h in
      let (context, built, h₂) = bind-eq-returned _ _ _ h₁ in
      let (v, _, h₃) = bind-eq-returned _ _ _ h₂ in
      let (tools, permitted, h₄) = bind-eq-returned _ _ _ h₃ in
      let (hash, _, end) = bind-eq-returned _ _ _ h₄ in
      let p = perform-Performed context hash tools _ end in
      let c = p.closed in
      record {
        payloads = p.payloads;
        outcome = p.outcome;
        may_start =
            (authorize_iff scheduler.registry case position task adapter fallback_adapter).0 permit;
        built = wrap-eq-returned context_failure _ built ∙ ap returned (sym c.same_context);
        tools_allowed =
            rw (c.same_context, c.same_tools) (wrap-eq-returned tool_failure _ permitted);
        bound_evidence =
            subst
              (λ k.
                map (λ e. e.snapshot_hash) p.payloads
                ≡ map (λ a. a.snapshot_hash) k.admission.payload.evidence)
              (sym c.same_context) p.bound_evidence;
        answered = p.answered;
        response = c.response;
        final_status = c.final_status;
        final_model = c.final_model;
        final_origin = c.final_origin;
      }
