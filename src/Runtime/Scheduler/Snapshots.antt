-- ===== src/Runtime/Scheduler/Snapshots.antt =====
-- The snapshots that `TrustedScheduler.run` of scheduler.py appends, under the rules on the snapshots
-- of a run in run.py.
use human_cos_fft1_trial.Prelude.{
  nat_eq, string_eq, bool_eq, option_eq, list_eq, pair_eq, !=_false_iff, >>=-eq-returned, Option,
  String, ap, inl, inr, none, raise_if, raise_if-eq-returned, refl, returned, returned-injective,
  some, sym, ℕ, ◌!=◌, ◌↔◌, ◌∙◌, ◌≡◌, ◌≢◌, ◌⊎◌,
}
use human_cos_fft1_trial.Core.Contracts.{Case, ContextManifest}
use human_cos_fft1_trial.Models.Fallback.{
  InvocationOutcome, ModelAdapter, ModelRequest, ModelResponse, invoke_checked,
}
use human_cos_fft1_trial.Models.Fallback.Provenance.{invoke_iff}
use human_cos_fft1_trial.Models.Profile.{identity_eq, Profiles, assert_identity}
use human_cos_fft1_trial.Models.Qualification.{EligibilityRequirement}
use human_cos_fft1_trial.Runtime.Run.{
  status_eq, independence_eq, RunManifest, identity, validate_run_snapshot_transition,
}
use human_cos_fft1_trial.Runtime.Run.Lifecycle.{
  Follows, IdentityStep, SameStable, StatusStep, validate_iff,
}
use human_cos_fft1_trial.Runtime.Scheduler.{WorkerTask}
use human_cos_fft1_trial.Runtime.Scheduler.Checks.{invoke_model}
use human_cos_fft1_trial.Runtime.Scheduler.Manifests.{
  created_manifest, frozen_manifest_of, running_manifest,
}
use human_cos_fft1_trial.Runtime.States.{mode_eq, state_eq}
use human_cos_fft1_trial.Runtime.Transition.{CaseRuntimePosition}

-- A checked response has the identity of its adapter.
itself_of :
    (adapter : ModelAdapter) (registry : Profiles) (request : ModelRequest)
    {response : ModelResponse}
    → invoke_checked adapter request registry ≡ returned response
    → response.identity ≡ adapter.identity
unfolding invoke_checked
itself_of adapter registry request h =
    let (r, got, rest) = >>=-eq-returned (adapter.invoke request) _ h in
    let (u, checked, after) =
      >>=-eq-returned (raise_if (r.identity != adapter.identity) _) _ rest in
    let (p, again, end) = >>=-eq-returned (assert_identity registry r.identity) _ after in
    ap (λ x. x.identity) (sym (returned-injective end))
    ∙ (!=_false_iff _ _).0 (raise_if-eq-returned _ _ checked)

module _ (case : Case) (position : CaseRuntimePosition) (task : WorkerTask) (adapter : ModelAdapter)
    (manifest : ContextManifest) (hash : String) (now : ℕ) where
  abbrev pub first_snapshot : RunManifest
  first_snapshot = created_manifest case position task adapter manifest hash

  abbrev pub second_snapshot : RunManifest
  second_snapshot = running_manifest first_snapshot now

  abbrev pub third_snapshot : InvocationOutcome → String → String → String → ℕ → RunManifest
  third_snapshot = frozen_manifest_of second_snapshot

  stable : SameStable first_snapshot second_snapshot
  stable = record {
    case_id = refl;
    stage = refl;
    role_type = refl;
    protocol_version = refl;
    context_manifest_hash = refl;
    prompt_version = refl;
    tool_permissions = refl;
    parent_run_id = refl;
    independence = refl;
  }

  running-Follows : Follows first_snapshot second_snapshot
  running-Follows = record {
    same_run = refl;
    lifecycle = StatusStep.start;
    stable = stable;
    identified = inl (refl, refl);
    kept = record {
      raw_output_ref = inl refl;
      raw_output_hash = inl refl;
      structured_output_hash = inl refl;
      started_at = inl refl;
      finished_at = inl refl;
    };
  }

  module _ (outcome : InvocationOutcome) (ref output_hash structured_hash : String)
      (finished : ℕ) where
    abbrev frozen : RunManifest
    frozen = third_snapshot outcome ref output_hash structured_hash finished

    frozen-Follows : IdentityStep second_snapshot frozen → Follows second_snapshot frozen
    frozen-Follows step = record {
      same_run = refl;
      lifecycle = StatusStep.freeze;
      stable = record {
        case_id = refl;
        stage = refl;
        role_type = refl;
        protocol_version = refl;
        context_manifest_hash = refl;
        prompt_version = refl;
        tool_permissions = refl;
        parent_run_id = refl;
        independence = refl;
      };
      identified = step;
      kept = record {
        raw_output_ref = inl refl;
        raw_output_hash = inl refl;
        structured_output_hash = inl refl;
        started_at = inr refl;
        finished_at = inl refl;
      };
    }

    -- The response comes from the primary, or from the fallback and then names the primary.
    abbrev Answered : Type 0
    Answered =
        (outcome.response.identity ≡ adapter.identity) × (outcome.fallback_from ≡ none)
        ⊎ (outcome.fallback_from ≡ some adapter.identity.model_id)

    step_of :
        Answered
        → (outcome.fallback_from ≡ none) ⊎ (identity frozen ≢ identity second_snapshot)
        → IdentityStep second_snapshot frozen
    step_of (inl (itself, named)) way =
        inl (ap (λ i. (i.model_id, (i.model_family, i.provider))) itself, named)
    step_of (inr named) (inl unnamed) = absurd (cc)
    step_of (inr named) (inr differs) = inr (differs, named, inl refl)

    way_of :
        IdentityStep second_snapshot frozen
        → (outcome.fallback_from ≡ none) ⊎ (identity frozen ≢ identity second_snapshot)
    way_of (inl (_, named)) = inl named
    way_of (inr (differs, _, _)) = inr differs

    answered_of :
        (registry : Profiles) (requirement : EligibilityRequirement) (request : ModelRequest)
        (fallback_adapter : Option ModelAdapter)
        → invoke_model registry requirement request adapter fallback_adapter ≡ returned outcome
        → Answered
    unfolding invoke_model
    answered_of registry requirement request none h =
        let (response, answer, end) =
          >>=-eq-returned (invoke_checked adapter request registry) _ h in
        let given = returned-injective end in
        inl (
          ap (λ o. o.response.identity) (sym given) ∙ itself_of adapter registry request answer,
          ap (λ o. o.fallback_from) (sym given),
        )
    answered_of registry requirement request (some other) h =
        let (_, way) = (invoke_iff registry requirement request adapter other outcome).0 h in
        elim way [
          | inl ((_, itself), named, _) ↦ inl (itself, named)
          | inr (_, _, _, _, _, named, _) ↦ inr named
        ]

    -- The running snapshot is always accepted behind the created one. When the model has answered, the
    -- frozen snapshot is accepted behind the running one exactly when no fallback answered or the
    -- model that answered has another identity than the primary.
    pub snapshots_iff :
        (registry : Profiles) (requirement : EligibilityRequirement) (request : ModelRequest)
        (fallback_adapter : Option ModelAdapter)
        → invoke_model registry requirement request adapter fallback_adapter ≡ returned outcome
        → (validate_run_snapshot_transition first_snapshot second_snapshot ≡ returned tt)
          × ((validate_run_snapshot_transition second_snapshot frozen ≡ returned tt)
              ↔ (outcome.fallback_from ≡ none) ⊎ (identity frozen ≢ identity second_snapshot))
    snapshots_iff registry requirement request fallback_adapter h =
        let accepts = validate_iff second_snapshot frozen in
        let answered = answered_of registry requirement request fallback_adapter h in
        (
          (validate_iff first_snapshot second_snapshot).1 running-Follows,
          (
            λ v. way_of (accepts.0 v).identified,
            λ way. accepts.1 (frozen-Follows (step_of answered way)),
          ),
        )
