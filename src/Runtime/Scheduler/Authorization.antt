-- ===== src/Runtime/Scheduler/Authorization.antt =====
-- What `TrustedScheduler.run` of scheduler.py lets through before it stores or asks for anything.
use human_cos_fft1_trial.Prelude.{
  nat_eq, string_eq, bool_eq, option_eq, list_eq, pair_eq, !=_false_iff, >>=-eq-returned, >>_iff,
  Option, Outcome, [], both_iff, raised, raised_ne_returned, raises_iff, refl, returned, wrap,
  ◌>>=◌, ◌↔◌, ◌≡◌,
}
use human_cos_fft1_trial.Core.Contracts.{Case}
use human_cos_fft1_trial.Models.Fallback.{ModelAdapter}
use human_cos_fft1_trial.Models.Profile.{
  identity_eq, ModelError, ModelIdentity, ModelProfile, Profiles, assert_identity,
}
use human_cos_fft1_trial.Runtime.Scheduler.{SchedulerFailure, WorkerTask, model_failure}
use human_cos_fft1_trial.Runtime.Scheduler.Checks.{
  authorize, authorize_identity, authorize_position, authorize_role,
}
use human_cos_fft1_trial.Runtime.Scheduler.Requirements.{
  FallbackHas, MayServe, RoleFits, by_duty_iff, by_role_iff, disclosure_iff, for_fallback_iff,
}
use human_cos_fft1_trial.Runtime.States.{mode_eq, state_eq, state_value}
use human_cos_fft1_trial.Runtime.Transition.{CaseRuntimePosition}

abbrev pub Known : Profiles → ModelIdentity → Type 0
Known registry identity =
    (profile : ModelProfile) × (assert_identity registry identity ≡ returned profile)

pub record Authorized (registry : Profiles) (case : Case) (position : CaseRuntimePosition)
    (task : WorkerTask) (adapter : ModelAdapter) (fallback_adapter : Option ModelAdapter)
    : Type 0 where
  pub same_mode : case.case_mode ≡ position.mode
  pub same_revision : case.revision ≡ position.case_revision
  pub isolated : task.prior_run_ids ≡ []
  pub role_fits : RoleFits position.state task.requirement
  pub known :
      (profile : ModelProfile) × (assert_identity registry adapter.identity ≡ returned profile)
      × (profile.model_id ≡ task.model_id)
  pub fallback_known : FallbackHas (λ other. Known registry other.identity) fallback_adapter
  pub eligible : MayServe registry task.model_id task.requirement
  pub fallback_eligible :
      FallbackHas
        (λ other. MayServe registry other.identity.model_id task.requirement)
        fallback_adapter

of_wrapped :
    {A B : Type 0} (m : Outcome ModelError A) {k : A → Outcome SchedulerFailure B} {b : B}
    → (wrap model_failure m >>= k) ≡ returned b
    → (a : A) × (m ≡ returned a) × (k a ≡ returned b)
of_wrapped (returned a) h = (a, refl, h)
of_wrapped (raised e) h = absurd (raised_ne_returned h)

RoleFits-iff :
    (registry : Profiles) (position : CaseRuntimePosition) (task : WorkerTask)
    (fallback_adapter : Option ModelAdapter)
    → (authorize_role position.state task.requirement ≡ returned tt)
      ↔ RoleFits position.state task.requirement
RoleFits-iff registry position task fallback_adapter =
    by_role_iff position.state task.requirement.role task.requirement.domain
      task.requirement.task_type

-- The checks before the context is built pass exactly when the case is the position's, no prior run
-- is disclosed, the role fits the state, both adapters are registered, the first as the task's model,
-- and both models are eligible for the task.
pub authorize_iff :
    (registry : Profiles) (case : Case) (position : CaseRuntimePosition) (task : WorkerTask)
    (adapter : ModelAdapter) (fallback_adapter : Option ModelAdapter)
    → (authorize registry case position task adapter fallback_adapter ≡ returned tt)
      ↔ Authorized registry case position task adapter fallback_adapter
unfolding authorize authorize_position authorize_identity
authorize_iff registry case position task adapter fallback_adapter =
    let mode = raises_iff _ (!=_false_iff case.case_mode position.mode) in
    let revision = raises_iff _ (!=_false_iff case.revision position.case_revision) in
    let isolated = disclosure_iff (state_value position.state) task.prior_run_ids in
    let fits = RoleFits-iff registry position task fallback_adapter in
    let place = both_iff mode (both_iff revision (both_iff isolated fits)) in
    let others =
      for_fallback_iff fallback_adapter (λ other. assert_identity registry other.identity) in
    let serves = λ (f : RoleFits position.state task.requirement).
      by_duty_iff registry task.model_id fallback_adapter position.state task.requirement.role
        task.requirement.domain task.requirement.task_type f in
    (
      λ h.
          let (u, placed, rest) = >>=-eq-returned (authorize_position case position task) _ h in
          let (v, named, entitled) =
            >>=-eq-returned (authorize_identity registry task adapter fallback_adapter) _ rest in
          let (m, (r, (i, f))) = place.0 placed in
          let (profile, found, checks) =
            of_wrapped (assert_identity registry adapter.identity) named in
          let both = both_iff (raises_iff _ (!=_false_iff profile.model_id task.model_id)) others in
          let (e, o) = (serves f).0 entitled in
          record {
            same_mode = m;
            same_revision = r;
            isolated = i;
            role_fits = f;
            known = (profile, found, (both.0 checks).0);
            fallback_known = (both.0 checks).1;
            eligible = e;
            fallback_eligible = o;
          },
      λ a.
          let placed = place.1 (a.same_mode, (a.same_revision, (a.isolated, a.role_fits))) in
          let (profile, found, same) = a.known in
          let both = both_iff (raises_iff _ (!=_false_iff profile.model_id task.model_id)) others in
          let named = both.1 (same, a.fallback_known) in
          let entitled = (serves a.role_fits).1 (a.eligible, a.fallback_eligible) in
          (>>_iff (authorize_position case position task) _).1 (
            placed,
            (>>_iff (authorize_identity registry task adapter fallback_adapter) _).1
                (rw found named, entitled),
          ),
    )
