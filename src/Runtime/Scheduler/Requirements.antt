-- ===== src/Runtime/Scheduler/Requirements.antt =====
-- The role and the qualification that scheduler.py asks of a task and of its adapters.
use human_cos_fft1_trial.Prelude.{
  nat_eq, string_eq, bool_eq, option_eq, list_eq, pair_eq, !=_false_iff, Bool-cases, List, Option,
  Outcome, String, [], arith, both_iff, contains, false, inl, inr, is_some, none, raised,
  raised_ne_returned, raises_iff, refl, returned, some, sym, wrap, ◌>>=◌, ◌||◌, ◌↔◌, ◌∙◌, ◌∷◌, ◌≡◌,
  ◌⊎◌,
}
use human_cos_fft1_trial.Models.Fallback.{ModelAdapter}
use human_cos_fft1_trial.Models.Profile.{
  task_eq, identity_eq, DomainTaskType, ModelError, ModelProfile, Profiles,
}
use human_cos_fft1_trial.Models.Qualification.{
  EligibilityRequirement, RestrictedRole, assert_domain_eligible, assert_requirement,
  challenger_role, domain_worker_role, evaluator_role, meta_controller_role,
}
use human_cos_fft1_trial.Models.Qualification.Eligibility.{Eligible, assert_requirement_iff}
use human_cos_fft1_trial.Runtime.Scheduler.{model_failure}
use human_cos_fft1_trial.Runtime.Scheduler.Checks.{
  assert_controller_eligible, assert_worker_disclosure, authorize_qualification, authorize_role,
  for_fallback, independent_stages,
}
use human_cos_fft1_trial.Runtime.States.{
  state_eq, RuntimeState, domain_independent_run, framing_independent,
}

abbrev pub FallbackHas : (ModelAdapter → Type 0) → Option ModelAdapter → Type 0
FallbackHas P none = Unit
FallbackHas P (some adapter) = P adapter

-- A domain worker runs in the independent domain stage; the controller, which has no domain task, in
-- the independent framing.
abbrev pub RoleFits : RuntimeState → EligibilityRequirement → Type 0
RoleFits state requirement =
    (requirement.role ≡ domain_worker_role) × (state ≡ domain_independent_run)
    ⊎ (requirement.role ≡ meta_controller_role)
      × (state ≡ framing_independent)
      × (requirement.domain ≡ none)
      × (requirement.task_type ≡ none)

abbrev pub MayServe : Profiles → String → EligibilityRequirement → Type 0
MayServe registry model_id requirement =
    (profile : ModelProfile) × Eligible registry model_id requirement profile

pub passes_iff :
    {E F A P : Type 0} (f : F → E) (m : Outcome F A) (k : Outcome E (Unit {0}))
    → (k ≡ returned tt) ↔ P
    → ((wrap f m >>= λ _. k) ≡ returned tt) ↔ ((a : A) × (m ≡ returned a)) × P
passes_iff f (returned a) k e = (λ h. ((a, refl), e.0 h), λ h. e.1 h.1)
passes_iff f (raised error) k e =
    (λ h. absurd (raised_ne_returned h), λ h. absurd (raised_ne_returned h.0.1))

pub for_fallback_iff :
    (fallback_adapter : Option ModelAdapter)
    (check : ModelAdapter → Outcome ModelError ModelProfile)
    → (for_fallback fallback_adapter check ≡ returned tt)
      ↔ FallbackHas
          (λ other. (profile : ModelProfile) × (check other ≡ returned profile))
          fallback_adapter
for_fallback_iff none check = (λ h. tt, λ h. refl)
for_fallback_iff (some other) check =
    let e = passes_iff {P = Unit} model_failure (check other) (returned tt) (λ h. tt, λ h. refl) in
    (λ h. (e.0 h).0, λ p. e.1 (p, tt))

FallbackHas-map :
    {P Q : ModelAdapter → Type 0} (fallback_adapter : Option ModelAdapter)
    → ((other : ModelAdapter) → P other → Q other)
    → FallbackHas P fallback_adapter
    → FallbackHas Q fallback_adapter
FallbackHas-map none f h = tt
FallbackHas-map (some other) f h = f other h

pub disclosure_iff :
    (stage : String) (prior_run_ids : List String)
    → (assert_worker_disclosure stage prior_run_ids ≡ returned tt) ↔ (prior_run_ids ≡ [])
unfolding assert_worker_disclosure
disclosure_iff stage [] = (λ h. refl, λ h. ground arith)
disclosure_iff stage (x ∷ xs) = elim (Bool-cases (contains stage independent_stages)) [
  | inl e ↦ (λ h. absurd (raised_ne_returned (rw e at h)), λ h. cc)
  | inr e ↦ (λ h. absurd (raised_ne_returned (rw e at h)), λ h. cc)
]

abbrev pub requirement_of :
    RestrictedRole → Option String → Option DomainTaskType → EligibilityRequirement
requirement_of duty domain task_type = record {
  role = duty;
  domain = domain;
  task_type = task_type;
}

unset_iff :
    {A B : Type 0} (x : Option A) (y : Option B)
    → ((is_some x || is_some y) ≡ false) ↔ (x ≡ none) × (y ≡ none)
unset_iff none none = (λ h. (refl, refl), λ h. refl)
unset_iff none (some b) = (λ h. cc, λ h. cc)
unset_iff (some a) y = (λ h. cc, λ h. cc)

pub by_role_iff :
    (state : RuntimeState) (duty : RestrictedRole) (domain : Option String)
    (task_type : Option DomainTaskType)
    → (authorize_role state (requirement_of duty domain task_type) ≡ returned tt)
      ↔ RoleFits state (requirement_of duty domain task_type)
unfolding authorize_role
by_role_iff state domain_worker_role domain task_type =
    let e = raises_iff _ (!=_false_iff state domain_independent_run) in
    (λ h. inl (refl, e.0 h), λ fits. elim fits [ inl (_, s) ↦ e.1 s | inr (r, _, _, _) ↦ cc ])
by_role_iff state meta_controller_role domain task_type =
    let e =
      both_iff (raises_iff _ (!=_false_iff state framing_independent))
        (raises_iff _ (unset_iff domain task_type)) in
    (
      λ h. inr (refl, (e.0 h).0, (e.0 h).1.0, (e.0 h).1.1),
      λ fits. elim fits [ inl (r, _) ↦ cc | inr (_, s, d, t) ↦ e.1 (s, (d, t)) ],
    )
by_role_iff state challenger_role domain task_type = (
  λ h. absurd (raised_ne_returned h),
  λ fits. elim fits [ inl (r, _) ↦ cc | inr (r, _, _, _) ↦ cc ],
)
by_role_iff state evaluator_role domain task_type = (
  λ h. absurd (raised_ne_returned h),
  λ fits. elim fits [ inl (r, _) ↦ cc | inr (r, _, _, _) ↦ cc ],
)

module _ (registry : Profiles) (model_id : String) (fallback_adapter : Option ModelAdapter) where
  -- The two eligibility checks, as one check of the requirement on each adapter's model.
  abbrev pub Serves : EligibilityRequirement → Type 0
  Serves requirement =
      MayServe registry model_id requirement
      × FallbackHas (λ other. MayServe registry other.identity.model_id requirement)
          fallback_adapter

  Serves-iff :
      (requirement : EligibilityRequirement) (check : String → Outcome ModelError ModelProfile)
      → ((id : String) → check id ≡ assert_requirement registry id requirement)
      → ((wrap model_failure (check model_id) >>= λ _.
            for_fallback fallback_adapter (λ other. check other.identity.model_id))
          ≡ returned tt)
        ↔ Serves requirement
  Serves-iff requirement check same =
      let e =
        passes_iff model_failure (check model_id) _
          (for_fallback_iff fallback_adapter (λ other. check other.identity.model_id)) in
      let eligible = λ (id : String) (profile : ModelProfile).
        assert_requirement_iff registry id profile requirement in
      (
        λ h.
            let ((profile, found), others) = e.0 h in
            (
              (profile, (eligible model_id profile).0 (sym (same model_id) ∙ found)),
              FallbackHas-map fallback_adapter
                  (λ other (p, f). (p, (eligible _ p).0 (sym (same _) ∙ f))) others,
            ),
        λ ((profile, fits), others). e.1 (
          (profile, same model_id ∙ (eligible model_id profile).1 fits),
          FallbackHas-map fallback_adapter (λ other (p, f). (p, same _ ∙ (eligible _ p).1 f))
              others,
        ),
      )

  no_task :
      (requirement : EligibilityRequirement)
      → ((id : String)
          → assert_requirement registry id requirement
            ≡ raised
                (ModelError.value_error "domain_worker requirement needs domain and task_type"))
      → ¬ Serves requirement
  no_task requirement refuses ((profile, fits), _) = raised_ne_returned (
      sym (refuses model_id)
      ∙ (assert_requirement_iff registry model_id profile requirement).1 fits)

  pub by_duty_iff :
      (state : RuntimeState) (duty : RestrictedRole) (domain : Option String)
      (task_type : Option DomainTaskType)
      → RoleFits state (requirement_of duty domain task_type)
      → (authorize_qualification registry model_id
            (requirement_of duty domain task_type)
            fallback_adapter
          ≡ returned tt)
        ↔ Serves (requirement_of duty domain task_type)
  unfolding authorize_qualification assert_requirement
  by_duty_iff state domain_worker_role (some domain) (some task_type) fits =
      Serves-iff (requirement_of domain_worker_role (some domain) (some task_type))
        (λ id. assert_domain_eligible registry id domain task_type) (λ id. refl)
  by_duty_iff state domain_worker_role none task_type fits = (
    λ h. absurd (raised_ne_returned h),
    λ s. absurd (no_task (requirement_of domain_worker_role none task_type) (λ id. refl) s),
  )
  by_duty_iff state domain_worker_role (some domain) none fits = (
    λ h. absurd (raised_ne_returned h),
    λ s. absurd (no_task (requirement_of domain_worker_role (some domain) none) (λ id. refl) s),
  )
  by_duty_iff state meta_controller_role domain task_type fits =
      Serves-iff (requirement_of meta_controller_role domain task_type)
        (assert_controller_eligible registry) (λ id. refl)
  by_duty_iff state challenger_role domain task_type (inl (r, _)) = absurd (cc)
  by_duty_iff state challenger_role domain task_type (inr (r, _, _, _)) = absurd (cc)
  by_duty_iff state evaluator_role domain task_type (inl (r, _)) = absurd (cc)
  by_duty_iff state evaluator_role domain task_type (inr (r, _, _, _)) = absurd (cc)
