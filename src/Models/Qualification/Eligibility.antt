-- ===== src/Models/Qualification/Eligibility.antt =====
-- Which models the gate of qualification.py lets into a restricted role.
use human_cos_fft1_trial.Prelude.{
  nat_eq, string_eq, bool_eq, option_eq, list_eq, pair_eq, !=_false_iff, >>=-eq-returned, List,
  Memᴰ, Option-cases, Outcome, String, [], ap, arith, contains, contains_iff, false, inl, inr,
  is_some, lookup, not, raise_if, raise_if-eq-returned, raised_ne_returned, refl, returned,
  returned-injective, some, subst, sym, true, ◌!=◌, ◌>>=◌, ◌>>◌, ◌↔◌, ◌∙◌, ◌∷◌, ◌≡◌,
}
use human_cos_fft1_trial.Models.Profile.{
  task_eq, status_eq, DomainCapability, DomainTaskType, ModelError, ModelProfile, Profiles,
  capability_gap_error, eligibility_error, get, qualified,
}
use human_cos_fft1_trial.Models.Profile.Identity.{get_iff}
use human_cos_fft1_trial.Models.Qualification.{
  EligibilityDecision, EligibilityRequirement, RestrictedRole, assert_domain_eligible,
  assert_domain_requirement, assert_eligible, assert_requirement, capability_gap,
  capability_verdict, challenger_decision, challenger_role, challenger_verdict, controller_decision,
  controller_verdict, domain_decision, domain_verdict, domain_worker_role, evaluator_decision,
  evaluator_role, evaluator_verdict, matching_domain_capabilities, meta_controller_role,
}
use human_cos_fft1_trial.Runtime.Journal.{only}

-- What a role asks of the profile of a qualified model.
abbrev pub MayTake : ModelProfile → EligibilityRequirement → RestrictedRole → Type 0
MayTake profile requirement meta_controller_role =
    (profile.role_eligibility.meta_controller ≡ true)
    × (is_some profile.controller_qualification ≡ true)
MayTake profile requirement challenger_role = profile.role_eligibility.challenger ≡ true
MayTake profile requirement evaluator_role = profile.role_eligibility.evaluator ≡ true
MayTake profile requirement domain_worker_role =
    (domain : String) × (task_type : DomainTaskType) × (requirement.domain ≡ some domain)
    × (requirement.task_type ≡ some task_type)
    × Memᴰ domain profile.role_eligibility.domain_worker
    × ((capability : DomainCapability) × (matching_domain_capabilities profile domain task_type
          ≡ capability ∷ [])
        × (capability.eligibility ≡ qualified))

-- The registered profile of the model is qualified and may take the required role.
abbrev pub Eligible : Profiles → String → EligibilityRequirement → ModelProfile → Type 0
Eligible registry model_id requirement profile =
    (lookup model_id registry ≡ some profile)
    × (profile.status ≡ qualified)
    × MayTake profile requirement requirement.role

-- A decision that is asserted, on the verdict of a profile.
module _ (registry : Profiles) (model_id : String)
    (verdict : ModelProfile → EligibilityDecision) where
  abbrev decided : Outcome ModelError EligibilityDecision
  decided = get registry model_id >>= λ profile. returned (verdict profile)

  -- The assertion, whatever error refuses.
  told_iff :
      (error : EligibilityDecision → ModelError) (profile : ModelProfile)
      → ((decided >>= λ v. raise_if (not v.allowed) (error v) >> get registry model_id)
          ≡ returned profile)
        ↔ (lookup model_id registry ≡ some profile) × ((verdict profile).allowed ≡ true)
  unfolding get
  told_iff error profile =
      let found = get_iff registry model_id profile in
      (
        λ h.
            let (v, asked, rest) = >>=-eq-returned decided _ h in
            let (p, got, same) = >>=-eq-returned (get registry model_id) _ asked in
            let (u, checked, last) = >>=-eq-returned (raise_if (not v.allowed) _) _ rest in
            let yes : v.allowed ≡ true =
              (let t = raise_if-eq-returned _ _ checked in ground arith) in
            let mine : p ≡ profile = returned-injective (sym got ∙ last) in
            let verdicts : verdict p ≡ v = returned-injective same in
            (
              found.0 last,
              subst (λ q. (verdict q).allowed ≡ true) mine (ap (λ w. w.allowed) verdicts ∙ yes),
            ),
        λ h. let got = found.1 h.0 in rw (got, h.1),
      )

  assert_eligible_iff :
      (profile : ModelProfile)
      → (assert_eligible registry model_id decided ≡ returned profile)
        ↔ (lookup model_id registry ≡ some profile) × ((verdict profile).allowed ≡ true)
  unfolding assert_eligible
  assert_eligible_iff = told_iff (λ v. eligibility_error model_id v.reason)

controller_verdict_iff :
    (profile : ModelProfile)
    → ((controller_verdict profile).allowed ≡ true)
      ↔ (profile.status ≡ qualified)
        × ((profile.role_eligibility.meta_controller ≡ true)
            × (is_some profile.controller_qualification ≡ true))
unfolding controller_verdict
controller_verdict_iff profile =
    let status = !=_false_iff profile.status qualified in
    (
      λ h. (status.0 (ground arith), (ground arith, ground arith)),
      λ h. let s = status.1 h.0 in rw (s, h.1.0, h.1.1),
    )

challenger_verdict_iff :
    (profile : ModelProfile)
    → ((challenger_verdict profile).allowed ≡ true)
      ↔ (profile.status ≡ qualified) × (profile.role_eligibility.challenger ≡ true)
unfolding challenger_verdict
challenger_verdict_iff profile =
    let status = !=_false_iff profile.status qualified in
    (λ h. (status.0 (ground arith), ground arith), λ h. let s = status.1 h.0 in rw (s, h.1))

evaluator_verdict_iff :
    (profile : ModelProfile)
    → ((evaluator_verdict profile).allowed ≡ true)
      ↔ (profile.status ≡ qualified) × (profile.role_eligibility.evaluator ≡ true)
unfolding evaluator_verdict
evaluator_verdict_iff profile =
    let status = !=_false_iff profile.status qualified in
    (λ h. (status.0 (ground arith), ground arith), λ h. let s = status.1 h.0 in rw (s, h.1))

capability_verdict_iff :
    (matches : List DomainCapability)
    → ((capability_verdict matches).allowed ≡ true) ↔ (
        (capability : DomainCapability) × (matches ≡ capability ∷ [])
        × (capability.eligibility ≡ qualified))
unfolding capability_verdict
capability_verdict_iff [] = (λ h. cc, λ (c, e, q). cc e)
capability_verdict_iff (c ∷ []) =
    let status = !=_false_iff c.eligibility qualified in
    (
      λ h. (c, refl, status.0 (ground arith)),
      λ (d, e, q).
          let same : d ≡ c = cc e in
          let s = status.1 (subst (λ x. x.eligibility ≡ qualified) same q) in rw s,
    )
capability_verdict_iff (c ∷ d ∷ rest) = (λ h. cc, λ (x, e, q). cc e)

domain_verdict_tests :
    (profile : ModelProfile) (domain : String) (task_type : DomainTaskType)
    → ((domain_verdict profile domain task_type).allowed ≡ true)
      ↔ ((profile.status != qualified) ≡ false)
        × (contains domain profile.role_eligibility.domain_worker ≡ true)
        × ((capability_verdict (matching_domain_capabilities profile domain task_type)).allowed
            ≡ true)
unfolding domain_verdict
domain_verdict_tests profile domain task_type =
    (λ h. (ground arith, ground arith, ground arith), λ h. rw (h.0, h.1, h.2))

domain_verdict_iff :
    (profile : ModelProfile) (domain : String) (task_type : DomainTaskType)
    → ((domain_verdict profile domain task_type).allowed ≡ true)
      ↔ (profile.status ≡ qualified)
        × Memᴰ domain profile.role_eligibility.domain_worker
        × ((capability : DomainCapability) × (matching_domain_capabilities profile domain task_type
              ≡ capability ∷ [])
            × (capability.eligibility ≡ qualified))
domain_verdict_iff profile domain task_type =
    let tests = domain_verdict_tests profile domain task_type in
    let status = !=_false_iff profile.status qualified in
    let listed = contains_iff domain profile.role_eligibility.domain_worker in
    let only = capability_verdict_iff (matching_domain_capabilities profile domain task_type) in
    (
      λ h. let t = tests.0 h in (status.0 t.0, listed.0 t.1, only.0 t.2),
      λ h. tests.1 (status.1 h.0, listed.1 h.1, only.1 h.2),
    )

module _ (registry : Profiles) (model_id : String) (profile : ModelProfile) where
  -- A verdict that is known, asserted.
  asserted_iff :
      (verdict : ModelProfile → EligibilityDecision) {P : Type 0}
      → ((verdict profile).allowed ≡ true) ↔ (profile.status ≡ qualified) × P
      → (assert_eligible registry model_id (decided registry model_id verdict) ≡ returned profile)
        ↔ (lookup model_id registry ≡ some profile) × (profile.status ≡ qualified) × P
  asserted_iff verdict knows =
      let whole = assert_eligible_iff registry model_id verdict profile in
      (
        λ h. let t = whole.0 h in let k = knows.0 t.1 in (t.0, k.0, k.1),
        λ h. whole.1 (h.0, knows.1 (h.1, h.2)),
      )

  assert_domain_eligible_iff :
      (domain : String) (task_type : DomainTaskType)
      → (assert_domain_eligible registry model_id domain task_type ≡ returned profile)
        ↔ (lookup model_id registry ≡ some profile)
          × ((domain_verdict profile domain task_type).allowed ≡ true)
  unfolding assert_domain_eligible domain_decision
  assert_domain_eligible_iff domain task_type =
      told_iff registry model_id (λ p. domain_verdict p domain task_type)
        (λ v. capability_gap_error model_id v.reason (capability_gap model_id domain task_type))
        profile

  domain_requirement_iff :
      (requirement : EligibilityRequirement)
      → (assert_domain_requirement registry model_id requirement.domain requirement.task_type
          ≡ returned profile)
        ↔ (lookup model_id registry ≡ some profile)
          × (profile.status ≡ qualified)
          × MayTake profile requirement domain_worker_role
  unfolding assert_domain_requirement
  domain_requirement_iff requirement = elim (Option-cases requirement.domain) [
    | inl none_given ↦ (
      λ h. absurd (raised_ne_returned (rw none_given at h)),
      λ h. let (d, t, e, e', listed, only) = h.2 in absurd (cc),
    )
    | inr (domain, named) ↦ elim (Option-cases requirement.task_type) [
      | inl none_given ↦ (
        λ h. absurd (raised_ne_returned (rw (named, none_given) at h)),
        λ h. let (d, t, e, e', listed, only) = h.2 in absurd (cc),
      )
      | inr (task_type, given) ↦
          let asserted = assert_domain_eligible_iff domain task_type in
          let verdict = domain_verdict_iff profile domain task_type in
          (
            λ h.
                let t = asserted.0 (rw (named, given) at h) in
                let v = verdict.0 t.1 in (t.0, v.0, (domain, task_type, named, given, v.1, v.2)),
            λ h.
                let (d, t, e, e', listed, only) = h.2 in
                let same : d ≡ domain = cc in
                let same_task : t ≡ task_type = cc in
                rw (named, given)
                  (asserted.1 (
                    h.0,
                    verdict.1 (
                      h.1,
                      subst (λ x. Memᴰ x profile.role_eligibility.domain_worker) same listed,
                      rw (same, same_task) at only,
                    ),
                  )),
          )
    ]
  ]

  by_role_iff :
      (requirement : EligibilityRequirement) (role : RestrictedRole)
      → requirement.role ≡ role
      → (assert_requirement registry model_id requirement ≡ returned profile)
        ↔ Eligible registry model_id requirement profile
  unfolding assert_requirement controller_decision challenger_decision evaluator_decision
  by_role_iff requirement meta_controller_role e =
      rw (e, assert_requirement) (asserted_iff controller_verdict (controller_verdict_iff profile))
  by_role_iff requirement challenger_role e =
      rw (e, assert_requirement) (asserted_iff challenger_verdict (challenger_verdict_iff profile))
  by_role_iff requirement evaluator_role e =
      rw (e, assert_requirement) (asserted_iff evaluator_verdict (evaluator_verdict_iff profile))
  by_role_iff requirement domain_worker_role e =
      rw (e, assert_requirement) (domain_requirement_iff requirement)

  -- A model is let into a required role, and its registered profile returned, exactly when the
  -- profile is qualified and records what the role asks: the role's own flag, for a meta controller
  -- also a controller qualification, and for a domain worker the domain, with exactly one
  -- capability record of the domain and the task, which is qualified.
  pub assert_requirement_iff :
      (requirement : EligibilityRequirement)
      → (assert_requirement registry model_id requirement ≡ returned profile)
        ↔ Eligible registry model_id requirement profile
  assert_requirement_iff requirement = by_role_iff requirement requirement.role refl
