-- ===== src/Models/Fallback/Provenance.antt =====
-- Which outcomes the explicit fallback of fallback.py gives, and from which adapter.
use human_cos_fft1_trial.Prelude.{
  nat_eq, string_eq, bool_eq, option_eq, list_eq, pair_eq, !=_false_iff, >>=-eq-returned,
  Bool-cases, Outcome-cases, ap, arith, inl, inr, none, not, raise_if, raise_if-eq-returned, raised,
  raised_ne_returned, refl, returned, returned-injective, some, subst, sym, true, ◌!=◌, ◌↔◌, ◌∙◌,
  ◌≡◌, ◌⊎◌,
}
use human_cos_fft1_trial.Models.Fallback.{
  InvocationOutcome, ModelAdapter, ModelRequest, ModelResponse, after_failure, assert_adapter,
  invoke_checked, invoke_with_explicit_fallback,
}
use human_cos_fft1_trial.Models.Profile.{
  status_eq, identity_eq, AdapterFailure, ModelError, ModelProfile, Profiles, assert_identity,
  capability_gap_error, eligibility_error, identity_mismatch_error, model_adapter_error,
  registry_error, unknown_model_error, value_error,
}
use human_cos_fft1_trial.Models.Profile.Identity.{assert_identity_iff}
use human_cos_fft1_trial.Models.Qualification.{EligibilityRequirement}
use human_cos_fft1_trial.Models.Qualification.Eligibility.{Eligible, assert_requirement_iff}

module _ (registry : Profiles) (requirement : EligibilityRequirement) (request : ModelRequest) where
  -- The adapter is the registered one of an eligible model.
  abbrev pub Admitted : ModelAdapter → Type 0
  Admitted adapter =
      (profile : ModelProfile) × (assert_identity registry adapter.identity ≡ returned profile)
      × Eligible registry adapter.identity.model_id requirement profile

  -- It answers as itself.
  abbrev pub AnswersAs : ModelAdapter → ModelResponse → Type 0
  AnswersAs adapter response =
      (adapter.invoke request ≡ returned response) × (response.identity ≡ adapter.identity)

  assert_adapter_iff :
      (adapter : ModelAdapter) (profile : ModelProfile)
      → (assert_adapter registry adapter requirement ≡ returned profile)
        ↔ (assert_identity registry adapter.identity ≡ returned profile)
          × Eligible registry adapter.identity.model_id requirement profile
  unfolding assert_adapter
  assert_adapter_iff adapter profile =
      let eligible =
        assert_requirement_iff registry adapter.identity.model_id profile requirement in
      (
        λ h.
            let (p, known, rest) =
              >>=-eq-returned (assert_identity registry adapter.identity) _ h in
            let e = eligible.0 rest in
            let same : p ≡ profile =
              (let found = ((assert_identity_iff registry adapter.identity p).0 known).0 in
                let mine = e.0 in cc) in
            (known ∙ ap returned same, e),
        λ h. let known = h.0 in rw known (eligible.1 h.1),
      )

  -- After the adapter is admitted, the second look at its identity refuses nothing.
  invoke_checked_iff :
      (adapter : ModelAdapter) (response : ModelResponse)
      → Admitted adapter
      → (invoke_checked adapter request registry ≡ returned response) ↔ AnswersAs adapter response
  unfolding invoke_checked
  invoke_checked_iff adapter response (profile, known, eligible) = (
    λ h.
        let (r, got, rest) = >>=-eq-returned (adapter.invoke request) _ h in
        let (u, checked, after) =
          >>=-eq-returned (raise_if (r.identity != adapter.identity) _) _ rest in
        let (p, again, end) = >>=-eq-returned (assert_identity registry r.identity) _ after in
        let same : r ≡ response = returned-injective end in
        let itself = (!=_false_iff _ _).0 (raise_if-eq-returned _ _ checked) in
        (got ∙ ap returned same, ap (λ x. x.identity) (sym same) ∙ itself),
    λ (got, itself).
        let test = (!=_false_iff response.identity adapter.identity).1 itself in
        let again : assert_identity registry response.identity ≡ returned profile =
          subst (λ i. assert_identity registry i ≡ returned profile) (sym itself) known in
        rw (got, test, again),
  )

  -- The primary answered.
  abbrev pub Direct : ModelAdapter → InvocationOutcome → Type 0
  Direct primary outcome =
      AnswersAs primary outcome.response
      × (outcome.fallback_from ≡ none)
      × (outcome.primary_error_code ≡ none)

  -- The primary failed in a way that may be retried, and the admitted fallback answered.
  abbrev pub FellBack : ModelAdapter → ModelAdapter → InvocationOutcome → Type 0
  FellBack primary second outcome =
      (failure : AdapterFailure) × (primary.invoke request ≡ raised (model_adapter_error failure))
      × (failure.retryable ≡ true)
      × Admitted second
      × AnswersAs second outcome.response
      × (outcome.fallback_from ≡ some primary.identity.model_id)
      × (outcome.primary_error_code ≡ some failure.code)

  -- An exception of an adapter comes from its own call.
  invoke_checked-fails_iff :
      (adapter : ModelAdapter) (failure : AdapterFailure)
      → Admitted adapter
      → (invoke_checked adapter request registry ≡ raised (model_adapter_error failure))
        ↔ (adapter.invoke request ≡ raised (model_adapter_error failure))
  unfolding invoke_checked
  invoke_checked-fails_iff adapter failure admitted = (
    λ h. elim (Outcome-cases (adapter.invoke request)) [
      | inr (error, e) ↦ e ∙ (rw e at h)
      | inl (response, e) ↦ elim (Bool-cases (response.identity != adapter.identity)) [
        | inl other ↦ cc (rw (e, other) at h)
        | inr itself ↦
            let answer =
              (invoke_checked_iff adapter response admitted).1 (e, (!=_false_iff _ _).0 itself) in
            cc (sym answer ∙ h)
      ]
    ],
    λ e. rw e,
  )

  after_failure-returns :
      (primary second : ModelAdapter) (error : ModelError) {outcome : InvocationOutcome}
      → after_failure primary second request registry requirement error ≡ returned outcome
      → Admitted primary
      → invoke_checked primary request registry ≡ raised error
      → FellBack primary second outcome
  unfolding after_failure
  after_failure-returns primary second (model_adapter_error failure) {outcome} h first
        failure_seen =
      let (u, checked, rest) = >>=-eq-returned (raise_if (not failure.retryable) _) _ h in
      let (p, known, after) = >>=-eq-returned (assert_adapter registry second requirement) _ rest in
      let (r, answer, end) = >>=-eq-returned (invoke_checked second request registry) _ after in
      let (known_as, is_eligible) = (assert_adapter_iff second p).0 known in
      let admitted : Admitted second = (p, known_as, is_eligible) in
      let answers = (invoke_checked_iff second r admitted).0 answer in
      let t = raise_if-eq-returned _ _ checked in
      subst (FellBack primary second) (returned-injective end) (
        failure,
        (invoke_checked-fails_iff primary failure first).0 failure_seen,
        ground arith,
        admitted,
        answers,
        refl,
        refl,
      )
  after_failure-returns primary second (registry_error _) h first failure_seen =
      absurd (raised_ne_returned h)
  after_failure-returns primary second (unknown_model_error _) h first failure_seen =
      absurd (raised_ne_returned h)
  after_failure-returns primary second (identity_mismatch_error _) h first failure_seen =
      absurd (raised_ne_returned h)
  after_failure-returns primary second (eligibility_error _ _) h first failure_seen =
      absurd (raised_ne_returned h)
  after_failure-returns primary second (capability_gap_error _ _ _) h first failure_seen =
      absurd (raised_ne_returned h)
  after_failure-returns primary second (value_error _) h first failure_seen =
      absurd (raised_ne_returned h)

  -- The caller gets an outcome exactly when the primary is the registered adapter of an eligible
  -- model, and either the primary answers as itself, and the outcome names no fallback, or its call
  -- fails in a way that may be retried, the second adapter is registered and eligible in its own
  -- right and answers as itself, and the outcome names the primary and its error code.
  pub invoke_iff :
      (primary second : ModelAdapter) (outcome : InvocationOutcome)
      → (invoke_with_explicit_fallback primary second request registry requirement
          ≡ returned outcome)
        ↔ Admitted primary × (Direct primary outcome ⊎ FellBack primary second outcome)
  unfolding invoke_with_explicit_fallback
  invoke_iff primary second outcome = (
    λ h.
        let (p, known, rest) = >>=-eq-returned (assert_adapter registry primary requirement) _ h in
        let (known_as, is_eligible) = (assert_adapter_iff primary p).0 known in
        let admitted : Admitted primary = (p, known_as, is_eligible) in
        (
          admitted,
          elim (Outcome-cases (invoke_checked primary request registry)) [
            | inl (response, e) ↦
                let answers = (invoke_checked_iff primary response admitted).0 e in
                inl
                  (subst (Direct primary) (returned-injective (rw e at rest)) (answers, refl, refl))
            | inr (error, e) ↦
                inr (after_failure-returns primary second error (rw e at rest) admitted e)
          ],
        ),
    λ ((p, known, eligible), way).
        let let_in = (assert_adapter_iff primary p).1 (known, eligible) in
        elim way [
          | inl (answers, no_fallback, no_code) ↦
              let answer =
                (invoke_checked_iff primary outcome.response (p, known, eligible)).1 answers in
              rw (let_in, answer, ← no_fallback, ← no_code) refl
          | inr (failure, fails, retry, (q, known_too, eligible_too), answers, named, code) ↦
              let first_fails =
                (invoke_checked-fails_iff primary failure (p, known, eligible)).1 fails in
              let second_in = (assert_adapter_iff second q).1 (known_too, eligible_too) in
              let answer =
                (invoke_checked_iff second outcome.response (q, known_too, eligible_too)).1
                  answers in
              rw (let_in, first_fails, after_failure, retry, second_in, answer, ← named, ← code)
                refl
        ],
  )
