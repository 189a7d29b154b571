-- ===== src/Integration/Gates/Opening.antt =====
-- What opens the cross examination and the world integration, by cross_exam.py and causal.py.
use human_cos_fft1_trial.Prelude.{some-injective}
use mathlib.Core.Bool.{false≢true}
use human_cos_fft1_trial.Prelude.{
  nat_eq, string_eq, bool_eq, option_eq, list_eq, pair_eq, !=_false_iff, >>=-eq-returned, All,
  Bool-cases, Distinct, List, Memᴰ, Option, Outcome, Outcome-cases, String, [], all, ap, arith,
  both_iff, contains, each_iff, false, filled_iff, inl, inr, member_iff, none, not, or_false_iff,
  raised, raised_ne_returned, raises_iff, refl, repeats_iff, returned, returned-injective, some,
  subst, sym, true, wrap, ℕ, ◌↔◌, ◌∙◌, ◌∷◌, ◌≡◌, ◌≢◌,
}
use human_cos_fft1_trial.Integration.CrossExam.{
  CrossExamHashes, CrossExamTask, DisclosureGrant, cross_exam_contract_error, source_keys,
}
use human_cos_fft1_trial.Integration.Gates.{
  can_s6_wci1_transition, check_disclosure, guard_of, s6_wci1_transitions, wci1_guarded, with_guard,
}
use human_cos_fft1_trial.Runtime.States.{mode_eq, state_eq, RuntimeState}
use human_cos_fft1_trial.Runtime.Transition.{
  key_eq, CaseRuntimePosition, TransitionDecision, can_transition, protocol_version,
}

pub wraps_iff :
    {E F P : Type 0} (f : F → E) {m : Outcome F (Unit {0})}
    → (m ≡ returned tt) ↔ P
    → (wrap f m ≡ returned tt) ↔ P
wraps_iff f {m = returned u} e = (λ h. e.0 refl, λ p. refl)
wraps_iff f {m = raised x} e =
    (λ h. absurd (raised_ne_returned h), λ p. absurd (raised_ne_returned (e.1 p)))

pub subset_iff :
    (xs ys : List String) → (not (all (λ x. contains x ys) xs) ≡ false) ↔ All (λ x. Memᴰ x ys) xs
subset_iff [] ys = (λ h. tt, λ h. refl)
subset_iff (x ∷ xs) ys =
    let first = member_iff x ys in
    let rest = subset_iff xs ys in
    (
      λ h. (first.0 (ground arith), rest.0 (ground arith)),
      λ (m, ms). let a = first.1 m in let b = rest.1 ms in ground arith,
    )

module _ (hashes : CrossExamHashes) where
  pub record GrantOpens (case_revision : ℕ) (version : String) (grant : DisclosureGrant)
      (tasks : List CrossExamTask) : Type 0 where
    pub intact : grant.hash ≡ hashes.grant_sha256 grant.payload
    pub distinct_sources : Distinct (source_keys grant.payload.allowed_sources)
    pub has_sources : grant.payload.allowed_sources ≢ []
    pub same_revision : grant.payload.case_revision ≡ case_revision
    pub same_version : grant.payload.protocol_version ≡ version
    pub has_tasks : tasks ≢ []
    pub bound_tasks :
        All
          (λ task.
            ((task.hash ≡ hashes.task_sha256 task.payload)
              × ((task.payload.source_refs ≢ []) × (task.payload.prompt_types ≢ [])))
            × (((task.payload.case_revision ≡ grant.payload.case_revision)
                  × (task.payload.grant_hash ≡ grant.hash))
                × (task.payload.protocol_version ≡ grant.payload.protocol_version)))
          tasks

  check_disclosure_iff :
      (case_revision : ℕ) (version : String) (grant : DisclosureGrant) (tasks : List CrossExamTask)
      → (check_disclosure hashes case_revision version grant tasks ≡ returned tt)
        ↔ GrantOpens case_revision version grant tasks
  unfolding check_disclosure
  check_disclosure_iff case_revision version grant tasks =
      let sound =
        both_iff (raises_iff _ (!=_false_iff grant.hash (hashes.grant_sha256 grant.payload))) (
          both_iff (raises_iff _ (repeats_iff (source_keys grant.payload.allowed_sources)))
            (raises_iff _ (filled_iff grant.payload.allowed_sources))) in
      let task_sound = λ (task : CrossExamTask).
        both_iff
          (both_iff (raises_iff _ (!=_false_iff task.hash (hashes.task_sha256 task.payload))) (
            both_iff (raises_iff _ (filled_iff task.payload.source_refs))
              (raises_iff _ (filled_iff task.payload.prompt_types))))
          (raises_iff _ (
            or_false_iff
              (or_false_iff (!=_false_iff task.payload.case_revision grant.payload.case_revision)
                (!=_false_iff task.payload.grant_hash grant.hash))
              (!=_false_iff task.payload.protocol_version grant.payload.protocol_version))) in
      let all = both_iff sound (
        both_iff (raises_iff _ (!=_false_iff grant.payload.case_revision case_revision)) (
          both_iff (raises_iff _ (!=_false_iff grant.payload.protocol_version version))
            (both_iff (raises_iff _ (filled_iff tasks)) (each_iff tasks task_sound)))) in
      (
        λ h.
            let ((i, (d, s)), (r, (v, (t, b)))) = all.0 h in
            record {
              intact = i;
              distinct_sources = d;
              has_sources = s;
              same_revision = r;
              same_version = v;
              has_tasks = t;
              bound_tasks = b;
            },
        λ g. all.1 (
          (g.intact, (g.distinct_sources, g.has_sources)),
          (g.same_revision, (g.same_version, (g.has_tasks, g.bound_tasks))),
        ),
      )

  -- A decision of the first gate that is allowed is the one of the state machine, for a grant that
  -- opens the tasks.
  guarded_iff :
      (position : CaseRuntimePosition) (base : TransitionDecision) (grant : Option DisclosureGrant)
      (tasks : List CrossExamTask)
      → base.allowed ≡ true
      → ((wci1_guarded hashes position base grant tasks).allowed ≡ true) ↔ (
          (g : DisclosureGrant) × (grant ≡ some g)
          × GrantOpens position.case_revision base.protocol_version g tasks)
  unfolding with_guard guard_of
  guarded_iff position base none tasks ok = (λ h. cc, λ (g, e, _). absurd (cc e))
  guarded_iff position base (some grant) tasks ok =
      let opens = check_disclosure_iff position.case_revision base.protocol_version grant tasks in
      elim (Outcome-cases
        (check_disclosure hashes position.case_revision base.protocol_version grant tasks)) [
          | inl (u, passed) ↦ rw passed (λ h. (grant, refl, opens.0 passed), λ _. ok)
          | inr (cross_exam_contract_error message, refused) ↦ rw refused (
            λ h. cc,
            λ (g, e, o). absurd (
                raised_ne_returned (
                  sym refused
                  ∙ opens.1 (
                      subst (λ k. GrantOpens position.case_revision base.protocol_version k tasks)
                        (sym (some-injective _ _ e)) o))),
          )
        ]

  -- The first gate allows a change exactly when the state machine allows it with the authorized edge
  -- and a frozen grant of the same case revision and protocol version binds at least one sound task.
  pub can_s6_wci1_transition_iff :
      (position : CaseRuntimePosition) (target : RuntimeState) (grant : Option DisclosureGrant)
      (tasks : List CrossExamTask)
      → ((d : TransitionDecision) × (can_s6_wci1_transition hashes position target grant tasks
            ≡ returned d)
          × (d.allowed ≡ true))
        ↔ ((base : TransitionDecision) × (can_transition position target none s6_wci1_transitions
                protocol_version
              ≡ returned base)
            × (base.allowed ≡ true)
            × ((g : DisclosureGrant) × (grant ≡ some g)
                × GrantOpens position.case_revision base.protocol_version g tasks))
  unfolding can_s6_wci1_transition
  can_s6_wci1_transition_iff position target grant tasks = (
    λ (d, got, ok).
        let (base, decided, rest) =
          >>=-eq-returned (can_transition position target none s6_wci1_transitions protocol_version)
            _ got in
        let final = returned-injective rest in
        elim (Bool-cases base.allowed) [
          | inl may ↦
              let same = rw may at final in
              (
                base,
                decided,
                may,
                (guarded_iff position base grant tasks may).0 (ap (λ x. x.allowed) same ∙ ok),
              )
          | inr may_not ↦
              let same = rw may_not at final in
              absurd (false≢true (sym may_not ∙ ap (λ x. x.allowed) same ∙ ok))
        ],
    λ (base, decided, may, opening).
        let open_ = (guarded_iff position base grant tasks may).1 opening in
        (wci1_guarded hashes position base grant tasks, rw (decided, may), open_),
  )
