-- ===== src/Integration/Gates/Preserving.antt =====
-- What opens the world integration, by `can_s6_wci2_transition` of causal.py: the gate AT-07.
use mathlib.Core.Bool.{false≢true}
use human_cos_fft1_trial.Prelude.{
  nat_eq, string_eq, bool_eq, option_eq, list_eq, pair_eq, !=_false_iff, >>=-eq-returned, All, Bool,
  Bool-cases, Distinct, List, Memᴰ, Outcome, String, [], ap, both_iff, each_iff, false, filled_iff,
  inl, inr, map, none, not, not_less_iff, raised, raised_ne_returned, raises_iff, refl, returned,
  returned-injective, subst, sym, true, wrap, wrap-eq-returned, ℕ, ◌!=◌, ◌||◌, ◌↔◌, ◌∙◌, ◌≡◌, ◌≢◌,
  ◌≤◌, ◌⊎◌,
}
use human_cos_fft1_trial.Integration.CrossExam.{CrossExamHashes, CrossExamResponse}
use human_cos_fft1_trial.Integration.Disagreement.{
  DisagreementNodePayload, disagreement_contract_error,
}
use human_cos_fft1_trial.Integration.Disagreement.Collected.{StandsIn}
use human_cos_fft1_trial.Integration.Disagreement.Dissent.{assert_dissent_preserved_iff}
use human_cos_fft1_trial.Integration.Disagreement.Nodes.{NodeSound, Preserves, node_integrity_iff}
use human_cos_fft1_trial.Integration.Gates.{
  PrerequisiteError, at07_guarded, can_s6_wci2_transition, check_prerequisites, dissent_failure,
  graph_failure, review_failure, s6_wci2_transitions, transition_failure,
}
use human_cos_fft1_trial.Integration.Gates.Opening.{subset_iff, wraps_iff}
use human_cos_fft1_trial.Runtime.States.{mode_eq, state_eq, world_causal_integration}
use human_cos_fft1_trial.Runtime.Transition.{
  key_eq, CaseRuntimePosition, TransitionDecision, can_transition, protocol_version,
}
use human_cos_fft1_trial.World.Causal.{causal_graph_contract_error}
use human_cos_fft1_trial.World.Revision.{Frozen}

past :
    {A : Type 0} (x y : A) (test : Bool)
    → test ≡ true
    → (elim (not test || (world_causal_integration != world_causal_integration)) [
      | true ↦ x
      | false ↦ y
    ])
      ≡ y
past x y true e = refl
past x y false e = cc

module _ (hashes : CrossExamHashes) (node_sha256 : DisagreementNodePayload → String) where
  pub record Reviewed (case_revision : ℕ) (version : String) (responses : List CrossExamResponse)
      (nodes : List (Frozen DisagreementNodePayload)) (required : List String) : Type 0 where
    pub has_responses : responses ≢ []
    pub sound_responses :
        All
          (λ r.
            ((r.hash ≡ hashes.response_sha256 r.payload)
              × (r.payload.submitted_at ≤ r.payload.frozen_at))
            × ((r.payload.case_revision ≡ case_revision) × (r.payload.protocol_version ≡ version)))
          responses
    pub has_nodes : nodes ≢ []
    pub sound_nodes :
        All
          (λ n.
            ((n.hash ≡ node_sha256 n.payload) × NodeSound n.payload)
            × ((n.payload.case_revision ≡ case_revision)
                × All (λ h. Memᴰ h (map (λ r. r.hash) responses)) n.payload.source_response_hashes))
          nodes
    pub dissent :
        Distinct required
        × ((required ≡ [])
            ⊎ All (Preserves required node_sha256) nodes × All (StandsIn required nodes) required)

  check_prerequisites_iff :
      (case_revision : ℕ) (version : String) (responses : List CrossExamResponse)
      (nodes : List (Frozen DisagreementNodePayload)) (required : List String)
      → (check_prerequisites hashes node_sha256 case_revision version responses nodes required
          ≡ returned tt)
        ↔ Reviewed case_revision version responses nodes required
  unfolding check_prerequisites
  check_prerequisites_iff case_revision version responses nodes required =
      let review = λ (r : CrossExamResponse).
        both_iff
          (wraps_iff review_failure (
            both_iff (raises_iff _ (!=_false_iff r.hash (hashes.response_sha256 r.payload)))
              (raises_iff _ (not_less_iff r.payload.frozen_at r.payload.submitted_at))))
          (both_iff (raises_iff _ (!=_false_iff r.payload.case_revision case_revision))
            (raises_iff _ (!=_false_iff r.payload.protocol_version version))) in
      let lineage = λ (n : Frozen DisagreementNodePayload).
        both_iff (wraps_iff dissent_failure (node_integrity_iff required node_sha256 n)) (
          both_iff (raises_iff _ (!=_false_iff n.payload.case_revision case_revision)) (
            raises_iff _
              (subset_iff n.payload.source_response_hashes (map (λ r. r.hash) responses)))) in
      let all = both_iff (raises_iff _ (filled_iff responses)) (
        both_iff (each_iff responses review) (
          both_iff (raises_iff _ (filled_iff nodes)) (
            both_iff (each_iff nodes lineage) (
              wraps_iff dissent_failure
                (assert_dissent_preserved_iff node_sha256 required nodes))))) in
      (
        λ h.
            let (f, (s, (n, (l, d)))) = all.0 h in
            record {
              has_responses = f;
              sound_responses = s;
              has_nodes = n;
              sound_nodes = l;
              dissent = d;
            },
        λ r.
            all.1 (r.has_responses, (r.sound_responses, (r.has_nodes, (r.sound_nodes, r.dissent)))),
      )

  at07_guarded_iff :
      (base d : TransitionDecision) (prerequisites : Outcome PrerequisiteError (Unit {0}))
      → base.allowed ≡ true
      → (at07_guarded base prerequisites ≡ returned d) × (d.allowed ≡ true)
        ↔ (prerequisites ≡ returned tt) × (d ≡ base)
  unfolding at07_guarded
  at07_guarded_iff base d (returned u) ok = (
    λ (e, _). (refl, sym (returned-injective e)),
    λ (_, s). (ap returned (sym s), ap (λ x. x.allowed) s ∙ ok),
  )
  at07_guarded_iff base d (raised (graph_failure (causal_graph_contract_error message))) ok = (
    λ (e, a). absurd (false≢true (ap (λ x. x.allowed) (returned-injective e) ∙ a)),
    λ (h, _). absurd (raised_ne_returned h),
  )
  at07_guarded_iff base d (raised (dissent_failure (disagreement_contract_error message))) ok = (
    λ (e, a). absurd (false≢true (ap (λ x. x.allowed) (returned-injective e) ∙ a)),
    λ (h, _). absurd (raised_ne_returned h),
  )
  at07_guarded_iff base d (raised (review_failure error)) ok =
      (λ (e, a). absurd (raised_ne_returned e), λ (h, _). absurd (raised_ne_returned h))

  -- The second gate lets a case into the world integration exactly when the state machine does, with
  -- the authorized edges, and there are intact reviews and disagreement nodes of its revision, the
  -- nodes rest on these reviews, and every required position stands, marked as high, in a node of high
  -- impact. The decision is then the state machine's.
  pub can_s6_wci2_transition_iff :
      (position : CaseRuntimePosition) (responses : List CrossExamResponse)
      (nodes : List (Frozen DisagreementNodePayload)) (required : List String)
      (d : TransitionDecision)
      → (can_s6_wci2_transition hashes node_sha256 position world_causal_integration responses nodes
              required
            ≡ returned d)
          × (d.allowed ≡ true)
        ↔ (can_transition position world_causal_integration none s6_wci2_transitions
              protocol_version
            ≡ returned d)
          × (d.allowed ≡ true)
          × Reviewed position.case_revision d.protocol_version responses nodes required
  unfolding can_s6_wci2_transition
  can_s6_wci2_transition_iff position responses nodes required d =
      let decision =
        can_transition position world_causal_integration none s6_wci2_transitions
          protocol_version in
      let reviewed = λ (base : TransitionDecision).
        check_prerequisites_iff position.case_revision base.protocol_version responses nodes
          required in
      (
        λ (got, ok).
            let (base, decided, rest) = >>=-eq-returned (wrap transition_failure decision) _ got in
            let known = wrap-eq-returned transition_failure decision decided in
            elim (Bool-cases base.allowed) [
              | inl may ↦
                  let gate = rw may at rest in
                  let (passed, same) = (at07_guarded_iff base d _ may).0 (gate, ok) in
                  (
                    known ∙ ap returned (sym same),
                    ok,
                    subst
                        (λ b.
                          Reviewed position.case_revision b.protocol_version responses nodes
                            required)
                        (sym same) ((reviewed base).0 passed),
                  )
              | inr may_not ↦
                  let gate = rw may_not at rest in
                  absurd
                    (false≢true (sym may_not ∙ ap (λ x. x.allowed) (returned-injective gate) ∙ ok))
            ],
        λ (decided, ok, r).
            let passed = (reviewed d).1 r in
            let gate = (at07_guarded_iff d d _ ok).1 (passed, refl) in
            (rw decided (past (returned d) _ d.allowed ok ∙ gate.0), ok),
      )
