-- ===== src/Tests/Reviews.antt =====
-- A review under a grant, and the dissent that it records.
use human_cos_fft1_trial.Prelude.{
  nat_eq, string_eq, bool_eq, option_eq, list_eq, pair_eq, All, Distinct, List, String, [], none,
  refl, returned, some, true, ◌↔◌, ◌∷◌, ◌≡◌, ◌≢◌, ◌⊎◌,
}
use human_cos_fft1_trial.Integration.CrossExam.{
  CrossExamFinding, CrossExamHashes, CrossExamResponse, CrossExamTask, DisclosureGrant, SourceRef,
  framing_source, omission,
}
use human_cos_fft1_trial.Integration.CrossExam.Disclosure.{
  Within, freeze_cross_exam_response-Within,
}
use human_cos_fft1_trial.Integration.CrossExam.Freezing.{
  build_cross_exam_task, freeze_cross_exam_response,
}
use human_cos_fft1_trial.Integration.Disagreement.{
  DisagreementNodePayload, DissentPosition, Impact, assert_dissent_preserved, high, low,
  mechanism_conflict, preserve_unresolved,
}
use human_cos_fft1_trial.Integration.Disagreement.Collected.{StandsIn}
use human_cos_fft1_trial.Integration.Disagreement.Dissent.{assert_dissent_preserved_iff}
use human_cos_fft1_trial.Integration.Disagreement.Nodes.{Preserves}
use human_cos_fft1_trial.Integration.Gates.{
  can_s6_wci1_transition, can_s6_wci2_transition, s6_wci1_transitions, s6_wci2_transitions,
}
use human_cos_fft1_trial.Integration.Gates.Opening.{GrantOpens, can_s6_wci1_transition_iff}
use human_cos_fft1_trial.Integration.Gates.Preserving.{Reviewed, can_s6_wci2_transition_iff}
use human_cos_fft1_trial.Runtime.Graph.{structural_targets}
use human_cos_fft1_trial.Runtime.Guards.{guard_results}
use human_cos_fft1_trial.Runtime.States.{
  mode_eq, state_eq, TransitionStatus, cross_examination, domain_output_frozen, live_foresight,
  world_causal_integration,
}
use human_cos_fft1_trial.Runtime.Transition.{
  key_eq, CaseRuntimePosition, TransitionDecision, can_transition, protocol_version,
}
use human_cos_fft1_trial.Trial.Steps.{position_eq}
use human_cos_fft1_trial.World.Revision.{Frozen}

abbrev framing : SourceRef
framing = record { source_kind = framing_source; ref = "f1"; sha256 = "h1" }

abbrev hashes : CrossExamHashes
hashes = record {
  grant_sha256 = λ g. g.grant_id;
  task_sha256 = λ t. t.task_id;
  response_sha256 = λ r. r.response_id;
}

abbrev open_grant : DisclosureGrant
open_grant = record {
  payload = record {
    grant_id = "g1";
    case_id = "case-1";
    case_revision = 1;
    reviewer_id = "r1";
    allowed_sources = framing ∷ [];
    independent_review_required = true;
    protocol_version = "0.1";
    frozen_at = 1;
  };
  hash = "g1";
}

abbrev review_task : CrossExamTask
review_task = record {
  payload = record {
    task_id = "t1";
    case_id = "case-1";
    case_revision = 1;
    reviewer_id = "r1";
    grant_hash = "g1";
    source_refs = framing ∷ [];
    prompt_types = omission ∷ [];
    prior_review_response_hashes = [];
    protocol_version = "0.1";
    frozen_at = 2;
  };
  hash = "t1";
}

abbrev gap : CrossExamFinding
gap = record {
  finding_id = "f";
  prompt_type = omission;
  statement = "a gap";
  source_refs = framing ∷ [];
  high_impact = true;
}

abbrev review : CrossExamResponse
review = record {
  payload = record {
    response_id = "a1";
    case_id = "case-1";
    case_revision = 1;
    task_hash = "t1";
    reviewer_id = "r1";
    grant_hash = "g1";
    findings = gap ∷ [];
    protocol_version = "0.1";
    submitted_at = 3;
    frozen_at = 4;
  };
  hash = "a1";
}

task_built :
    build_cross_exam_task hashes open_grant "t1" (framing ∷ []) (omission ∷ []) 2 []
    ≡ returned review_task
unfolding build_cross_exam_task
task_built = refl

review_frozen :
    freeze_cross_exam_response hashes open_grant review_task "a1" (gap ∷ []) 3 4 ≡ returned review
unfolding freeze_cross_exam_response
review_frozen = refl

freeze_cross_exam_response-Within_example :
    All (λ f. (f.source_refs ≢ []) × Within f.source_refs (framing ∷ [])) (gap ∷ [])
freeze_cross_exam_response-Within_example =
    freeze_cross_exam_response-Within hashes open_grant "t1" (framing ∷ []) (omission ∷ []) 2 []
      "a1" (gap ∷ []) 3 4 task_built review_frozen

abbrev ready_case : CaseRuntimePosition
ready_case = record { mode = live_foresight; state = domain_output_frozen; case_revision = 1 }

can_s6_wci1_transition_iff_example :
    ((d : TransitionDecision) × (can_s6_wci1_transition hashes ready_case cross_examination
          (some open_grant)
          (review_task ∷ [])
        ≡ returned d)
      × (d.allowed ≡ true))
    ↔ ((base : TransitionDecision) × (can_transition ready_case cross_examination none
            s6_wci1_transitions protocol_version
          ≡ returned base)
        × (base.allowed ≡ true)
        × ((g : DisclosureGrant) × (some open_grant ≡ some g)
            × GrantOpens hashes 1 base.protocol_version g (review_task ∷ [])))
can_s6_wci1_transition_iff_example =
    can_s6_wci1_transition_iff hashes ready_case cross_examination (some open_grant)
      (review_task ∷ [])

abbrev position_of : String → Impact → DissentPosition
position_of id impact = record {
  position_id = id;
  source_ref = "a1";
  source_hash = "a1";
  statement = "it breaks";
  impact = impact;
  minority = true;
}

abbrev split : Frozen DisagreementNodePayload
split = record {
  payload = record {
    node_id = "n1";
    case_id = "case-1";
    case_revision = 1;
    conflict_type = mechanism_conflict;
    positions = position_of "p1" high ∷ position_of "p2" low ∷ [];
    resolution_route = preserve_unresolved;
    unresolved = true;
    high_impact = true;
    source_response_hashes = "a1" ∷ [];
    protocol_version = "0.1";
    frozen_at = 5;
  };
  hash = "n1";
}

dissent_kept : assert_dissent_preserved (λ n. n.node_id) (split ∷ []) ("p1" ∷ []) ≡ returned tt
unfolding assert_dissent_preserved
dissent_kept = refl

assert_dissent_preserved_iff_example :
    (assert_dissent_preserved (λ n. n.node_id) (split ∷ []) ("p1" ∷ []) ≡ returned tt)
    ↔ Distinct {A = String} ("p1" ∷ [])
      × ((◌≡◌ {A = List String} ("p1" ∷ []) [])
          ⊎ All (Preserves ("p1" ∷ []) (λ n. n.node_id)) (split ∷ [])
            × All (StandsIn ("p1" ∷ []) (split ∷ [])) ("p1" ∷ []))
assert_dissent_preserved_iff_example =
    assert_dissent_preserved_iff (λ n. n.node_id) ("p1" ∷ []) (split ∷ [])

abbrev examined_case : CaseRuntimePosition
examined_case = record { mode = live_foresight; state = cross_examination; case_revision = 1 }

abbrev open_decision : TransitionDecision
open_decision = record {
  allowed = true;
  status = TransitionStatus.allowed;
  mode = live_foresight;
  source = cross_examination;
  target = world_causal_integration;
  protocol_version = "0.1";
  guard_results = [];
  reason = "transition is structurally valid, authorized, and guard-clean";
}

world_opens :
    can_s6_wci2_transition hashes
      (λ n. n.node_id)
      examined_case
      world_causal_integration
      (review ∷ [])
      (split ∷ [])
      ("p1" ∷ [])
    ≡ returned open_decision
unfolding can_s6_wci2_transition structural_targets guard_results
world_opens = refl

can_s6_wci2_transition_iff_example :
    (can_s6_wci2_transition hashes
          (λ n. n.node_id)
          examined_case
          world_causal_integration
          (review ∷ [])
          (split ∷ [])
          ("p1" ∷ [])
        ≡ returned open_decision)
      × (open_decision.allowed ≡ true)
    ↔ (can_transition examined_case world_causal_integration none s6_wci2_transitions
          protocol_version
        ≡ returned open_decision)
      × (open_decision.allowed ≡ true)
      × Reviewed hashes (λ n. n.node_id) 1 "0.1" (review ∷ []) (split ∷ []) ("p1" ∷ [])
can_s6_wci2_transition_iff_example =
    can_s6_wci2_transition_iff hashes (λ n. n.node_id) examined_case (review ∷ []) (split ∷ [])
      ("p1" ∷ []) open_decision
