-- ===== src/Integration/Gates.antt =====
-- The gates on the state machine: `can_s6_wci1_transition` of
-- runtime/src/human_cos/integration/cross_exam.py opens the cross examination, and
-- `can_s6_wci2_transition` of runtime/src/human_cos/world/causal.py the world integration.
pub mod Opening
pub mod Preserving
use human_cos_fft1_trial.Prelude.{
  nat_eq, string_eq, bool_eq, option_eq, list_eq, pair_eq, Bool, List, Option, Outcome, String, [],
  all, contains, false, for_each, if◌then◌else◌, is_empty, map, none, not, raise_if, raised,
  returned, some, true, wrap, ℕ, ◌!=◌, ◌++◌, ◌==◌, ◌>>=◌, ◌>>◌, ◌||◌, ◌∷◌,
}
use human_cos_fft1_trial.Integration.CrossExam.{
  Checked, CrossExamContractError, CrossExamHashes, CrossExamResponse, CrossExamTask,
  DisclosureGrant, cross_exam_contract_error,
}
use human_cos_fft1_trial.Integration.CrossExam.Freezing.{
  assert_grant_integrity, assert_response_integrity, assert_task_integrity,
}
use human_cos_fft1_trial.Integration.Disagreement.{
  DisagreementContractError, DisagreementNodePayload, assert_dissent_preserved,
  assert_node_integrity, disagreement_contract_error,
}
use human_cos_fft1_trial.Runtime.Guards.{GuardCheck, guard_results}
use human_cos_fft1_trial.Runtime.States.{
  mode_eq, state_eq, guard_status_eq, CaseMode, RuntimeState, cross_examination,
  domain_output_frozen, fail, guard_failed, guard_unavailable, live_foresight, mechanism_benchmark,
  pass, scenario_stress_test, unavailable, world_causal_integration,
}
use human_cos_fft1_trial.Runtime.Transition.{
  key_eq, CaseRuntimePosition, TransitionDecision, TransitionError, TransitionKey, can_transition,
  protocol_version,
}
use human_cos_fft1_trial.World.Causal.{CausalGraphContractError, causal_graph_contract_error}
use human_cos_fft1_trial.World.Revision.{Frozen}

abbrev pub s6_common_modes : List CaseMode
s6_common_modes = live_foresight ∷ mechanism_benchmark ∷ scenario_stress_test ∷ []

-- `TransitionKey(mode, source, target) for mode in _S6_COMMON_MODES`
abbrev pub keys_between : RuntimeState → RuntimeState → List TransitionKey
keys_between source target =
    map (λ mode. record { mode = mode; source = source; target = target }) s6_common_modes

abbrev pub s6_wci1_transitions : List TransitionKey
s6_wci1_transitions = keys_between domain_output_frozen cross_examination

abbrev pub s6_wci2_transitions : List TransitionKey
s6_wci2_transitions =
    keys_between domain_output_frozen cross_examination
    ++ keys_between cross_examination world_causal_integration

-- `_guard`
unfoldable pub guard_of : String → Option Bool → String → GuardCheck
guard_of name none reason = record { name = name; status = unavailable; reason = reason }
guard_of name (some true) reason = record { name = name; status = pass; reason = reason }
guard_of name (some false) reason = record { name = name; status = fail; reason = reason }

-- `_with_guard` of either file, with the reason of that file.
unfoldable pub with_guard : String → TransitionDecision → GuardCheck → TransitionDecision
with_guard reason base guard = if guard.status == pass then base else record {
  allowed = false;
  status = if guard.status == unavailable then guard_unavailable else guard_failed;
  mode = base.mode;
  source = base.source;
  target = base.target;
  protocol_version = base.protocol_version;
  guard_results = base.guard_results ++ (guard ∷ []);
  reason = reason;
}

module _ (hashes : CrossExamHashes) where
  unfoldable pub check_runtime_task : DisclosureGrant → CrossExamTask → Checked
  unfolding assert_task_integrity
  check_runtime_task grant task = do
    assert_task_integrity hashes task
    raise_if
        (task.payload.case_revision != grant.payload.case_revision
          || task.payload.grant_hash != grant.hash
          || task.payload.protocol_version != grant.payload.protocol_version)
        (cross_exam_contract_error "CrossExamTask does not bind the runtime grant")

  -- The block of `can_s6_wci1_transition` under `try`.
  unfoldable pub check_disclosure : ℕ → String → DisclosureGrant → List CrossExamTask → Checked
  unfolding assert_grant_integrity check_runtime_task
  check_disclosure case_revision version grant tasks = do
    assert_grant_integrity hashes grant
    raise_if (grant.payload.case_revision != case_revision)
        (cross_exam_contract_error "DisclosureGrant Case revision does not match runtime")
    raise_if (grant.payload.protocol_version != version)
        (cross_exam_contract_error "DisclosureGrant protocol version does not match runtime")
    raise_if (is_empty tasks)
        (cross_exam_contract_error "at least one frozen CrossExamTask is required")
    for_each tasks (check_runtime_task grant)

  abbrev pub wci1_guarded :
      CaseRuntimePosition
      → TransitionDecision
      → Option DisclosureGrant
      → List CrossExamTask
      → TransitionDecision
  wci1_guarded position base none tasks =
      with_guard "S6-WCI1 disclosure/Cross Examination prerequisite was not satisfied" base
        (guard_of "cross_exam_disclosure_frozen" none "DisclosureGrant was not supplied")
  wci1_guarded position base (some grant) tasks =
      with_guard "S6-WCI1 disclosure/Cross Examination prerequisite was not satisfied" base
        (elim (check_disclosure position.case_revision base.protocol_version grant tasks) [
          | returned u ↦
              guard_of "cross_exam_disclosure_frozen" (some true)
                "immutable disclosure grant and Cross Examination tasks are bound"
          | raised (cross_exam_contract_error message) ↦
              guard_of "cross_exam_disclosure_frozen" (some false) message
        ])

  unfoldable pub can_s6_wci1_transition :
      CaseRuntimePosition
      → RuntimeState
      → Option DisclosureGrant
      → List CrossExamTask
      → Outcome TransitionError TransitionDecision
  unfolding can_transition with_guard guard_of check_disclosure
  can_s6_wci1_transition position target grant tasks = do
    base ← can_transition position target none s6_wci1_transitions protocol_version
    returned (if not base.allowed then base else wci1_guarded position base grant tasks)

-- What the prerequisites of the world integration raise.
pub data PrerequisiteError : Type 0 where
  graph_failure : CausalGraphContractError → PrerequisiteError
  dissent_failure : DisagreementContractError → PrerequisiteError
  review_failure : CrossExamContractError → PrerequisiteError

-- What leaves `can_s6_wci2_transition` as an exception.
pub data GateError : Type 0 where
  transition_failure : TransitionError → GateError
  review_exception : CrossExamContractError → GateError

-- The `except` and what follows it: a review's own exception is not caught.
unfoldable pub at07_guarded :
    TransitionDecision → Outcome PrerequisiteError (Unit {0}) → Outcome GateError TransitionDecision
unfolding with_guard guard_of
at07_guarded base (returned u) = returned (
    with_guard "S6-WCI2 Cross Examination/dissent prerequisite was not satisfied" base (
      guard_of "at07_dissent_preserved" (some true)
        "Cross Examination lineage is frozen and required high-impact dissent is preserved"))
at07_guarded base (raised (graph_failure (causal_graph_contract_error message))) = returned (
    with_guard "S6-WCI2 Cross Examination/dissent prerequisite was not satisfied" base
      (guard_of "at07_dissent_preserved" (some false) message))
at07_guarded base (raised (dissent_failure (disagreement_contract_error message))) = returned (
    with_guard "S6-WCI2 Cross Examination/dissent prerequisite was not satisfied" base
      (guard_of "at07_dissent_preserved" (some false) message))
at07_guarded base (raised (review_failure error)) = raised (review_exception error)

module _ (hashes : CrossExamHashes) (node_sha256 : DisagreementNodePayload → String) where
  unfoldable pub check_review :
      ℕ → String → CrossExamResponse → Outcome PrerequisiteError (Unit {0})
  unfolding assert_response_integrity
  check_review case_revision version response = do
    wrap review_failure (assert_response_integrity hashes response)
    raise_if (response.payload.case_revision != case_revision) (
        graph_failure
          (causal_graph_contract_error "Cross Examination response Case revision mismatch"))
    raise_if (response.payload.protocol_version != version)
        (graph_failure (causal_graph_contract_error "Cross Examination response protocol mismatch"))

  unfoldable pub check_node_lineage :
      ℕ → List String → Frozen DisagreementNodePayload → Outcome PrerequisiteError (Unit {0})
  unfolding assert_node_integrity
  check_node_lineage case_revision response_hashes node = do
    wrap dissent_failure (assert_node_integrity node_sha256 node)
    raise_if (node.payload.case_revision != case_revision)
        (graph_failure (causal_graph_contract_error "DisagreementNode Case revision mismatch"))
    raise_if (not (all (λ hash. contains hash response_hashes) node.payload.source_response_hashes))
        (graph_failure
          (causal_graph_contract_error "DisagreementNode references unknown review response"))

  -- The block of `can_s6_wci2_transition` under `try`.
  unfoldable pub check_prerequisites :
      ℕ
      → String
      → List CrossExamResponse
      → List (Frozen DisagreementNodePayload)
      → List String
      → Outcome PrerequisiteError (Unit {0})
  unfolding check_review check_node_lineage assert_dissent_preserved
  check_prerequisites case_revision version responses disagreement_nodes required = do
    raise_if (is_empty responses) (
        graph_failure
          (causal_graph_contract_error "frozen Cross Examination responses are required"))
    for_each responses (check_review case_revision version)
    raise_if (is_empty disagreement_nodes)
        (graph_failure (causal_graph_contract_error "at least one DisagreementNode is required"))
    for_each disagreement_nodes (check_node_lineage case_revision (map (λ r. r.hash) responses))
    wrap dissent_failure (assert_dissent_preserved node_sha256 disagreement_nodes required)

  unfoldable pub can_s6_wci2_transition :
      CaseRuntimePosition
      → RuntimeState
      → List CrossExamResponse
      → List (Frozen DisagreementNodePayload)
      → List String
      → Outcome GateError TransitionDecision
  unfolding can_transition check_prerequisites at07_guarded
  can_s6_wci2_transition position target responses disagreement_nodes required = do
    base ←
        wrap transition_failure
          (can_transition position target none s6_wci2_transitions protocol_version)
    let prerequisites =
        check_prerequisites position.case_revision base.protocol_version responses
          disagreement_nodes required
    elim (not base.allowed || target != world_causal_integration) [
      | true ↦ returned base
      | false ↦ at07_guarded base prerequisites
    ]
