-- ===== src/Runtime/Graph.antt =====
-- The frozen transition graphs of runtime/src/human_cos/runtime/state_machine.py, as dictionaries
-- from a state to its structural successors.
pub mod Edges
use human_cos_fft1_trial.Prelude.{
  nat_eq, string_eq, bool_eq, option_eq, list_eq, List, [], lookup, merge, value_or, ◌∷◌,
}
use human_cos_fft1_trial.Runtime.States.{
  mode_eq, state_eq, CaseMode, RuntimeState, adversarial_review, baseline_track_run, blind_judging,
  boundary_and_policy_frozen, case_created, critical_node_detection, critical_node_review,
  cross_examination, delta_assessment, domain_independent_run, domain_output_frozen, domain_routed,
  evidence_research, evidence_status_decision, evidence_verified, experiment_preregistered,
  final_synthesis, framing_independent, framing_reviewed, hc_track_run, historical_blind_eval,
  human_review, live_foresight, monitoring, new_evidence_ingested, recognition_precheck,
  scenario_generation, scenario_resimulation, sealed, selective_rerun, t1_t5_reveal,
  track_output_frozen, update_review, updated_record, world_causal_integration,
}

abbrev pub Graph : Type 0
Graph = List (RuntimeState × List RuntimeState)

abbrev pub common_sequence : List RuntimeState
common_sequence =
    case_created ∷ evidence_research ∷ evidence_verified ∷ boundary_and_policy_frozen
    ∷ framing_independent ∷ framing_reviewed ∷ domain_routed ∷ domain_independent_run
    ∷ domain_output_frozen ∷ cross_examination ∷ world_causal_integration ∷ critical_node_detection
    ∷ critical_node_review ∷ scenario_generation ∷ scenario_resimulation ∷ adversarial_review
    ∷ final_synthesis ∷ human_review ∷ sealed ∷ []

-- Each state of a sequence but the last, with the state that follows it.
unfoldable pub following : List RuntimeState → Graph
following [] = []
following (source ∷ []) = []
following (source ∷ next ∷ rest) = (source, next ∷ []) ∷ following (next ∷ rest)

unfoldable pub common_graph : Graph
unfolding following
common_graph = following common_sequence

unfoldable pub historical_graph : Graph
historical_graph =
    (case_created, evidence_research ∷ [])
    ∷ (evidence_research, evidence_verified ∷ [])
    ∷ (evidence_verified, experiment_preregistered ∷ [])
    ∷ (experiment_preregistered, recognition_precheck ∷ [])
    ∷ (recognition_precheck, hc_track_run ∷ baseline_track_run ∷ [])
    ∷ (hc_track_run, track_output_frozen ∷ [])
    ∷ (baseline_track_run, track_output_frozen ∷ [])
    ∷ (track_output_frozen, blind_judging ∷ [])
    ∷ (blind_judging, t1_t5_reveal ∷ [])
    ∷ (t1_t5_reveal, evidence_status_decision ∷ [])
    ∷ (evidence_status_decision, sealed ∷ [])
    ∷ []

unfoldable pub live_extra_graph : Graph
live_extra_graph =
    (sealed, monitoring ∷ [])
    ∷ (monitoring, new_evidence_ingested ∷ [])
    ∷ (new_evidence_ingested, delta_assessment ∷ [])
    ∷ (delta_assessment, selective_rerun ∷ [])
    ∷ (selective_rerun, update_review ∷ [])
    ∷ (update_review, updated_record ∷ [])
    ∷ (updated_record, monitoring ∷ [])
    ∷ []

abbrev pub native_targets : List RuntimeState
native_targets = evidence_research ∷ evidence_verified ∷ boundary_and_policy_frozen ∷ []

unfoldable pub graph_for_mode : CaseMode → Graph
unfolding common_graph historical_graph live_extra_graph
graph_for_mode historical_blind_eval = historical_graph
graph_for_mode live_foresight = merge common_graph live_extra_graph
graph_for_mode _ = common_graph

unfoldable pub structural_targets : CaseMode → RuntimeState → List RuntimeState
unfolding graph_for_mode
structural_targets mode state = value_or (lookup state (graph_for_mode mode)) []
