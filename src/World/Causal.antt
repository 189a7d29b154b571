-- ===== src/World/Causal.antt =====
-- runtime/src/human_cos/world/causal.py: the causal graph with its feedback loops, and its freezing as
-- a contract of a revision (World/Revision).
pub mod Graph
use human_cos_fft1_trial.Prelude.{
  nat_eq, string_eq, bool_eq, option_eq, list_eq, pair_eq, List, Option, Outcome, String,
  all_distinct, any, contains, for_each, inl, inr, is_empty, is_some, length, ltb, map, not,
  raise_if, raised, returned, ℕ, ◌!=◌, ◌&&◌, ◌==◌, ◌>>=◌, ◌>>◌, ◌||◌, ◌⊎◌,
}
use human_cos_fft1_trial.World.Revision.{Frozen, RevisionContract, assert_integrity, freeze}
use human_cos_fft1_trial.World.State.{
  ProvenanceRef, WorldStateContractError, world_state_contract_error,
}

pub data CausalGraphContractError : Type 0 where
  causal_graph_contract_error : String → CausalGraphContractError

pub data CausalNodeType : Type 0 where
  actor_node action_node interest_node human_state_node system_state_node constraint_node
        unknown_node critical_node_ref :
      CausalNodeType

pub data CausalEdgeType : Type 0 where
  causes enables inhibits amplifies dampens depends_on signals triggers reverses delayed_effect :
      CausalEdgeType

pub record CausalNode : Type 0 where
  pub node_id : String
  pub node_type : CausalNodeType
  pub label : String
  pub source_refs : List ProvenanceRef

pub record CausalEdge : Type 0 where
  pub edge_id : String
  pub source_node_id : String
  pub target_node_id : String
  pub edge_type : CausalEdgeType
  pub source_refs : List ProvenanceRef

pub record FeedbackLoop : Type 0 where
  pub loop_id : String
  pub node_ids : List String
  pub description : String

pub record CausalGraphPayload : Type 0 where
  pub graph_id : String
  pub case_id : String
  pub case_revision : ℕ
  pub revision : ℕ
  pub parent_graph_hash : Option String
  pub nodes : List CausalNode
  pub edges : List CausalEdge
  pub feedback_loops : List FeedbackLoop
  pub dissent_node_hashes : List String
  pub protocol_version : String
  pub frozen_at : ℕ

abbrev pub node_ids_of : CausalGraphPayload → List String
node_ids_of graph = map (λ node. node.node_id) graph.nodes

unfoldable pub check_edge : List String → CausalEdge → Outcome CausalGraphContractError (Unit {0})
check_edge node_set edge = do
  raise_if
      (not (contains edge.source_node_id node_set) || not (contains edge.target_node_id node_set))
      (causal_graph_contract_error "CausalGraph edge references unknown node")
  raise_if (is_empty edge.source_refs)
      (causal_graph_contract_error "every CausalGraph edge needs source lineage")

unfoldable pub check_loop : List String → FeedbackLoop → Outcome CausalGraphContractError (Unit {0})
check_loop node_set loop =
    raise_if
      (ltb (length loop.node_ids) 2
        || any (λ node_id. not (contains node_id node_set)) loop.node_ids)
      (causal_graph_contract_error "FeedbackLoop requires at least two known nodes")

-- `CausalGraph.assert_integrity`, behind the check on its hash.
unfoldable pub check_causal_graph : CausalGraphPayload → Outcome CausalGraphContractError (Unit {0})
unfolding check_edge check_loop
check_causal_graph graph = do
  raise_if (graph.revision == 1 && is_some graph.parent_graph_hash)
      (causal_graph_contract_error "first CausalGraph revision cannot have a parent")
  raise_if (ltb 1 graph.revision && not (is_some graph.parent_graph_hash))
      (causal_graph_contract_error "later CausalGraph revision requires parent hash")
  raise_if (is_empty (node_ids_of graph) || not (all_distinct (node_ids_of graph)))
      (causal_graph_contract_error "CausalGraph node IDs must be non-empty and unique")
  raise_if (not (all_distinct (map (λ edge. edge.edge_id) graph.edges)))
      (causal_graph_contract_error "CausalGraph edge IDs must be unique")
  for_each graph.nodes (λ node.
      raise_if (is_empty node.source_refs)
        (causal_graph_contract_error "every CausalGraph node needs source lineage"))
  for_each graph.edges (check_edge (node_ids_of graph))
  for_each graph.feedback_loops (check_loop (node_ids_of graph))

abbrev pub GraphIdentity : Type 0
GraphIdentity = String × (String × (ℕ × String))

abbrev pub causal_graph_contract :
    RevisionContract CausalGraphPayload GraphIdentity CausalGraphContractError
causal_graph_contract = record {
  identity = λ g. (g.graph_id, (g.case_id, (g.case_revision, g.protocol_version)));
  revision = λ g. g.revision;
  parent_hash = λ g. g.parent_graph_hash;
  check = check_causal_graph;
  hash_mismatch = causal_graph_contract_error "CausalGraph graph_hash does not match payload";
  orphan_revision = causal_graph_contract_error "CausalGraph without parent must be revision 1";
  foreign_parent =
      causal_graph_contract_error "CausalGraph revision identity does not match parent";
  not_incremented = causal_graph_contract_error "CausalGraph revision must increment parent by one";
  wrong_parent = causal_graph_contract_error "CausalGraph parent hash does not match parent";
}

abbrev pub freeze_causal_graph :
    (CausalGraphPayload → String)
    → CausalGraphPayload
    → Option (Frozen CausalGraphPayload)
    → Outcome CausalGraphContractError (Frozen CausalGraphPayload)
freeze_causal_graph canonical_document_sha256 =
    freeze causal_graph_contract canonical_document_sha256

-- The exception of a graph or of a world state.
abbrev pub WorldGraphError : Type 0
WorldGraphError = CausalGraphContractError ⊎ WorldStateContractError

abbrev pub graph_error :
    Outcome CausalGraphContractError (Unit {0}) → Outcome WorldGraphError (Unit {0})
graph_error (returned u) = returned u
graph_error (raised e) = raised (inl e)

-- `assert_world_graph_binding`: the exception of the binding is the world state's.
unfoldable pub assert_world_graph_binding :
    (CausalGraphPayload → String)
    → String
    → ℕ
    → Frozen CausalGraphPayload
    → Outcome WorldGraphError (Unit {0})
unfolding assert_integrity
assert_world_graph_binding canonical_document_sha256 world_case_id world_case_revision graph = do
  graph_error (assert_integrity causal_graph_contract canonical_document_sha256 graph)
  raise_if
      (graph.payload.case_id != world_case_id || graph.payload.case_revision != world_case_revision)
      (inr (world_state_contract_error "WorldState and CausalGraph Case binding does not match"))
