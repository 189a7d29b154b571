-- ===== src/World/Causal/Graph.antt =====
-- Which causal graphs pass `assert_integrity` of causal.py.
use human_cos_fft1_trial.Prelude.{
  nat_eq, string_eq, bool_eq, option_eq, list_eq, pair_eq, ==_iff, All, Distinct, Memᴰ, [],
  absent_iff, both_iff, each_iff, filled_iff, implies_iff, length, less_iff, map, member_iff,
  none_passes_iff, not_less_iff, or_false_iff, present_iff, raises_iff, repeats_iff, returned, ◌↔◌,
  ◌≡◌, ◌≢◌, ◌≤◌,
}
use human_cos_fft1_trial.World.Causal.{CausalGraphPayload, check_causal_graph, node_ids_of}
use human_cos_fft1_trial.World.State.Integrity.{NamesParent}

-- A causal graph that passes: it names a parent from its second revision on and only then, it has
-- nodes, no two nodes or edges have one id, an edge joins two nodes of the graph, the list of a loop
-- has at least two entries, all of them nodes of the graph, which may be one node twice, and every
-- node and edge says where it comes from.
pub record GraphSound (graph : CausalGraphPayload) : Type 0 where
  pub names_parent : NamesParent graph.revision graph.parent_graph_hash
  pub has_nodes : node_ids_of graph ≢ []
  pub distinct_nodes : Distinct (node_ids_of graph)
  pub distinct_edges : Distinct (map (λ edge. edge.edge_id) graph.edges)
  pub sourced_nodes : All (λ node. node.source_refs ≢ []) graph.nodes
  pub sound_edges :
      All
        (λ edge.
          (Memᴰ edge.source_node_id (node_ids_of graph)
            × Memᴰ edge.target_node_id (node_ids_of graph))
          × (edge.source_refs ≢ []))
        graph.edges
  pub sound_loops :
      All
        (λ loop.
          (2 ≤ length loop.node_ids)
          × All (λ node_id. Memᴰ node_id (node_ids_of graph)) loop.node_ids)
        graph.feedback_loops

-- The contents of a graph pass the check exactly when the first revision names no parent and a later
-- one does, there are nodes, node ids and edge ids are distinct, both ends of every edge are nodes of
-- the graph, the list of every loop has at least two entries, equal ones too, that are nodes of the
-- graph, and every node and every edge has sources.
pub check_causal_graph_iff :
    (graph : CausalGraphPayload) → (check_causal_graph graph ≡ returned tt) ↔ GraphSound graph
unfolding check_causal_graph
check_causal_graph_iff graph =
    let ids = node_ids_of graph in
    let edges = each_iff graph.edges λ edge.
      both_iff
        (raises_iff _
          (or_false_iff (member_iff edge.source_node_id ids) (member_iff edge.target_node_id ids)))
        (raises_iff _ (filled_iff edge.source_refs)) in
    let loops = each_iff graph.feedback_loops λ loop. raises_iff _ (
      or_false_iff (not_less_iff (length loop.node_ids) 2)
        (none_passes_iff loop.node_ids (λ node_id. member_iff node_id ids))) in
    let all =
      both_iff
        (raises_iff _ (implies_iff (==_iff graph.revision 1) (absent_iff graph.parent_graph_hash)))
        (both_iff
          (raises_iff _
            (implies_iff (less_iff 1 graph.revision) (present_iff graph.parent_graph_hash)))
          (both_iff (raises_iff _ (or_false_iff (filled_iff ids) (repeats_iff ids))) (
            both_iff (raises_iff _ (repeats_iff (map (λ edge. edge.edge_id) graph.edges))) (
              both_iff (each_iff graph.nodes (λ node. raises_iff _ (filled_iff node.source_refs)))
                (both_iff edges loops))))) in
    (
      λ h.
          let (f, (l, ((n, dn), (de, (s, (e, o)))))) = all.0 h in
          record {
            names_parent = (f, l);
            has_nodes = n;
            distinct_nodes = dn;
            distinct_edges = de;
            sourced_nodes = s;
            sound_edges = e;
            sound_loops = o;
          },
      λ g. all.1 (
        g.names_parent.0,
        (
          g.names_parent.1,
          (
            (g.has_nodes, g.distinct_nodes),
            (g.distinct_edges, (g.sourced_nodes, (g.sound_edges, g.sound_loops))),
          ),
        ),
      ),
    )
