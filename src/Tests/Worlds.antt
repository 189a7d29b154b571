-- ===== src/Tests/Worlds.antt =====
-- Two revisions of a causal graph of causal.py.
use human_cos_fft1_trial.Prelude.{
  nat_eq, string_eq, bool_eq, option_eq, list_eq, pair_eq, ==_false_iff, All, Memᴰ, Memᴰ-cons,
  String, [], ap, if◌then◌else◌, inl, inr, length, none, refl, returned, some, sym, ◌==◌, ◌↔◌, ◌∙◌,
  ◌∷◌, ◌≡◌, ◌≢◌, ◌⊎◌,
}
use human_cos_fft1_trial.World.Causal.{
  CausalEdge, CausalGraphPayload, CausalNode, actor_node, causal_graph_contract, causes,
  check_causal_graph, freeze_causal_graph,
}
use human_cos_fft1_trial.World.Causal.Graph.{GraphSound, check_causal_graph_iff}
use human_cos_fft1_trial.World.Lineage.{
  History, History-determined, History-numbered, IsIntact, NoCollision, revise, root,
}
use human_cos_fft1_trial.World.Revision.{Frozen, freeze}
use human_cos_fft1_trial.World.State.{ProvenanceRef, evidence_source}

abbrev memo : ProvenanceRef
memo = record { source_class = evidence_source; ref = "e1"; sha256 = "s1" }

abbrev node_of : String → CausalNode
node_of id = record {
  node_id = id;
  node_type = actor_node;
  label = "label";
  source_refs = memo ∷ [];
}

abbrev supply : CausalEdge
supply = record {
  edge_id = "x";
  source_node_id = "a";
  target_node_id = "b";
  edge_type = causes;
  source_refs = memo ∷ [];
}

abbrev first_graph : CausalGraphPayload
first_graph = record {
  graph_id = "g";
  case_id = "case-1";
  case_revision = 1;
  revision = 1;
  parent_graph_hash = none;
  nodes = node_of "a" ∷ node_of "b" ∷ [];
  edges = supply ∷ [];
  feedback_loops = record { loop_id = "l"; node_ids = "a" ∷ "b" ∷ []; description = "d" } ∷ [];
  dissent_node_hashes = [];
  protocol_version = "0.1";
  frozen_at = 5;
}

abbrev second_graph : CausalGraphPayload
second_graph = record first_graph { revision = 2; parent_graph_hash = some "1"; frozen_at = 6 }

-- A hash that tells the two revisions apart.
abbrev digest : CausalGraphPayload → String
digest graph = if graph.revision == 1 then "1" else "2"

abbrev first_frozen : Frozen CausalGraphPayload
first_frozen = record { payload = first_graph; hash = "1" }

abbrev second_frozen : Frozen CausalGraphPayload
second_frozen = record { payload = second_graph; hash = "2" }

first_freezes : freeze_causal_graph digest first_graph none ≡ returned first_frozen
unfolding freeze check_causal_graph
first_freezes = refl

second_freezes :
    freeze_causal_graph digest second_graph (some first_frozen) ≡ returned second_frozen
unfolding freeze check_causal_graph
second_freezes = refl

abbrev both_revisions : History causal_graph_contract digest (second_frozen ∷ first_frozen ∷ [])
both_revisions = revise (root first_graph first_freezes) second_graph second_freezes

History-numbered_example :
    (2 ≡ length (second_frozen ∷ first_frozen ∷ []))
    × All
        (λ s.
          IsIntact causal_graph_contract digest s
          × (causal_graph_contract.identity s.payload
              ≡ causal_graph_contract.identity second_graph))
        (second_frozen ∷ first_frozen ∷ [])
History-numbered_example = History-numbered causal_graph_contract digest both_revisions

two_ne_one : ◌≢◌ {A = String} "2" "1"
two_ne_one = (==_false_iff "2" "1").0 refl

either_revision :
    {s : Frozen CausalGraphPayload}
    → Memᴰ s (second_frozen ∷ first_frozen ∷ [])
    → (s ≡ second_frozen) ⊎ (s ≡ first_frozen)
either_revision m = elim (Memᴰ-cons m) [
  | inl same ↦ inl same
  | inr later ↦ elim (Memᴰ-cons later) [ inl same ↦ inr same | inr nil ↦ elim nil [ ] ]
]

told_apart :
    NoCollision causal_graph_contract digest
      (second_frozen ∷ first_frozen ∷ [])
      (second_frozen ∷ first_frozen ∷ [])
told_apart s t m n same = elim (either_revision m) [
  | inl p ↦ elim (either_revision n) [
    | inl q ↦ ap (λ x. x.payload) (p ∙ sym q)
    | inr q ↦
        absurd
          (two_ne_one (ap (λ x. digest x.payload) (sym p) ∙ same ∙ ap (λ x. digest x.payload) q))
  ]
  | inr p ↦ elim (either_revision n) [
    | inl q ↦ absurd (
        two_ne_one (sym (ap (λ x. digest x.payload) (sym p) ∙ same ∙ ap (λ x. digest x.payload) q)))
    | inr q ↦ ap (λ x. x.payload) (p ∙ sym q)
  ]
]

History-determined_example :
    (second_frozen ∷ first_frozen ∷ []) ≡ (second_frozen ∷ first_frozen ∷ [])
History-determined_example =
    History-determined causal_graph_contract digest both_revisions both_revisions told_apart refl

-- A loop that names one node twice passes.
one_node_loop :
    check_causal_graph (record first_graph {
      feedback_loops = record { loop_id = "l"; node_ids = "a" ∷ "a" ∷ []; description = "d" } ∷ [];
    })
    ≡ returned tt
unfolding check_causal_graph
one_node_loop = refl

check_causal_graph_iff_example :
    (check_causal_graph first_graph ≡ returned tt) ↔ GraphSound first_graph
check_causal_graph_iff_example = check_causal_graph_iff first_graph
