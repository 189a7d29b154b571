-- ===== src/Integration/Disagreement.antt =====
-- runtime/src/human_cos/integration/disagreement.py: disagreement nodes and the gate AT-07, which keeps
-- high-impact dissent. A frozen node is its payload with its hash.
pub mod Collected
pub mod Nodes
pub mod Dissent
use human_cos_fft1_trial.Prelude.{
  nat_eq, string_eq, bool_eq, option_eq, list_eq, pair_eq, Bool, List, Outcome, String, [],
  all_distinct, any, contains, false, if◌then◌else◌, is_empty, keep, length, ltb, map, not,
  raise_if, returned, true, ℕ, ◌!=◌, ◌&&◌, ◌>>=◌, ◌>>◌, ◌∷◌,
}
use human_cos_fft1_trial.Prelude.Texts.{format, join, sorted_set}
use human_cos_fft1_trial.World.Revision.{Frozen}

pub data DisagreementContractError : Type 0 where
  disagreement_contract_error : String → DisagreementContractError

pub data ConflictType : Type 0 where
  evidence_conflict assumption_conflict mechanism_conflict value_conflict scope_conflict
        unknown_conflict :
      ConflictType

pub data ResolutionRoute : Type 0 where
  second_model expert_route more_evidence preserve_unresolved : ResolutionRoute

pub data Impact : Type 0 where
  low medium high : Impact

-- `item.impact == "HIGH"`
abbrev pub is_high : Impact → Bool
is_high high = true
is_high _ = false

-- `self.resolution_route is ResolutionRoute.PRESERVE_UNRESOLVED`
abbrev pub is_preserving : ResolutionRoute → Bool
is_preserving preserve_unresolved = true
is_preserving _ = false

pub record DissentPosition : Type 0 where
  pub position_id : String
  pub source_ref : String
  pub source_hash : String
  pub statement : String
  pub impact : Impact
  pub minority : Bool

pub record DisagreementNodePayload : Type 0 where
  pub node_id : String
  pub case_id : String
  pub case_revision : ℕ
  pub conflict_type : ConflictType
  pub positions : List DissentPosition
  pub resolution_route : ResolutionRoute
  pub unresolved : Bool
  pub high_impact : Bool
  pub source_response_hashes : List String
  pub protocol_version : String
  pub frozen_at : ℕ

-- `DisagreementNode.assert_integrity`, behind the check on its hash.
unfoldable pub check_disagreement_node :
    DisagreementNodePayload → Outcome DisagreementContractError (Unit {0})
check_disagreement_node node = do
  raise_if (ltb (length node.positions) 2)
      (disagreement_contract_error "DisagreementNode requires at least two positions")
  raise_if (not (all_distinct (map (λ item. item.position_id) node.positions)))
      (disagreement_contract_error "DisagreementNode position IDs must be unique")
  raise_if (is_empty node.source_response_hashes)
      (disagreement_contract_error "DisagreementNode requires source response lineage")
  raise_if (not (all_distinct node.source_response_hashes))
      (disagreement_contract_error "source_response_hashes must be unique")
  raise_if (any (λ item. is_high item.impact) node.positions && not node.high_impact)
      (disagreement_contract_error "high-impact position requires high_impact node flag")
  raise_if (is_preserving node.resolution_route && not node.unresolved)
      (disagreement_contract_error "preserve_unresolved resolution route requires unresolved=true")

-- The loop over the positions of a node, over the set of the positions found so far.
unfoldable pub preserve_positions :
    List String
    → Bool
    → List DissentPosition
    → List String
    → Outcome DisagreementContractError (List String)
preserve_positions required node_high [] preserved = returned preserved
preserve_positions required node_high (position ∷ positions) preserved =
    let skipped = preserve_positions required node_high positions preserved in
    let kept = preserve_positions required node_high positions (position.position_id ∷ preserved) in
    if not (contains position.position_id required) then skipped else (do
      raise_if (not (is_high position.impact))
          (disagreement_contract_error "required high-impact dissent position is not marked HIGH")
      raise_if (not node_high) (
          disagreement_contract_error
            "required high-impact dissent is detached from high-impact node")
      kept)

-- `sorted(required - preserved)`
abbrev pub missing_ids : List String → List String → List String
missing_ids required preserved = sorted_set (keep (λ id. not (contains id preserved)) required)

module _ (canonical_document_sha256 : DisagreementNodePayload → String) where
  unfoldable pub assert_node_integrity :
      Frozen DisagreementNodePayload → Outcome DisagreementContractError (Unit {0})
  unfolding check_disagreement_node
  assert_node_integrity node = do
    raise_if (node.hash != canonical_document_sha256 node.payload)
        (disagreement_contract_error "DisagreementNode node_hash does not match payload")
    check_disagreement_node node.payload

  unfoldable pub freeze_disagreement_node :
      DisagreementNodePayload → Outcome DisagreementContractError (Frozen DisagreementNodePayload)
  unfolding assert_node_integrity
  freeze_disagreement_node payload = do
    let node : Frozen DisagreementNodePayload = record {
      payload = payload;
      hash = canonical_document_sha256 payload;
    }
    assert_node_integrity node
    returned node

  -- The loop over the nodes.
  unfoldable pub preserve_nodes :
      List String
      → List (Frozen DisagreementNodePayload)
      → List String
      → Outcome DisagreementContractError (List String)
  unfolding assert_node_integrity preserve_positions
  preserve_nodes required [] preserved = returned preserved
  preserve_nodes required (node ∷ nodes) preserved = do
    assert_node_integrity node
    found ← preserve_positions required node.payload.high_impact node.payload.positions preserved
    preserve_nodes required nodes found

  -- The rest of `assert_dissent_preserved`, for required positions.
  unfoldable pub assert_none_missing :
      List (Frozen DisagreementNodePayload)
      → List String
      → Outcome DisagreementContractError (Unit {0})
  unfolding preserve_nodes sorted_set
  assert_none_missing nodes required = do
    preserved ← preserve_nodes required nodes []
    raise_if (not (is_empty (missing_ids required preserved))) (
        disagreement_contract_error (
          format (
            "AT-07 high-impact dissent was omitted: "
            ∷ join ", " (missing_ids required preserved)
            ∷ [])))

  unfoldable pub assert_dissent_preserved :
      List (Frozen DisagreementNodePayload)
      → List String
      → Outcome DisagreementContractError (Unit {0})
  unfolding assert_none_missing
  assert_dissent_preserved nodes required = do
    raise_if (not (all_distinct required))
        (disagreement_contract_error "required high-impact dissent IDs must be unique")
    elim (is_empty required) [ true ↦ returned tt | false ↦ assert_none_missing nodes required ]
