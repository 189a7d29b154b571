-- ===== src/Integration/Disagreement/Nodes.antt =====
-- Which nodes of disagreement.py are sound, and what its loops over them accept.
use human_cos_fft1_trial.Prelude.{
  nat_eq, string_eq, bool_eq, option_eq, list_eq, pair_eq, !=_false_iff, >>=-eq-returned, All, Bool,
  Bool-cases, Distinct, List, Memᴰ, String, [], any, ap, both_iff, contains, contains_iff,
  filled_iff, implies_iff, inl, inr, length, map, not, not-false_iff, not_less_iff, raise_if,
  raise_if-eq-returned, raises_iff, refl, refutes, repeats_iff, returned, returned-injective, subst,
  sym, true, ◌↔◌, ◌∷◌, ◌≡◌, ◌≢◌, ◌≤◌,
}
use human_cos_fft1_trial.Integration.Disagreement.{
  DisagreementNodePayload, DissentPosition, assert_node_integrity, check_disagreement_node, is_high,
  is_preserving, preserve_nodes, preserve_positions,
}
use human_cos_fft1_trial.Integration.Disagreement.Collected.{gathered, gathered_all}
use human_cos_fft1_trial.World.Revision.{Frozen}

pub record NodeSound (node : DisagreementNodePayload) : Type 0 where
  pub two_positions : 2 ≤ length node.positions
  pub distinct_positions : Distinct (map (λ item. item.position_id) node.positions)
  pub has_responses : node.source_response_hashes ≢ []
  pub distinct_responses : Distinct node.source_response_hashes
  pub flags_impact :
      any (λ item. is_high item.impact) node.positions ≡ true → node.high_impact ≡ true
  pub stays_open : is_preserving node.resolution_route ≡ true → node.unresolved ≡ true

pub check_disagreement_node_iff :
    (node : DisagreementNodePayload) → (check_disagreement_node node ≡ returned tt) ↔ NodeSound node
unfolding check_disagreement_node
check_disagreement_node_iff node =
    let all = both_iff (raises_iff _ (not_less_iff (length node.positions) 2)) (
      both_iff (raises_iff _ (repeats_iff (map (λ item. item.position_id) node.positions))) (
        both_iff (raises_iff _ (filled_iff node.source_response_hashes)) (
          both_iff (raises_iff _ (repeats_iff node.source_response_hashes)) (
            both_iff (raises_iff _ (implies_iff (λ h. h, λ h. h) (not-false_iff node.high_impact)))
              (raises_iff _ (implies_iff (λ h. h, λ h. h) (not-false_iff node.unresolved))))))) in
    (
      λ h.
          let (t, (p, (r, (d, (f, o))))) = all.0 h in
          record {
            two_positions = t;
            distinct_positions = p;
            has_responses = r;
            distinct_responses = d;
            flags_impact = f;
            stays_open = o;
          },
      λ n. all.1 (
        n.two_positions,
        (
          n.distinct_positions,
          (n.has_responses, (n.distinct_responses, (n.flags_impact, n.stays_open))),
        ),
      ),
    )

module _ (required : List String) where
  -- A required position is marked as high, in a node of high impact.
  abbrev pub Marked : Bool → DissentPosition → Type 0
  Marked node_high position =
      Memᴰ position.position_id required → (is_high position.impact ≡ true) × (node_high ≡ true)

  preserve_positions_iff :
      (node_high : Bool) (positions : List DissentPosition) (preserved found : List String)
      → (preserve_positions required node_high positions preserved ≡ returned found)
        ↔ All (Marked node_high) positions × (gathered required positions preserved ≡ found)
  unfolding preserve_positions
  preserve_positions_iff node_high [] preserved found =
      (λ h. (tt, returned-injective h), λ (_, h). ap returned h)
  preserve_positions_iff node_high (position ∷ positions) preserved found =
      elim (Bool-cases (contains position.position_id required)) [
        | inl wanted ↦
            let rest =
              preserve_positions_iff node_high positions (position.position_id ∷ preserved) found in
            let member = (contains_iff position.position_id required).0 wanted in
            rw wanted (
              λ h.
                  let (u, strong, after) =
                    >>=-eq-returned (raise_if (not (is_high position.impact)) _) _ h in
                  let (v, flagged, end) = >>=-eq-returned (raise_if (not node_high) _) _ after in
                  let (others, same) = rest.0 end in
                  (
                    (
                      λ m. (
                        (not-false_iff _).0 (raise_if-eq-returned _ _ strong),
                        (not-false_iff _).0 (raise_if-eq-returned _ _ flagged),
                      ),
                      others,
                    ),
                    same,
                  ),
              λ ((marked, others), same).
                  let (strong, flagged) = marked member in
                  let end = rest.1 (others, same) in rw (strong, flagged) end,
            )
        | inr other ↦
            let rest = preserve_positions_iff node_high positions preserved found in
            let absent = (refutes _ (contains_iff position.position_id required)).0 other in
            rw other (
              λ h. let (others, same) = rest.0 h in ((λ m. absurd (absent m), others), same),
              λ ((_, others), same). rest.1 (others, same),
            )
      ]

  module _ (sha256 : DisagreementNodePayload → String) where
    -- The node is intact and marks its required positions.
    abbrev pub Preserves : Frozen DisagreementNodePayload → Type 0
    Preserves node =
        ((node.hash ≡ sha256 node.payload) × NodeSound node.payload)
        × All (Marked node.payload.high_impact) node.payload.positions

    pub node_integrity_iff :
        (node : Frozen DisagreementNodePayload)
        → (assert_node_integrity sha256 node ≡ returned tt)
          ↔ (node.hash ≡ sha256 node.payload) × NodeSound node.payload
    unfolding assert_node_integrity
    node_integrity_iff node =
        both_iff (raises_iff _ (!=_false_iff node.hash (sha256 node.payload)))
          (check_disagreement_node_iff node.payload)

    pub preserve_nodes_iff :
        (nodes : List (Frozen DisagreementNodePayload)) (preserved found : List String)
        → (preserve_nodes sha256 required nodes preserved ≡ returned found)
          ↔ All Preserves nodes × (gathered_all required nodes preserved ≡ found)
    unfolding preserve_nodes
    preserve_nodes_iff [] preserved found =
        (λ h. (tt, returned-injective h), λ (_, h). ap returned h)
    preserve_nodes_iff (node ∷ nodes) preserved found =
        let intact = node_integrity_iff node in
        let inner =
          preserve_positions_iff node.payload.high_impact node.payload.positions preserved in
        (
          λ h.
              let (u, sound, rest) = >>=-eq-returned (assert_node_integrity sha256 node) _ h in
              let (between, walked, end) =
                >>=-eq-returned
                  (preserve_positions required node.payload.high_impact node.payload.positions
                    preserved)
                  _ rest in
              let (marked, same) = (inner between).0 walked in
              let (others, last) = (preserve_nodes_iff nodes between found).0 end in
              (
                ((intact.0 sound, marked), others),
                subst (λ b. gathered_all required nodes b ≡ found) (sym same) last,
              ),
          λ (((sound, marked), others), last).
              let first = intact.1 sound in
              let second = (inner _).1 (marked, refl) in
              rw (first, second)
                ((preserve_nodes_iff nodes (gathered required node.payload.positions preserved)
                    found).1
                  (others, last)),
        )
