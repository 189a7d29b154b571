-- ===== src/Integration/Disagreement/Dissent.antt =====
-- What `assert_dissent_preserved` of disagreement.py, the gate AT-07, preserves.
use human_cos_fft1_trial.Prelude.{
  nat_eq, string_eq, bool_eq, option_eq, list_eq, pair_eq, >>=-eq-returned, All, All-Memᴰ,
  All-of_Memᴰ, Bool-cases, Distinct, List, String, [], both_iff, contains, filled_iff, inl, inr,
  is_empty, is_empty_iff, keep, keep-nil_iff, member_iff, not, not-false_iff, raise_if-eq-returned,
  raises_iff, refl, repeats_iff, returned, subst, sym, true, ◌↔◌, ◌≡◌, ◌⊎◌,
}
use human_cos_fft1_trial.Prelude.Texts.{sorted_set-nil_iff}
use human_cos_fft1_trial.Integration.Disagreement.{
  DisagreementNodePayload, assert_dissent_preserved, assert_none_missing, missing_ids,
  preserve_nodes,
}
use human_cos_fft1_trial.Integration.Disagreement.Collected.{
  StandsIn, gathered_all, gathered_all-member,
}
use human_cos_fft1_trial.Integration.Disagreement.Nodes.{Preserves, preserve_nodes_iff}
use human_cos_fft1_trial.World.Revision.{Frozen}

module _ (sha256 : DisagreementNodePayload → String) (required : List String) where
  none_missing_iff :
      (nodes : List (Frozen DisagreementNodePayload))
      → (is_empty (missing_ids required (gathered_all required nodes [])) ≡ true)
        ↔ All (StandsIn required nodes) required
  none_missing_iff nodes =
      let preserved = gathered_all required nodes [] in
      let empty = is_empty_iff (missing_ids required preserved) in
      let sorted = sorted_set-nil_iff (keep (λ id. not (contains id preserved)) required) in
      let kept = keep-nil_iff (λ id. not (contains id preserved)) required in
      (
        λ h. All-of_Memᴰ required λ id wanted.
            let inside = (member_iff id preserved).0 (kept.0 (sorted.0 (empty.0 h)) id wanted) in
            elim ((gathered_all-member required wanted nodes []).0 inside) [
              | inl m ↦ elim m [ ]
              | inr stands ↦ stands
            ],
        λ all. empty.1 (
            sorted.1 (
              kept.1 (λ id wanted. (member_iff id preserved).1 (
                (gathered_all-member required wanted nodes []).1
                  (inr (All-Memᴰ (StandsIn required nodes) all wanted)))))),
      )

  assert_none_missing_iff :
      (nodes : List (Frozen DisagreementNodePayload))
      → (assert_none_missing sha256 nodes required ≡ returned tt)
        ↔ All (Preserves required sha256) nodes × All (StandsIn required nodes) required
  unfolding assert_none_missing
  assert_none_missing_iff nodes =
      let loop = preserve_nodes_iff required sha256 nodes [] in
      let missing = none_missing_iff nodes in
      (
        λ h.
            let (found, walked, rest) =
              >>=-eq-returned (preserve_nodes sha256 required nodes []) _ h in
            let (preserving, same) = (loop found).0 walked in
            let none_lost : is_empty (missing_ids required found) ≡ true =
              (not-false_iff _).0 (raise_if-eq-returned _ _ rest) in
            (
              preserving,
              missing.0
                  (subst (λ f. is_empty (missing_ids required f) ≡ true) (sym same) none_lost),
            ),
        λ (preserving, standing).
            let walked = (loop _).1 (preserving, refl) in
            let none_lost = missing.1 standing in rw (walked, none_lost),
      )

  -- The gate AT-07 passes exactly when the required positions are distinct and, unless there are none,
  -- every node is intact and marks its required positions as high in a node of high impact, and every
  -- required position stands in one of the nodes.
  pub assert_dissent_preserved_iff :
      (nodes : List (Frozen DisagreementNodePayload))
      → (assert_dissent_preserved sha256 nodes required ≡ returned tt)
        ↔ Distinct required
          × ((required ≡ [])
              ⊎ All (Preserves required sha256) nodes × All (StandsIn required nodes) required)
  unfolding assert_dissent_preserved
  assert_dissent_preserved_iff nodes =
      let distinct = raises_iff _ (repeats_iff required) in
      let none_missing = assert_none_missing_iff nodes in
      elim (Bool-cases (is_empty required)) [
        | inl nothing ↦
            let all = both_iff {Q = Unit {0}} distinct (λ h. tt, λ h. refl) in
            rw nothing
              (λ h. ((all.0 h).0, inl ((is_empty_iff required).0 nothing)), λ (d, _). all.1 (d, tt))
        | inr something ↦
            let all = both_iff distinct none_missing in
            let filled = (filled_iff required).0 something in
            rw something (
              λ h. ((all.0 h).0, inr (all.0 h).1),
              λ (d, w). elim w [ inl nil ↦ absurd (filled nil) | inr s ↦ all.1 (d, s) ],
            )
      ]
