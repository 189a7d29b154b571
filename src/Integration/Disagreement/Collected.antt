-- ===== src/Integration/Disagreement/Collected.antt =====
-- The positions that the loops of `assert_dissent_preserved` of disagreement.py collect.
use human_cos_fft1_trial.Prelude.{
  nat_eq, string_eq, bool_eq, option_eq, list_eq, pair_eq, Bool-cases, List, Memᴰ, Memᴰ-cons,
  String, [], ap, contains, contains_iff, if◌then◌else◌, inl, inr, refl, refutes, subst, sym, ◌↔◌,
  ◌∙◌, ◌∷◌, ◌≡◌, ◌⊎◌,
}
use human_cos_fft1_trial.Integration.Disagreement.{DisagreementNodePayload, DissentPosition}
use human_cos_fft1_trial.World.Revision.{Frozen}

module _ (required : List String) where
  -- The required positions, on top of those found so far.
  abbrev pub gathered : List DissentPosition → List String → List String
  gathered [] preserved = preserved
  gathered (position ∷ positions) preserved = gathered positions (
      if contains position.position_id required
      then position.position_id ∷ preserved
      else preserved)

  abbrev pub gathered_all : List (Frozen DisagreementNodePayload) → List String → List String
  gathered_all [] preserved = preserved
  gathered_all (node ∷ nodes) preserved =
      gathered_all nodes (gathered node.payload.positions preserved)

  -- The position stands in one of the nodes.
  abbrev pub StandsIn : List (Frozen DisagreementNodePayload) → String → Type 0
  StandsIn nodes id =
      (node : Frozen DisagreementNodePayload) × Memᴰ node nodes
      × ((position : DissentPosition) × Memᴰ position node.payload.positions
          × (position.position_id ≡ id))

  abbrev pub At : List DissentPosition → String → Type 0
  At positions id =
      (position : DissentPosition) × Memᴰ position positions × (position.position_id ≡ id)

  gathered-member :
      {id : String}
      → Memᴰ id required
      → (positions : List DissentPosition) (preserved : List String)
      → Memᴰ id (gathered positions preserved) ↔ Memᴰ id preserved ⊎ At positions id
  gathered-member wanted [] preserved =
      (λ m. inl m, λ w. elim w [ inl m ↦ m | inr (_, m, _) ↦ elim m [ ] ])
  gathered-member {id} wanted (position ∷ positions) preserved =
      elim (Bool-cases (contains position.position_id required)) [
        | inl found ↦
            let rest = gathered-member wanted positions (position.position_id ∷ preserved) in
            rw found (
              λ m. elim (rest.0 m) [
                | inl here_or_old ↦ elim (Memᴰ-cons here_or_old) [
                  | inl same ↦ inr (position, Memᴰ.head refl, sym same)
                  | inr old ↦ inl old
                ]
                | inr (p, later, same) ↦ inr (p, Memᴰ.tail later, same)
              ],
              λ w. elim w [
                | inl old ↦ rest.1 (inl (Memᴰ.tail old))
                | inr (p, at, same) ↦ elim (Memᴰ-cons at) [
                  | inl this ↦ rest.1 (inl (Memᴰ.head (sym same ∙ ap (λ q. q.position_id) this)))
                  | inr later ↦ rest.1 (inr (p, later, same))
                ]
              ],
            )
        | inr other ↦
            let rest = gathered-member wanted positions preserved in
            let absent = (refutes _ (contains_iff position.position_id required)).0 other in
            rw other (
              λ m. elim (rest.0 m) [
                | inl old ↦ inl old
                | inr (p, later, same) ↦ inr (p, Memᴰ.tail later, same)
              ],
              λ w. elim w [
                | inl old ↦ rest.1 (inl old)
                | inr (p, at, same) ↦ elim (Memᴰ-cons at) [
                  | inl this ↦ absurd (
                      absent (
                        subst (λ i. Memᴰ i required) (sym same ∙ ap (λ q. q.position_id) this)
                          wanted))
                  | inr later ↦ rest.1 (inr (p, later, same))
                ]
              ],
            )
      ]

  pub gathered_all-member :
      {id : String}
      → Memᴰ id required
      → (nodes : List (Frozen DisagreementNodePayload)) (preserved : List String)
      → Memᴰ id (gathered_all nodes preserved) ↔ Memᴰ id preserved ⊎ StandsIn nodes id
  gathered_all-member wanted [] preserved =
      (λ m. inl m, λ w. elim w [ inl m ↦ m | inr (_, m, _) ↦ elim m [ ] ])
  gathered_all-member {id} wanted (node ∷ nodes) preserved =
      let rest = gathered_all-member wanted nodes (gathered node.payload.positions preserved) in
      let inner = gathered-member wanted node.payload.positions preserved in
      (
        λ m. elim (rest.0 m) [
          | inl first ↦ elim (inner.0 first) [
            | inl old ↦ inl old
            | inr at ↦ inr (node, Memᴰ.head refl, at)
          ]
          | inr (n, later, at) ↦ inr (n, Memᴰ.tail later, at)
        ],
        λ w. elim w [
          | inl old ↦ rest.1 (inl (inner.1 (inl old)))
          | inr (n, among, at) ↦ elim (Memᴰ-cons among) [
            | inl this ↦
                rest.1 (inl (inner.1 (inr (subst (λ k. At k.payload.positions id) this at))))
            | inr later ↦ rest.1 (inr (n, later, at))
          ]
        ],
      )
