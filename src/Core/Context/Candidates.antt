-- ===== src/Core/Context/Candidates.antt =====
-- The loop over the candidates of context.py against `context_allows` of visibility.py.
use human_cos_fft1_trial.Prelude.{
  nat_eq, string_eq, bool_eq, option_eq, list_eq, pair_eq, !=_false_iff, >>=-eq-returned, All, Bool,
  Bool-cases, List, Memᴰ, Memᴰ-keep, Memᴰ-map, Memᴰ-of_map, Option, Option-cases, Outcome, String,
  [], arith, false, inl, inr, keep, ltb, ltb→lt, map, raised, raised_ne_returned, refl, returned,
  some, subst, sym, true, ℕ, ◌!=◌, ◌<◌, ◌>>=◌, ◌∙◌, ◌∷◌, ◌≡◌, ◌≤◌,
}
use human_cos_fft1_trial.Core.Context.{
  AdmittedEvidence, ContextError, context_build_error, rebase, revalidate_candidates,
}
use human_cos_fft1_trial.Core.Contracts.{temporal_eq, Case, Evidence}
use human_cos_fft1_trial.Core.Visibility.{
  VisibilityBasis, context_allows, temporal_allows, visibility_allows, visibility_basis,
}
use human_cos_fft1_trial.Runtime.States.{mode_eq}

-- What is kept of a candidate.
abbrev pub binding : AdmittedEvidence → Evidence × ℕ
binding candidate = (candidate.evidence, candidate.revision)

module _ (case : Case) (actor_id role_id : Option String) (reference_time : ℕ) where
  abbrev pub run : List AdmittedEvidence → Outcome ContextError (List AdmittedEvidence)
  run candidates = revalidate_candidates candidates case actor_id role_id reference_time

  abbrev pub allows : AdmittedEvidence → Bool
  allows candidate = context_allows case candidate.evidence actor_id role_id reference_time

  -- What the loop does with one candidate.
  data Verdict (c : AdmittedEvidence) (cs : List AdmittedEvidence) : Type 0 where
    skipped : allows c ≡ false → run (c ∷ cs) ≡ run cs → Verdict c cs
    taken :
        (basis : VisibilityBasis)
        → allows c ≡ true
        → visibility_basis c.evidence.visibility actor_id role_id ≡ some basis
        → run (c ∷ cs) ≡ (run cs >>= λ admitted. returned (rebase c basis ∷ admitted))
        → Verdict c cs
    refused :
        c.evidence.case_id ≡ case.case_id
        → c.revision < 1
        → run (c ∷ cs) ≡ raised (context_build_error "evidence revision must be >= 1")
        → Verdict c cs

  verdict : (c : AdmittedEvidence) (cs : List AdmittedEvidence) → Verdict c cs
  unfolding revalidate_candidates context_allows visibility_allows
  verdict c cs = elim (Bool-cases (c.evidence.case_id != case.case_id)) [
    | inl other ↦ skipped (rw (other, context_allows)) (rw (other, revalidate_candidates))
    | inr same ↦ elim (Bool-cases (ltb c.revision 1)) [
      | inl low ↦
          refused ((!=_false_iff _ _).0 same) (ltb→lt _ _ low)
            (rw (same, low, revalidate_candidates))
      | inr fine ↦ elim (Bool-cases (temporal_allows case c.evidence reference_time)) [
        | inr late ↦
            skipped (rw (same, late, context_allows)) (rw (same, fine, late, revalidate_candidates))
        | inl timely ↦
            elim (Option-cases (visibility_basis c.evidence.visibility actor_id role_id)) [
              | inl hidden ↦
                  skipped (rw (same, timely, hidden, context_allows))
                    (rw (same, fine, timely, hidden, revalidate_candidates))
              | inr (basis, seen) ↦
                  taken basis (rw (same, timely, seen, context_allows)) seen
                    (rw (same, fine, timely, seen, revalidate_candidates))
            ]
      ]
    ]
  ]

  abbrev pub Selected : List AdmittedEvidence → List AdmittedEvidence → Type 0
  Selected candidates admitted =
      (map binding admitted ≡ map binding (keep allows candidates))
      × All (λ a. visibility_basis a.evidence.visibility actor_id role_id ≡ some a.visibility_basis)
          admitted

  -- What the loop returns: the evidence and the revision of every candidate that the case may see, in
  -- the order of the source, each with the basis that the rules give it, whatever the source said.
  pub revalidate-selects :
      (candidates : List AdmittedEvidence) {admitted : List AdmittedEvidence}
      → run candidates ≡ returned admitted
      → Selected candidates admitted
  unfolding revalidate_candidates
  revalidate-selects [] {admitted} h =
      let same : [] ≡ admitted = cc h in subst (Selected []) same (refl, tt)
  revalidate-selects (c ∷ cs) {admitted} h = elim (verdict c cs) [
    | skipped no_sight e ↦ rw no_sight (revalidate-selects cs (sym e ∙ h))
    | taken basis sight seen e ↦
        let (rest, found, end) = >>=-eq-returned (run cs) _ (sym e ∙ h) in
        let (same, bases) = revalidate-selects cs found in
        let whole : rebase c basis ∷ rest ≡ admitted = cc end in
        subst (Selected (c ∷ cs)) whole (rw (sight, same), (seen, bases))
    | refused _ _ e ↦ absurd (raised_ne_returned (sym e ∙ h))
  ]

  -- The loop refuses only a candidate of the case without a valid revision.
  pub revalidate_total :
      (candidates : List AdmittedEvidence)
      → All (λ c. c.evidence.case_id ≡ case.case_id → 1 ≤ c.revision) candidates
      → (admitted : List AdmittedEvidence) × (run candidates ≡ returned admitted)
  unfolding revalidate_candidates
  revalidate_total [] valid = ([], refl)
  revalidate_total (c ∷ cs) valid =
      let (rest, found) = revalidate_total cs valid.1 in
      elim (verdict c cs) [
        | skipped _ e ↦ (rest, e ∙ found)
        | taken basis _ _ e ↦ (rebase c basis ∷ rest, rw (e, found))
        | refused mine low _ ↦ absurd (let fine = valid.0 mine in omega arith)
      ]

  -- An admitted evidence comes from a candidate that the rules allow.
  pub Selected-sound :
      (candidates admitted : List AdmittedEvidence)
      → Selected candidates admitted
      → {a : AdmittedEvidence} → Memᴰ a admitted
      → (c : AdmittedEvidence) × Memᴰ c candidates × (binding c ≡ binding a) × (allows a ≡ true)
  Selected-sound candidates admitted (same, _) {a} m =
      let (c, kept, e) =
        Memᴰ-of_map binding (keep allows candidates)
          (subst (Memᴰ (binding a)) same (Memᴰ-map binding m)) in
      let (listed, sight) = (Memᴰ-keep allows candidates).0 kept in
      (
        c,
        listed,
        e,
        subst (λ b. context_allows case b.0 actor_id role_id reference_time ≡ true) e sight,
      )

  -- A candidate that the rules allow is admitted.
  pub Selected-complete :
      (candidates admitted : List AdmittedEvidence)
      → Selected candidates admitted
      → {c : AdmittedEvidence} → Memᴰ c candidates
      → allows c ≡ true
      → (a : AdmittedEvidence) × Memᴰ a admitted × (binding a ≡ binding c)
  Selected-complete candidates admitted (same, _) {c} m sight =
      let kept = (Memᴰ-keep allows candidates).1 (m, sight) in
      Memᴰ-of_map binding admitted (subst (Memᴰ (binding c)) (sym same) (Memᴰ-map binding kept))
