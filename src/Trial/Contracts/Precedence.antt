-- ===== src/Trial/Contracts/Precedence.antt =====
-- Which stop condition controls, by the precedence of contracts.py.
use human_cos_fft1_trial.Prelude.{
  nat_eq, string_eq, bool_eq, option_eq, list_eq, pair_eq, >>=-eq-returned, All, All-Memᴰ,
  Bool-cases, List, Memᴰ, Memᴰ-cons, [], all_distinct, ap, arith, false, get_or, inl, inr, ltb,
  ltb→lt, not, raise_if, raise_if-eq-returned, refl, returned, returned-injective, subst, sym, true,
  ◌↔◌, ◌∙◌, ◌∷◌, ◌≡◌, ◌≢◌, ◌≤◌,
}
use human_cos_fft1_trial.Trial.Contracts.{
  condition_eq, TrialStopCondition, authorized_boundary_reached, input_invalid, least, rank,
  select_controlling_stop, trial_stop_precedence,
}

-- A condition stands at its rank.
rank_place : (c : TrialStopCondition) → get_or trial_stop_precedence (rank c) input_invalid ≡ c
unfolding rank trial_stop_precedence
rank_place input_invalid = refl
rank_place _ = refl

pub rank-injective : (c d : TrialStopCondition) → rank c ≡ rank d → c ≡ d
rank-injective c d e =
    sym (rank_place c) ∙ ap (λ n. get_or trial_stop_precedence n input_invalid) e ∙ rank_place d

-- The least condition stands in the list and ranks below every other.
abbrev pub Controls : TrialStopCondition → List TrialStopCondition → Type 0
Controls c conditions = Memᴰ c conditions × All (λ d. rank c ≤ rank d) conditions

-- One step of the minimum.
least-lower :
    (best c : TrialStopCondition) (cs : List TrialStopCondition)
    → ltb (rank c) (rank best) ≡ true
    → least best (c ∷ cs) ≡ least c cs
unfolding least
least-lower best c cs lower = rw lower

least-higher :
    (best c : TrialStopCondition) (cs : List TrialStopCondition)
    → ltb (rank c) (rank best) ≡ false
    → least best (c ∷ cs) ≡ least best cs
unfolding least
least-higher best c cs higher = rw higher

least-nil : (best : TrialStopCondition) → least best [] ≡ best
unfolding least
least-nil best = refl

least-Controls :
    (best : TrialStopCondition) (cs : List TrialStopCondition)
    → Controls (least best cs) (best ∷ cs)
least-Controls best [] = rw (least-nil best) (Memᴰ.head refl, (omega arith, tt))
least-Controls best (c ∷ cs) =
    let among : TrialStopCondition → Type 0 = λ d. Controls d (best ∷ c ∷ cs) in
    elim (Bool-cases (ltb (rank c) (rank best))) [
      | inl lower ↦
          let (m, below) = least-Controls c cs in
          let less = ltb→lt _ _ lower in
          subst among (sym (least-lower best c cs lower))
            (Memᴰ.tail m, (let first = below.0 in omega arith, below))
      | inr higher ↦
          let (m, below) = least-Controls best cs in
          let more : rank best ≤ rank c = ground arith in
          let place : Memᴰ (least best cs) (best ∷ c ∷ cs) = elim (Memᴰ-cons m) [
            | inl same ↦ Memᴰ.head same
            | inr later ↦ Memᴰ.tail (Memᴰ.tail later)
          ] in
          subst among (sym (least-higher best c cs higher))
            (place, (below.0, (let first = below.0 in omega arith, below.1)))
    ]

-- Two conditions that control lists of the same members are one.
pub Controls-unique :
    (c d : TrialStopCondition) (xs ys : List TrialStopCondition)
    → Controls c xs
    → Controls d ys
    → ((x : TrialStopCondition) → Memᴰ x xs ↔ Memᴰ x ys)
    → c ≡ d
Controls-unique c d xs ys (m, below) (n, under) same =
    let first = All-Memᴰ _ below ((same d).1 n) in
    let second = All-Memᴰ _ under ((same c).0 m) in rank-injective c d (omega arith)

-- The selection returns a condition exactly when the conditions are distinct and the condition is the
-- one of them with the least rank; so it does not depend on the order in which stops were signalled.
pub select_iff :
    (conditions : List TrialStopCondition) (c : TrialStopCondition)
    → (select_controlling_stop conditions ≡ returned c)
      ↔ (all_distinct conditions ≡ true) × Controls c conditions
unfolding select_controlling_stop
select_iff [] c = (λ h. cc, λ h. elim h.1.0 [ ])
select_iff (x ∷ xs) c =
    let found = least-Controls x xs in
    (
      λ h.
          let (u, checked, end) = >>=-eq-returned (raise_if (not (all_distinct (x ∷ xs))) _) _ h in
          let t = raise_if-eq-returned _ _ checked in
          let distinct : all_distinct (x ∷ xs) ≡ true = ground arith in
          (distinct, subst (λ d. Controls d (x ∷ xs)) (returned-injective end) found),
      λ (distinct, controls).
          let same =
            Controls-unique (least x xs) c (x ∷ xs) (x ∷ xs) found controls
              (λ y. (λ m. m, λ m. m)) in
          let test : not (all_distinct (x ∷ xs)) ≡ false = ground arith in rw (test, same),
    )

pub select-finds :
    (conditions : List TrialStopCondition)
    → conditions ≢ []
    → all_distinct conditions ≡ true
    → (c : TrialStopCondition) × (select_controlling_stop conditions ≡ returned c)
      × Controls c conditions
select-finds [] h distinct = absurd (h refl)
select-finds (x ∷ xs) h distinct =
    let found = least-Controls x xs in
    (least x xs, (select_iff (x ∷ xs) (least x xs)).1 (distinct, found), found)

-- Only the boundary comes last.
pub rank-last :
    (c : TrialStopCondition)
    → rank authorized_boundary_reached ≤ rank c
    → c ≡ authorized_boundary_reached
unfolding rank trial_stop_precedence
rank-last authorized_boundary_reached h = refl
rank-last _ h = absurd (omega arith)
