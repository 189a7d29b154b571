-- ===== src/Core/Visibility/Rules.antt =====
-- What the rules of visibility.py admit.
use human_cos_fft1_trial.Prelude.{
  nat_eq, string_eq, bool_eq, option_eq, list_eq, pair_eq, ==_false_iff, ==_iff, Bool-cases, List,
  Memᴰ, Option, String, arith, contains_iff, false, inl, inr, ltb, none, refl, some, true, ℕ, ◌==◌,
  ◌||◌, ◌↔◌, ◌≡◌, ◌≢◌, ◌≤◌, ◌⊎◌,
}
use human_cos_fft1_trial.Core.Contracts.{temporal_eq, Case, Evidence, Visibility, pre_t0}
use human_cos_fft1_trial.Core.Visibility.{
  is_listed, is_over, temporal_allows, visibility_allows, visibility_basis,
}
use human_cos_fft1_trial.Runtime.States.{mode_eq, historical_blind_eval}

abbrev pub IsListed : Option String → List String → Type 0
IsListed id ids = (i : String) × (id ≡ some i) × Memᴰ i ids

is_listed_iff :
    (id : Option String) (ids : List String) → (is_listed id ids ≡ true) ↔ IsListed id ids
is_listed_iff none ids = (λ h. absurd (cc), λ (i, e, m). absurd (cc))
is_listed_iff (some i) ids = (
  λ h. (i, refl, (contains_iff i ids).0 h),
  λ (j, e, m). (contains_iff i ids).1 (let same : i ≡ j = cc e in rw same m),
)

-- Access is denied by default: there is a basis exactly when the evidence is public, or names the
-- actor, or names the role.
pub visibility_allows_iff :
    (visibility : Visibility) (actor_id role_id : Option String)
    → (visibility_allows visibility actor_id role_id ≡ true)
      ↔ (visibility.public ≡ true)
        ⊎ IsListed actor_id visibility.actor_ids
        ⊎ IsListed role_id visibility.role_ids
unfolding visibility_allows visibility_basis
visibility_allows_iff visibility actor_id role_id =
    let by_actor = is_listed_iff actor_id visibility.actor_ids in
    let by_role = is_listed_iff role_id visibility.role_ids in
    (
      λ h. elim (Bool-cases visibility.public) [
        | inl seen ↦ inl seen
        | inr hidden ↦ elim (Bool-cases (is_listed actor_id visibility.actor_ids)) [
          | inl named ↦ inr (inl (by_actor.0 named))
          | inr not_so ↦ inr (inr (by_role.0 (ground arith)))
        ]
      ],
      λ h. elim h [
        | inl seen ↦ ground arith
        | inr listed ↦ elim listed [
          | inl a ↦ let named = by_actor.1 a in ground arith
          | inr r ↦ let named = by_role.1 r in ground arith
        ]
      ],
    )

-- The window of an evidence at a cutoff.
pub record IsOpen (evidence : Evidence) (cutoff : ℕ) : Type 0 where
  pub stamped : evidence.source_timestamp ≤ cutoff
  pub begun : evidence.available_from ≤ cutoff
  pub lasting : (until : ℕ) → evidence.available_until ≡ some until → cutoff ≤ until

-- A blind evaluation sees what was known before T0 and open at T0; any other case sees what is open
-- and ingested at the reference time.
abbrev pub InTime : Case → Evidence → ℕ → Type 0
InTime case evidence as_of =
    (case.case_mode ≡ historical_blind_eval)
      × (evidence.temporal_class ≡ pre_t0)
      × IsOpen evidence case.T0
    ⊎ (case.case_mode ≢ historical_blind_eval)
      × IsOpen evidence as_of
      × (evidence.ingested_at ≤ as_of)

is_over_iff :
    (until : Option ℕ) (cutoff : ℕ)
    → (is_over until cutoff ≡ false) ↔ ((u : ℕ) → until ≡ some u → cutoff ≤ u)
is_over_iff none cutoff = (λ h u e. absurd (cc), λ h. refl)
is_over_iff (some u) cutoff =
    (λ h v e. let same : u ≡ v = cc e in ground arith, λ h. let far = h u refl in ground arith)

IsOpen-iff :
    (evidence : Evidence) (cutoff : ℕ)
    → ((ltb cutoff evidence.source_timestamp
          || (ltb cutoff evidence.available_from || is_over evidence.available_until cutoff))
        ≡ false)
      ↔ IsOpen evidence cutoff
IsOpen-iff evidence cutoff =
    let over = is_over_iff evidence.available_until cutoff in
    (
      λ h. record { stamped = ground arith; begun = ground arith; lasting = over.0 (ground arith) },
      λ o. let lasts = over.1 o.lasting in let s = o.stamped in let b = o.begun in ground arith,
    )

-- The tests of the code on the two kinds of cases.
historical_tests :
    (case : Case) (evidence : Evidence) (as_of : ℕ)
    → (case.case_mode == historical_blind_eval) ≡ true
    → (temporal_allows case evidence as_of ≡ true)
      ↔ ((evidence.temporal_class == pre_t0) ≡ true)
        × ((ltb case.T0 evidence.source_timestamp
              || (ltb case.T0 evidence.available_from || is_over evidence.available_until case.T0))
            ≡ false)
unfolding temporal_allows
historical_tests case evidence as_of h =
    rw (h, temporal_allows) (λ e. (ground arith, ground arith), λ e. ground arith)

other_tests :
    (case : Case) (evidence : Evidence) (as_of : ℕ)
    → (case.case_mode == historical_blind_eval) ≡ false
    → (temporal_allows case evidence as_of ≡ true)
      ↔ ((ltb as_of evidence.source_timestamp
            || (ltb as_of evidence.available_from || is_over evidence.available_until as_of))
          ≡ false)
        × (evidence.ingested_at ≤ as_of)
unfolding temporal_allows
other_tests case evidence as_of h =
    rw (h, temporal_allows) (λ e. (ground arith, ground arith), λ e. ground arith)

-- An evidence is in time exactly when its window is open at the cutoff of the case: at T0, and only
-- for evidence from before T0, in a blind evaluation, whatever the reference time; at the reference
-- time, and only once it is ingested, in any other case.
pub temporal_allows_iff :
    (case : Case) (evidence : Evidence) (as_of : ℕ)
    → (temporal_allows case evidence as_of ≡ true) ↔ InTime case evidence as_of
temporal_allows_iff case evidence as_of =
    let mode = ==_iff case.case_mode historical_blind_eval in
    let class = ==_iff evidence.temporal_class pre_t0 in
    elim (Bool-cases (case.case_mode == historical_blind_eval)) [
      | inl h ↦
          let tests = historical_tests case evidence as_of h in
          let window = IsOpen-iff evidence case.T0 in
          (
            λ e. let t = tests.0 e in inl (mode.0 h, class.0 t.0, window.0 t.1),
            λ i. elim i [
              | inl (m, c, o) ↦ tests.1 (class.1 c, window.1 o)
              | inr (m, _, _) ↦ absurd (m (mode.0 h))
            ],
          )
      | inr h ↦
          let tests = other_tests case evidence as_of h in
          let window = IsOpen-iff evidence as_of in
          (
            λ e. let t = tests.0 e in inr ((==_false_iff _ _).0 h, window.0 t.0, t.1),
            λ i. elim i [
              | inl (m, _, _) ↦ absurd ((==_false_iff _ _).0 h m)
              | inr (m, o, n) ↦ tests.1 (window.1 o, n)
            ],
          )
    ]
