-- ===== src/Trial/Ledger/Artifacts.antt =====
-- The artifacts that the ledger of stop_engine.py holds: each once.
use human_cos_fft1_trial.Prelude.{
  nat_eq, string_eq, bool_eq, option_eq, list_eq, pair_eq, ==_false_iff, Bool-cases, List, Memᴰ,
  Memᴰ-cons, [], all_distinct, arith, contains, contains_iff, false, inl, inr, refl, returned,
  subst, sym, true, ◌++◌, ◌==◌, ◌||◌, ◌↔◌, ◌∷◌, ◌≡◌, ◌⊎◌,
}
use human_cos_fft1_trial.Runtime.States.{mode_eq}
use human_cos_fft1_trial.Trial.Contracts.{artifact_eq, TrialArtifactRef}
use human_cos_fft1_trial.Trial.Ledger.{
  TrialStopLedger, add_artifacts, assert_open, record_artifacts,
}

-- An item that is added behind a list is found in it.
contains-snoc :
    (y x : TrialArtifactRef) (xs : List TrialArtifactRef)
    → contains y (xs ++ (x ∷ [])) ≡ (contains y xs || y == x)
contains-snoc y x [] = ground arith
contains-snoc y x (z ∷ zs) = let rest = contains-snoc y x zs in rw rest (ground arith)

all_distinct-snoc :
    (x : TrialArtifactRef) (xs : List TrialArtifactRef)
    → all_distinct xs ≡ true
    → contains x xs ≡ false
    → all_distinct (xs ++ (x ∷ [])) ≡ true
all_distinct-snoc x [] distinct new = refl
all_distinct-snoc x (y ∷ ys) distinct new =
    let rest = all_distinct-snoc x ys (ground arith) (ground arith) in
    let apart : (y == x) ≡ false =
      (==_false_iff y x).1
        (λ same. (==_false_iff x x).0 (subst (λ z. (x == z) ≡ false) same (ground arith)) refl) in
    let found = contains-snoc y x ys in rw (found, rest) (ground arith)

-- A list of distinct artifacts that `add_artifacts` extends.
pub add_artifacts-distinct :
    (produced items : List TrialArtifactRef)
    → all_distinct produced ≡ true
    → all_distinct (add_artifacts produced items) ≡ true
unfolding add_artifacts
add_artifacts-distinct produced [] distinct = distinct
add_artifacts-distinct produced (item ∷ items) distinct =
    elim (Bool-cases (contains item produced)) [
      | inl known ↦ rw known (add_artifacts-distinct produced items distinct)
      | inr new ↦ rw new (
          add_artifacts-distinct (produced ++ (item ∷ [])) items
            (all_distinct-snoc item produced distinct new))
    ]

-- Adding loses nothing and takes every item.
Memᴰ-snoc :
    {a : TrialArtifactRef} (x : TrialArtifactRef) (xs : List TrialArtifactRef)
    → Memᴰ a (xs ++ (x ∷ [])) ↔ Memᴰ a xs ⊎ (a ≡ x)
Memᴰ-snoc x [] = (
  λ m. elim (Memᴰ-cons m) [ inl same ↦ inr same | inr later ↦ inl later ],
  λ m. elim m [ inl before ↦ elim before [ ] | inr same ↦ Memᴰ.head same ],
)
Memᴰ-snoc x (y ∷ ys) = (
  λ m. elim (Memᴰ-cons m) [
    | inl same ↦ inl (Memᴰ.head same)
    | inr later ↦ elim ((Memᴰ-snoc x ys).0 later) [
      | inl before ↦ inl (Memᴰ.tail before)
      | inr same ↦ inr same
    ]
  ],
  λ m. elim m [
    | inl before ↦ elim (Memᴰ-cons before) [
      | inl same ↦ Memᴰ.head same
      | inr later ↦ Memᴰ.tail ((Memᴰ-snoc x ys).1 (inl later))
    ]
    | inr same ↦ Memᴰ.tail ((Memᴰ-snoc x ys).1 (inr same))
  ],
)

add_artifacts_iff :
    {a : TrialArtifactRef} (produced items : List TrialArtifactRef)
    → Memᴰ a (add_artifacts produced items) ↔ Memᴰ a produced ⊎ Memᴰ a items
unfolding add_artifacts
add_artifacts_iff produced [] =
    (λ m. inl m, λ m. elim m [ inl before ↦ before | inr none_left ↦ elim none_left [ ] ])
add_artifacts_iff {a} produced (item ∷ items) = elim (Bool-cases (contains item produced)) [
  | inl known ↦
      let there = (contains_iff item produced).0 known in
      let rest = add_artifacts_iff {a = a} produced items in
      rw known (
        λ m. elim (rest.0 m) [ inl before ↦ inl before | inr later ↦ inr (Memᴰ.tail later) ],
        λ m. elim m [
          | inl before ↦ rest.1 (inl before)
          | inr given ↦ elim (Memᴰ-cons given) [
            | inl same ↦ rest.1 (inl (subst (λ x. Memᴰ x produced) (sym same) there))
            | inr later ↦ rest.1 (inr later)
          ]
        ],
      )
  | inr new ↦
      let rest = add_artifacts_iff {a = a} (produced ++ (item ∷ [])) items in
      let longer = Memᴰ-snoc {a = a} item produced in
      rw new (
        λ m. elim (rest.0 m) [
          | inl before ↦ elim (longer.0 before) [
            | inl older ↦ inl older
            | inr same ↦ inr (Memᴰ.head same)
          ]
          | inr later ↦ inr (Memᴰ.tail later)
        ],
        λ m. elim m [
          | inl before ↦ rest.1 (inl (longer.1 (inl before)))
          | inr given ↦ elim (Memᴰ-cons given) [
            | inl same ↦ rest.1 (inl (longer.1 (inr same)))
            | inr later ↦ rest.1 (inr later)
          ]
        ],
      )
]

-- Recording artifacts in an open ledger keeps its other facts, gives a list that holds exactly the
-- artifacts from before and the given ones, and holds none twice if none was there twice.
pub record_artifacts_lem :
    (ledger : TrialStopLedger) (artifacts : List TrialArtifactRef)
    → ledger.terminal_frozen ≡ false
    → (after : TrialStopLedger) × (record_artifacts ledger artifacts ≡ returned after)
      × ((a : TrialArtifactRef)
          → Memᴰ a after.produced_artifacts ↔ Memᴰ a ledger.produced_artifacts ⊎ Memᴰ a artifacts)
      × (all_distinct ledger.produced_artifacts ≡ true
          → all_distinct after.produced_artifacts ≡ true)
      × (after.steps ≡ ledger.steps)
      × (after.signals ≡ ledger.signals)
      × (after.manifest ≡ ledger.manifest)
unfolding record_artifacts assert_open
record_artifacts_lem ledger artifacts openly = (
  record ledger { produced_artifacts = add_artifacts ledger.produced_artifacts artifacts },
  rw openly,
  λ a. add_artifacts_iff ledger.produced_artifacts artifacts,
  λ distinct. add_artifacts-distinct ledger.produced_artifacts artifacts distinct,
  refl,
  refl,
  refl,
)
