-- ===== src/Core/Context/Order.antt =====
-- The sort by evidence id of context.py.
use human_cos_fft1_trial.Prelude.{
  nat_eq, string_eq, bool_eq, option_eq, list_eq, pair_eq, ==_false_iff, All, Bool, Bool-cases,
  List, Memᴰ, Memᴰ-cons, [], affirmed_iff, all_distinct, and_true_iff, contains, false, inl, inr,
  map, or_false_iff, refl, sym, true, ◌↔◌, ◌∷◌, ◌≡◌, ◌≢◌,
}
use human_cos_fft1_trial.Prelude.TextOrder.{text_ltb, text_ltb_total, text_ltb_trans}
use human_cos_fft1_trial.Core.Context.{AdmittedEvidence, evidence_id_of, insert_by_id, sort_by_id}

-- Each id is below the next one.
abbrev pub IsAscending : List AdmittedEvidence → Type 0
IsAscending [] = Unit
IsAscending (x ∷ xs) =
    All (λ y. text_ltb (evidence_id_of x) (evidence_id_of y) ≡ true) xs × IsAscending xs

-- No two have one id.
abbrev pub IsDistinct : List AdmittedEvidence → Type 0
IsDistinct [] = Unit
IsDistinct (x ∷ xs) = All (λ y. evidence_id_of x ≢ evidence_id_of y) xs × IsDistinct xs

abbrev is_below : AdmittedEvidence → AdmittedEvidence → Bool
is_below x y = text_ltb (evidence_id_of x) (evidence_id_of y)

mem-insert_by_id_of :
    (a x : AdmittedEvidence) (xs : List AdmittedEvidence)
    → Memᴰ a (insert_by_id x xs)
    → Memᴰ a (x ∷ xs)
unfolding insert_by_id
mem-insert_by_id_of a x [] m = m
mem-insert_by_id_of a x (y ∷ ys) m = elim (Bool-cases (is_below y x)) [
  | inl below ↦ elim (Memᴰ-cons (rw below at m)) [
    | inl same ↦ Memᴰ.tail (Memᴰ.head same)
    | inr later ↦ elim (Memᴰ-cons (mem-insert_by_id_of a x ys later)) [
      | inl same ↦ Memᴰ.head same
      | inr old ↦ Memᴰ.tail (Memᴰ.tail old)
    ]
  ]
  | inr above ↦ rw above at m
]

mem-insert_by_id :
    (a x : AdmittedEvidence) (xs : List AdmittedEvidence)
    → Memᴰ a (x ∷ xs)
    → Memᴰ a (insert_by_id x xs)
unfolding insert_by_id
mem-insert_by_id a x [] m = m
mem-insert_by_id a x (y ∷ ys) m = elim (Bool-cases (is_below y x)) [
  | inl below ↦ rw below (elim (Memᴰ-cons m) [
    | inl same ↦ Memᴰ.tail (mem-insert_by_id a x ys (Memᴰ.head same))
    | inr old ↦ elim (Memᴰ-cons old) [
      | inl same ↦ Memᴰ.head same
      | inr older ↦ Memᴰ.tail (mem-insert_by_id a x ys (Memᴰ.tail older))
    ]
  ])
  | inr above ↦ rw above m
]

-- The sort keeps the items.
pub mem-sort_by_id :
    (a : AdmittedEvidence) (xs : List AdmittedEvidence) → Memᴰ a (sort_by_id xs) ↔ Memᴰ a xs
unfolding sort_by_id
mem-sort_by_id a [] = (λ m. m, λ m. m)
mem-sort_by_id a (x ∷ xs) =
    let rest = mem-sort_by_id a xs in
    (
      λ m. elim (Memᴰ-cons (mem-insert_by_id_of a x (sort_by_id xs) m)) [
        | inl same ↦ Memᴰ.head same
        | inr later ↦ Memᴰ.tail (rest.0 later)
      ],
      λ m.
          mem-insert_by_id a x (sort_by_id xs) (elim (Memᴰ-cons m) [
            | inl same ↦ Memᴰ.head same
            | inr later ↦ Memᴰ.tail (rest.1 later)
          ]),
    )

All-insert_by_id :
    (P : AdmittedEvidence → Type 0) (x : AdmittedEvidence) (xs : List AdmittedEvidence)
    → P x
    → All P xs
    → All P (insert_by_id x xs)
unfolding insert_by_id
All-insert_by_id P x [] p ps = (p, tt)
All-insert_by_id P x (y ∷ ys) p ps = elim (Bool-cases (is_below y x)) [
  | inl below ↦ rw below (ps.0, All-insert_by_id P x ys p ps.1)
  | inr above ↦ rw above (p, ps)
]

All-sort_by_id :
    (P : AdmittedEvidence → Type 0) (xs : List AdmittedEvidence) → All P xs → All P (sort_by_id xs)
unfolding sort_by_id
All-sort_by_id P [] ps = tt
All-sort_by_id P (x ∷ xs) ps = All-insert_by_id P x (sort_by_id xs) ps.0 (All-sort_by_id P xs ps.1)

below-All :
    (x y : AdmittedEvidence) (ys : List AdmittedEvidence)
    → is_below x y ≡ true
    → All (λ z. is_below y z ≡ true) ys
    → All (λ z. is_below x z ≡ true) ys
below-All x y [] first rest = tt
below-All x y (z ∷ zs) first rest = (
  text_ltb_trans (evidence_id_of x) (evidence_id_of y) (evidence_id_of z) first rest.0,
  below-All x y zs first rest.1,
)

insert_by_id-IsAscending :
    (x : AdmittedEvidence) (xs : List AdmittedEvidence)
    → All (λ y. evidence_id_of x ≢ evidence_id_of y) xs
    → IsAscending xs
    → IsAscending (insert_by_id x xs)
unfolding insert_by_id
insert_by_id-IsAscending x [] new up = (tt, tt)
insert_by_id-IsAscending x (y ∷ ys) new up = elim (Bool-cases (is_below y x)) [
  | inl below ↦ rw below (
    All-insert_by_id (λ z. is_below y z ≡ true) x ys below up.0,
    insert_by_id-IsAscending x ys new.1 up.1,
  )
  | inr above ↦
      let first = text_ltb_total (evidence_id_of y) (evidence_id_of x) above (λ e. new.0 (sym e)) in
      rw above ((first, below-All x y ys first up.0), up)
]

-- The sort of items with different ids is strictly ascending.
pub sort_by_id-IsAscending :
    (xs : List AdmittedEvidence) → IsDistinct xs → IsAscending (sort_by_id xs)
unfolding sort_by_id
sort_by_id-IsAscending [] distinct = tt
sort_by_id-IsAscending (x ∷ xs) distinct =
    insert_by_id-IsAscending x (sort_by_id xs)
      (All-sort_by_id (λ y. evidence_id_of x ≢ evidence_id_of y) xs distinct.0)
      (sort_by_id-IsAscending xs distinct.1)

-- The code's test on the ids.
new_iff :
    (x : AdmittedEvidence) (xs : List AdmittedEvidence)
    → (contains (evidence_id_of x) (map evidence_id_of xs) ≡ false)
      ↔ All (λ y. evidence_id_of x ≢ evidence_id_of y) xs
new_iff x [] = (λ h. tt, λ h. refl)
new_iff x (y ∷ ys) =
    or_false_iff (==_false_iff (evidence_id_of x) (evidence_id_of y)) (new_iff x ys)

pub all_distinct_iff :
    (xs : List AdmittedEvidence) → (all_distinct (map evidence_id_of xs) ≡ true) ↔ IsDistinct xs
all_distinct_iff [] = (λ h. tt, λ h. refl)
all_distinct_iff (x ∷ xs) = and_true_iff (affirmed_iff _ (new_iff x xs)) (all_distinct_iff xs)
