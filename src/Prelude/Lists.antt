-- ===== src/Prelude/Lists.antt =====
-- Lists over the native numbers, and membership as the code tests it.
use mathlib.Core.Path.{subst}
use Prim.Native.Nat.{ℕ, zero, suc}
use mathlib.Core.Bool.{Bool, true, false, not, ◌&&◌, ◌||◌, false≢true}
use mathlib.Core.Option.{Option, none, some}
use mathlib.Core.List.{List, [], ◌∷◌, map, Memᴰ}
use mathlib.Core.List.Memᴰ
use mathlib.Core.Path.{◌≡◌, refl, sym, ap, subst, ◌∙◌}
use mathlib.Core.Logic.{◌↔◌, ◌⊎◌, inl, inr}
use native.Mathlib.Omega.{arith}
use human_cos_fft1_trial.Prelude.Tests.{if◌then◌else◌, Bool-cases}
use human_cos_fft1_trial.Prelude.Equality.{Eq}

module _ {ℓ} {A : Type ℓ} where
  abbrev pub length : List A → ℕ
  length [] = 0
  length (x ∷ xs) = suc (length xs)

  abbrev pub get_or : List A → ℕ → A → A
  get_or [] i d = d
  get_or (x ∷ xs) zero d = x
  get_or (x ∷ xs) (suc i) d = get_or xs i d

  -- `any(test(x) for x in xs)` and `all(...)`.
  abbrev pub any : (A → Bool) → List A → Bool
  any test [] = false
  any test (x ∷ xs) = test x || any test xs

  abbrev pub all : (A → Bool) → List A → Bool
  all test [] = true
  all test (x ∷ xs) = test x && all test xs

  -- `tuple(x for x in xs if test(x))`
  abbrev pub keep : (A → Bool) → List A → List A
  keep test [] = []
  keep test (x ∷ xs) = if test x then x ∷ keep test xs else keep test xs

  -- `next(x for x in xs if test(x))`
  abbrev pub find_first : (A → Bool) → List A → Option A
  find_first test [] = none
  find_first test (x ∷ xs) = if test x then some x else find_first test xs

  abbrev pub is_empty : List A → Bool
  is_empty [] = true
  is_empty (x ∷ xs) = false

  -- `xs[-1] if xs else None`
  abbrev pub get_last? : List A → Option A
  get_last? [] = none
  get_last? (x ∷ []) = some x
  get_last? (x ∷ y ∷ xs) = get_last? (y ∷ xs)

  abbrev pub All {κ} : (A → Type κ) → List A → Type κ
  All P [] = Unit
  All P (x ∷ xs) = P x × All P xs

module _ {ℓ} {A : Type ℓ} ⦃e : Eq A⦄ where
  -- `x in xs`
  abbrev pub contains : A → List A → Bool
  contains x [] = false
  contains x (y ∷ ys) = e.equals x y || contains x ys

  -- `len(xs) == len(set(xs))`
  abbrev pub all_distinct : List A → Bool
  all_distinct [] = true
  all_distinct (x ∷ xs) = not (contains x xs) && all_distinct xs

  contains_of_Memᴰ : (x : A) (xs : List A) → Memᴰ x xs → contains x xs ≡ true
  contains_of_Memᴰ x [] m = elim m [ ]
  contains_of_Memᴰ x (y ∷ ys) (Memᴰ.head same) = rw ((e.decides x y).1 same)
  contains_of_Memᴰ x (y ∷ ys) (Memᴰ.tail m) = let later = contains_of_Memᴰ x ys m in ground arith

  -- The test decides membership.
  pub contains_iff : (x : A) (xs : List A) → (contains x xs ≡ true) ↔ Memᴰ x xs
  contains_iff x [] = (λ h. cc, λ m. elim m [ ])
  contains_iff x (y ∷ ys) = (
    λ h. elim (Bool-cases (e.equals x y)) [
      | inl same ↦ Memᴰ.head ((e.decides x y).0 same)
      | inr other ↦ Memᴰ.tail ((contains_iff x ys).0 (ground arith))
    ],
    contains_of_Memᴰ x (y ∷ ys),
  )

module _ {ℓ} {A : Type ℓ} where
  abbrev pub take : ℕ → List A → List A
  take zero xs = []
  take (suc n) [] = []
  take (suc n) (x ∷ xs) = x ∷ take n xs

module _ {ℓ} {A : Type ℓ} where
  pub is_empty_iff : (xs : List A) → (is_empty xs ≡ true) ↔ (xs ≡ [])
  is_empty_iff [] = (λ h. refl, λ h. refl)
  is_empty_iff (x ∷ xs) = (λ h. cc, λ h. cc)

  -- Nothing is kept exactly when no item passes the test.
  pub keep-nil_iff :
      (test : A → Bool) (xs : List A) → (keep test xs ≡ []) ↔ ((x : A) → Memᴰ x xs → test x ≡ false)
  keep-nil_iff test [] = (λ h x m. elim m [ ], λ h. refl)
  keep-nil_iff test (x ∷ xs) = elim (Bool-cases (test x)) [
    | inl passes ↦
        rw passes (λ h. cc, λ h. absurd (false≢true (sym (h x (Memᴰ.head refl)) ∙ passes)))
    | inr fails ↦ rw fails (
      λ h y m. elim (Memᴰ.cases_cons m) [
        | inl same ↦ rw same fails
        | inr later ↦ (keep-nil_iff test xs).0 h y later
      ],
      λ h. (keep-nil_iff test xs).1 (λ y m. h y (Memᴰ.tail m)),
    )
  ]

  -- An item of a list is its head or stands behind it.
  pub Memᴰ-cons : {a x : A} {xs : List A} → Memᴰ a (x ∷ xs) → (a ≡ x) ⊎ Memᴰ a xs
  Memᴰ-cons m = Memᴰ.cases_cons m

  pub All-Memᴰ {κ} : (P : A → Type κ) {a : A} {xs : List A} → All P xs → Memᴰ a xs → P a
  All-Memᴰ P ps (Memᴰ.head same) = subst P (sym same) ps.0
  All-Memᴰ P ps (Memᴰ.tail m) = All-Memᴰ P ps.1 m

module _ {ℓ} {A : Type ℓ} where
  pub Memᴰ-keep :
      (test : A → Bool) {a : A} (xs : List A) → Memᴰ a (keep test xs) ↔ Memᴰ a xs × (test a ≡ true)
  Memᴰ-keep test [] = (λ m. elim m [ ], λ m. m.0)
  Memᴰ-keep test {a} (x ∷ xs) = elim (Bool-cases (test x)) [
    | inl passes ↦ rw passes (
      λ m. elim (Memᴰ-cons m) [
        | inl same ↦ (Memᴰ.head same, rw same passes)
        | inr later ↦ let (old, ok) = (Memᴰ-keep test xs).0 later in (Memᴰ.tail old, ok)
      ],
      λ (m, ok). elim (Memᴰ-cons m) [
        | inl same ↦ Memᴰ.head same
        | inr later ↦ Memᴰ.tail ((Memᴰ-keep test xs).1 (later, ok))
      ],
    )
    | inr fails ↦ rw fails (
      λ m. let (old, ok) = (Memᴰ-keep test xs).0 m in (Memᴰ.tail old, ok),
      λ (m, ok). elim (Memᴰ-cons m) [
        | inl same ↦ absurd (false≢true (sym fails ∙ ap test (sym same) ∙ ok))
        | inr later ↦ (Memᴰ-keep test xs).1 (later, ok)
      ],
    )
  ]

  pub Memᴰ-map {κ} :
      {B : Type κ} (f : A → B) {a : A} {xs : List A} → Memᴰ a xs → Memᴰ (f a) (map f xs)
  Memᴰ-map f m = Memᴰ.map f m

  pub Memᴰ-of_map {κ} :
      {B : Type κ} (f : A → B) {b : B} (xs : List A)
      → Memᴰ b (map f xs)
      → (a : A) × Memᴰ a xs × (f a ≡ b)
  Memᴰ-of_map f xs m = Memᴰ.of_map f xs m
