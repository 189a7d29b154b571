-- ===== src/Prelude/Equality.antt =====
-- Python's `==` on the values that the program compares: numbers, texts, optional values, tuples.
use Prim.Native.Nat.{ℕ}
use Prim.Native.String.{String}
use mathlib.Core.Path.{◌≡◌, refl, ap, sym, ◌∙◌}
use mathlib.Core.Logic.{◌↔◌, ◌≢◌, inl, inr}
use mathlib.Core.Bool.{Bool, true, false, not, ◌&&◌}
use mathlib.Core.Option.{Option, none, some}
use mathlib.Core.List.{List, [], ◌∷◌}
use native.Mathlib.Omega.{arith}
use text.Mathlib.Text.{◌==◌ as text_equal}
use text.Mathlib.TextEquality.{eq_iff as text_equal_iff}
use human_cos_fft1_trial.Prelude.Tests.{Bool-cases, nat_eqb, nat_eqb_iff}

-- A test of equality, with what it decides.
pub record Eq {ℓ} (Value : Type ℓ) : Type ℓ where
  pub equals : (x y : Value) → Bool
  pub decides : (x y : Value) → (equals x y ≡ true) ↔ (x ≡ y)

module _ {ℓ} {Value : Type ℓ} ⦃test : Eq Value⦄ where
  infix 50 ◌!=◌ ◌==◌
  abbrev pub ◌==◌ : (x y : Value) → Bool
  x == y = test.equals x y

  abbrev pub ◌!=◌ : (x y : Value) → Bool
  x != y = not (x == y)

pub ==_iff {ℓ} : {A : Type ℓ} ⦃e : Eq A⦄ (a b : A) → ((a == b) ≡ true) ↔ (a ≡ b)
==_iff ⦃e⦄ a b = e.decides a b

pub ==_refl {ℓ} : {A : Type ℓ} ⦃e : Eq A⦄ (a : A) → (a == a) ≡ true
==_refl ⦃e⦄ a = (e.decides a a).1 refl

-- A failed test is a difference.
pub ==_false_iff {ℓ} : {A : Type ℓ} ⦃e : Eq A⦄ (a b : A) → ((a == b) ≡ false) ↔ (a ≢ b)
==_false_iff ⦃e⦄ a b =
    let same = e.decides a b in
    (
      λ h eq. cc (same.1 eq),
      λ h. elim (Bool-cases (e.equals a b)) [ inl t ↦ absurd (h (same.0 t)) | inr f ↦ f ],
    )

pub !=_false_iff {ℓ} : {A : Type ℓ} ⦃e : Eq A⦄ (a b : A) → ((a != b) ≡ false) ↔ (a ≡ b)
!=_false_iff ⦃e⦄ a b =
    let same = e.decides a b in (λ h. same.0 (ground arith), λ h. let t = same.1 h in ground arith)

instance abbrev pub nat_eq : Eq ℕ
nat_eq = record { equals = nat_eqb; decides = nat_eqb_iff }

instance abbrev pub string_eq : Eq String
string_eq = record { decides = text_equal_iff; equals = text_equal }

abbrev pub bool_beq : Bool → Bool → Bool
bool_beq true b = b
bool_beq false b = not b

pub bool_beq_iff : (a b : Bool) → (bool_beq a b ≡ true) ↔ (a ≡ b)
bool_beq_iff a b = (λ h. ground arith, λ h. ground arith)

instance abbrev pub bool_eq : Eq Bool
bool_eq = record { equals = bool_beq; decides = bool_beq_iff }

module _ {ℓ} {A : Type ℓ} ⦃e : Eq A⦄ where
  abbrev pub option_beq : Option A → Option A → Bool
  option_beq none none = true
  option_beq (some a) (some b) = e.equals a b
  option_beq _ _ = false

  pub option_beq_iff : (a b : Option A) → (option_beq a b ≡ true) ↔ (a ≡ b)
  option_beq_iff none none = (λ _. refl, λ _. refl)
  option_beq_iff none (some b) = (λ h. cc, λ h. cc)
  option_beq_iff (some a) none = (λ h. cc, λ h. cc)
  option_beq_iff (some a) (some b) =
      (λ h. ap some ((e.decides a b).0 h), λ h. (e.decides a b).1 (cc))

  instance abbrev pub option_eq : Eq (Option A)
  option_eq = record { equals = option_beq; decides = option_beq_iff }

  abbrev pub list_beq : List A → List A → Bool
  list_beq [] [] = true
  list_beq (a ∷ r) (b ∷ s) = e.equals a b && list_beq r s
  list_beq _ _ = false

  pub list_beq_iff : (a b : List A) → (list_beq a b ≡ true) ↔ (a ≡ b)
  list_beq_iff [] [] = (λ _. refl, λ _. refl)
  list_beq_iff [] (b ∷ s) = (λ h. cc, λ h. cc)
  list_beq_iff (a ∷ r) [] = (λ h. cc, λ h. cc)
  list_beq_iff (a ∷ r) (b ∷ s) =
      let ih = list_beq_iff r s in let hd = e.decides a b in (λ h. ground arith, λ h. ground arith)

  instance abbrev pub list_eq : Eq (List A)
  list_eq = record { equals = list_beq; decides = list_beq_iff }

module _ {ℓ κ} {A : Type ℓ} {B : Type κ} ⦃d : Eq A⦄ ⦃e : Eq B⦄ where
  abbrev pub pair_beq : A × B → A × B → Bool
  pair_beq (a, b) (a', b') = d.equals a a' && e.equals b b'

  pub pair_beq_iff : (p q : A × B) → (pair_beq p q ≡ true) ↔ (p ≡ q)
  pair_beq_iff (a, b) (a', b') =
      let first = d.decides a a' in
      let second = e.decides b b' in (λ h. ground arith, λ h. ground arith)

  instance abbrev pub pair_eq : Eq (A × B)
  pair_eq = record { equals = pair_beq; decides = pair_beq_iff }

-- A record is compared as the tuple of its fields, and an enumeration by the place of its member.
module _ {ℓ κ} {A : Type ℓ} {B : Type κ} ⦃e : Eq B⦄ (to : A → B) (from : B → A)
    (from_to : (a : A) → from (to a) ≡ a) where
  pub through_iff : (a b : A) → (e.equals (to a) (to b) ≡ true) ↔ (a ≡ b)
  through_iff a b = (
    λ h. sym (from_to a) ∙ ap from ((e.decides _ _).0 h) ∙ from_to b,
    λ h. (e.decides _ _).1 (ap to h),
  )

  abbrev pub through : Eq A
  through = record { equals = λ a b. e.equals (to a) (to b); decides = through_iff }
