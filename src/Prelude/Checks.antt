-- ===== src/Prelude/Checks.antt =====
-- What the tests of a check say when they do not raise.
use mathlib.Core.Path.{◌≡◌, refl}
use mathlib.Core.Logic.{◌↔◌, ◌≢◌}
use mathlib.Core.Bool.{Bool, true, false, not, ◌&&◌, ◌||◌}
use mathlib.Core.Option.{Option, none, some}
use mathlib.Core.List.{List, [], ◌∷◌, Memᴰ}
use Prim.Native.Nat.{ℕ, suc, ◌≤◌}
use native.Mathlib.Omega.{arith}
use human_cos_fft1_trial.Prelude.Tests.{ltb, refutes}
use human_cos_fft1_trial.Prelude.Equality.{Eq, ◌!=◌, !=_false_iff}
use human_cos_fft1_trial.Prelude.Lists.{
  All, all, all_distinct, any, contains, contains_iff, is_empty,
}
use human_cos_fft1_trial.Prelude.Dicts.{is_some}
use human_cos_fft1_trial.Prelude.Outcomes.{Outcome, for_each, for_each_iff, returned}

pub not-false_iff : (b : Bool) → (not b ≡ false) ↔ (b ≡ true)
not-false_iff b = (λ h. ground arith, λ h. ground arith)

pub and_true_iff {ℓ κ} :
    {P : Type ℓ} {Q : Type κ} {a b : Bool}
    → (a ≡ true) ↔ P
    → (b ≡ true) ↔ Q
    → ((a && b) ≡ true) ↔ P × Q
and_true_iff {a = true} {b} f g = (λ h. (f.0 refl, g.0 h), λ (p, q). g.1 q)
and_true_iff {a = false} {b} f g = (λ h. cc, λ (p, q). f.1 p)

-- A field is unchanged exactly when it is equal.
pub same_iff {ℓ} :
    {A : Type ℓ} ⦃e : Eq A⦄ {Q R : Type 0} (x y : A) → Q ↔ R → ((x != y) ≡ false) × Q ↔ (x ≡ y) × R
same_iff x y rest =
    (λ h. ((!=_false_iff x y).0 h.0, rest.0 h.1), λ h. ((!=_false_iff x y).1 h.0, rest.1 h.1))

pub last_iff {ℓ} : {A : Type ℓ} ⦃e : Eq A⦄ (x y : A) → ((x != y) ≡ false) × Unit {0} ↔ (x ≡ y)
last_iff x y = (λ h. (!=_false_iff x y).0 h.0, λ h. ((!=_false_iff x y).1 h, tt))

pub denied_iff {ℓ} : {P : Type ℓ} (b : Bool) → (b ≡ true) ↔ P → (not b ≡ false) ↔ P
denied_iff true f = (λ h. f.0 refl, λ p. refl)
denied_iff false f = (λ h. cc, λ p. cc (f.1 p))

pub affirmed_iff {ℓ} : {P : Type ℓ} (b : Bool) → (b ≡ false) ↔ P → (not b ≡ true) ↔ P
affirmed_iff true f = (λ h. cc, λ p. cc (f.1 p))
affirmed_iff false f = (λ h. f.0 refl, λ p. refl)

pub or_false_iff {ℓ κ} :
    {P : Type ℓ} {Q : Type κ} {a b : Bool}
    → (a ≡ false) ↔ P
    → (b ≡ false) ↔ Q
    → ((a || b) ≡ false) ↔ P × Q
or_false_iff {a = true} {b} f g = (λ h. cc, λ (p, q). f.1 p)
or_false_iff {a = false} {b} f g = (λ h. (f.0 refl, g.0 h), λ (p, q). g.1 q)

-- `if a and b: raise ...`
pub implies_iff {ℓ κ} :
    {P : Type ℓ} {Q : Type κ} {a b : Bool}
    → (a ≡ true) ↔ P
    → (b ≡ false) ↔ Q
    → ((a && b) ≡ false) ↔ (P → Q)
implies_iff {a = true} {b} f g = (λ h p. g.0 h, λ h. g.1 (h (f.0 refl)))
implies_iff {a = false} {b} f g = (λ h p. absurd (cc (f.1 p)), λ h. refl)

pub not_less_iff : (n m : ℕ) → (ltb n m ≡ false) ↔ (m ≤ n)
not_less_iff n m = (λ h. ground arith, λ h. ground arith)

module _ {ℓ} {A : Type ℓ} where
  pub absent_iff : (o : Option A) → (is_some o ≡ false) ↔ (o ≡ none)
  absent_iff none = (λ h. refl, λ h. refl)
  absent_iff (some a) = (λ h. cc, λ h. cc)

  pub present_iff : (o : Option A) → (not (is_some o) ≡ false) ↔ (o ≢ none)
  present_iff none = (λ h. cc, λ h. absurd (h refl))
  present_iff (some a) = (λ h e. cc e, λ h. refl)

  pub filled_iff : (xs : List A) → (is_empty xs ≡ false) ↔ (xs ≢ [])
  filled_iff [] = (λ h. cc, λ h. absurd (h refl))
  filled_iff (x ∷ xs) = (λ h e. cc e, λ h. refl)

  pub All-iff {κ μ} :
      {P : A → Type κ} {Q : A → Type μ} (xs : List A) → ((x : A) → P x ↔ Q x) → All P xs ↔ All Q xs
  All-iff [] f = (λ h. tt, λ h. tt)
  All-iff (x ∷ xs) f =
      let rest = All-iff xs f in
      (λ (p, ps). ((f x).0 p, rest.0 ps), λ (q, qs). ((f x).1 q, rest.1 qs))

  pub All-imp {κ μ} :
      {P : A → Type κ} {Q : A → Type μ} (xs : List A) → ((x : A) → P x → Q x) → All P xs → All Q xs
  All-imp [] f ps = tt
  All-imp (x ∷ xs) f (p, ps) = (f x p, All-imp xs f ps)

  pub empty_iff : (xs : List A) → (not (is_empty xs) ≡ false) ↔ (xs ≡ [])
  empty_iff [] = (λ h. refl, λ h. refl)
  empty_iff (x ∷ xs) = (λ h. cc, λ h. cc)

  pub All-of_Memᴰ {κ} : {P : A → Type κ} (xs : List A) → ((x : A) → Memᴰ x xs → P x) → All P xs
  All-of_Memᴰ [] f = tt
  All-of_Memᴰ (x ∷ xs) f = (f x (Memᴰ.head refl), All-of_Memᴰ xs (λ y m. f y (Memᴰ.tail m)))

  pub none_passes_iff {κ} :
      {P : A → Type κ} {test : A → Bool} (xs : List A)
      → ((x : A) → (test x ≡ false) ↔ P x)
      → (any test xs ≡ false) ↔ All P xs
  none_passes_iff [] f = (λ h. tt, λ h. refl)
  none_passes_iff (x ∷ xs) f = or_false_iff (f x) (none_passes_iff xs f)

  pub all_pass_iff {κ} :
      {P : A → Type κ} {test : A → Bool} (xs : List A)
      → ((x : A) → (test x ≡ true) ↔ P x)
      → (all test xs ≡ true) ↔ All P xs
  all_pass_iff [] f = (λ h. tt, λ h. refl)
  all_pass_iff (x ∷ xs) f = and_true_iff (f x) (all_pass_iff xs f)

  -- A loop of checks passes when every item does.
  pub each_iff {κ μ} :
      {E : Type κ} {P : A → Type μ} {body : A → Outcome E (Unit {0})} (xs : List A)
      → ((x : A) → (body x ≡ returned tt) ↔ P x)
      → (for_each xs body ≡ returned tt) ↔ All P xs
  each_iff {body} xs f =
      let loop = for_each_iff xs body in
      let items = All-iff xs f in (λ h. items.0 (loop.0 h), λ ps. loop.1 (items.1 ps))

module _ {ℓ} {A : Type ℓ} ⦃e : Eq A⦄ where
  -- No item stands twice.
  abbrev pub Distinct : List A → Type ℓ
  Distinct [] = Unit
  Distinct (x ∷ xs) = ¬ Memᴰ x xs × Distinct xs

  pub member_iff : (x : A) (xs : List A) → (not (contains x xs) ≡ false) ↔ Memᴰ x xs
  member_iff x xs = denied_iff (contains x xs) (contains_iff x xs)

  pub Distinct-iff : (xs : List A) → (all_distinct xs ≡ true) ↔ Distinct xs
  Distinct-iff [] = (λ h. tt, λ h. refl)
  Distinct-iff (x ∷ xs) =
      let new = affirmed_iff (contains x xs) (refutes _ (contains_iff x xs)) in
      and_true_iff new (Distinct-iff xs)

  pub repeats_iff : (xs : List A) → (not (all_distinct xs) ≡ false) ↔ Distinct xs
  repeats_iff xs = denied_iff (all_distinct xs) (Distinct-iff xs)

pub less_iff : (n m : ℕ) → (ltb n m ≡ true) ↔ (suc n ≤ m)
less_iff n m = (λ h. ground arith, λ h. ground arith)
