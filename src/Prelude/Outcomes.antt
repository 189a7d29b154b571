-- ===== src/Prelude/Outcomes.antt =====
-- A function that may raise returns an outcome: a value, or the exception.
use mathlib.Core.Path.{◌≡◌, refl, sym, ap}
use mathlib.Core.Logic.{◌⊎◌, ◌↔◌, inl, inr}
use mathlib.Core.Bool.{Bool, true, false}
use mathlib.Core.List.{List, [], ◌∷◌}
use human_cos_fft1_trial.Prelude.Lists.{All}

pub data Outcome {ℓ κ} (E : Type ℓ) (A : Type κ) : Type (ℓ ⊔ κ) where
  returned : A → Outcome E A
  raised : E → Outcome E A

infixl 5 ◌>>=◌ ◌>>◌
abbrev pub ◌>>=◌ {ℓ κ μ} :
    {E : Type ℓ} {A : Type κ} {B : Type μ} → Outcome E A → (A → Outcome E B) → Outcome E B
returned a >>= f = f a
raised e >>= f = raised e

abbrev pub ◌>>◌ {ℓ μ} : {E : Type ℓ} {B : Type μ} → Outcome E (Unit {0}) → Outcome E B → Outcome E B
m >> k = m >>= λ _. k

-- `if test: raise error`
abbrev pub raise_if {ℓ} : {E : Type ℓ} → Bool → E → Outcome E (Unit {0})
raise_if true e = raised e
raise_if false e = returned tt

-- `for item in items: body(item)`, for a body that only raises.
abbrev pub for_each {ℓ κ} :
    {E : Type ℓ} {A : Type κ} → List A → (A → Outcome E (Unit {0})) → Outcome E (Unit {0})
for_each [] body = returned tt
for_each (x ∷ xs) body = body x >> for_each xs body

pub >>=-eq-returned {ℓ κ μ} :
    {E : Type ℓ} {A : Type κ} {B : Type μ} (m : Outcome E A) (f : A → Outcome E B) {b : B}
    → (m >>= f) ≡ returned b
    → (a : A) × (m ≡ returned a) × (f a ≡ returned b)
>>=-eq-returned (returned a) f h = (a, refl, h)
>>=-eq-returned (raised e) f h = cc

pub raise_if-eq-returned {ℓ} :
    {E : Type ℓ} (test : Bool) (e : E) {u : Unit {0}} → raise_if test e ≡ returned u → test ≡ false
raise_if-eq-returned true e h = cc
raise_if-eq-returned false e h = refl

pub Outcome-cases {ℓ κ} :
    {E : Type ℓ} {A : Type κ} (o : Outcome E A)
    → ((a : A) × (o ≡ returned a)) ⊎ ((e : E) × (o ≡ raised e))
Outcome-cases (returned a) = inl (a, refl)
Outcome-cases (raised e) = inr (e, refl)

-- When a chain of checks passes.
module _ {ℓ} {E : Type ℓ} where
  pub raise_if_iff : (test : Bool) (e : E) → (raise_if test e ≡ returned tt) ↔ (test ≡ false)
  raise_if_iff true e = (λ h. cc, λ h. cc)
  raise_if_iff false e = (λ h. refl, λ h. refl)

  pub >>_iff :
      (m k : Outcome E (Unit {0}))
      → ((m >> k) ≡ returned tt) ↔ (m ≡ returned tt) × (k ≡ returned tt)
  >>_iff (returned u) k = (λ h. (refl, h), λ h. h.1)
  >>_iff (raised e) k = (λ h. cc, λ h. cc)

  pub for_each_iff {κ} :
      {A : Type κ} (xs : List A) (body : A → Outcome E (Unit {0}))
      → (for_each xs body ≡ returned tt) ↔ All (λ x. body x ≡ returned tt) xs
  for_each_iff [] body = (λ h. tt, λ h. refl)
  for_each_iff (x ∷ xs) body = (
    λ h. let t = (>>_iff _ _).0 h in (t.0, (for_each_iff xs body).0 t.1),
    λ h. (>>_iff _ _).1 (h.0, (for_each_iff xs body).1 h.1),
  )

  -- Two checks in turn accept what both accept.
  pub both_iff {κ μ} :
      {P : Type κ} {Q : Type μ} {m k : Outcome E (Unit {0})}
      → ((m ≡ returned tt) ↔ P)
      → ((k ≡ returned tt) ↔ Q)
      → ((m >> k) ≡ returned tt) ↔ P × Q
  both_iff {m} {k} f g =
      (λ h. let t = (>>_iff m k).0 h in (f.0 t.0, g.0 t.1), λ h. (>>_iff m k).1 (f.1 h.0, g.1 h.1))

  pub raises_iff {κ} :
      {P : Type κ} {test : Bool} (e : E) → (test ≡ false) ↔ P → (raise_if test e ≡ returned tt) ↔ P
  raises_iff {test} e f =
      (λ h. f.0 ((raise_if_iff test e).0 h), λ p. (raise_if_iff test e).1 (f.1 p))

pub raised_ne_returned {ℓ κ} : {E : Type ℓ} {A : Type κ} {e : E} {a : A} → ¬ (raised e ≡ returned a)
raised_ne_returned h = cc

pub returned-injective {ℓ κ} :
    {E : Type ℓ} {A : Type κ} {a b : A} → ◌≡◌ {A = Outcome E A} (returned a) (returned b) → a ≡ b
returned-injective h = cc

-- The exception of a callee, as one of the caller's.
module _ {ℓ κ μ} {E : Type ℓ} {F : Type κ} {A : Type μ} (f : F → E) where
  abbrev pub wrap : Outcome F A → Outcome E A
  wrap (returned a) = returned a
  wrap (raised e) = raised (f e)

  pub wrap-eq-returned :
      (outcome : Outcome F A) {a : A} → wrap outcome ≡ returned a → outcome ≡ returned a
  wrap-eq-returned (returned b) h = ap returned (returned-injective h)
  wrap-eq-returned (raised e) h = absurd (raised_ne_returned h)

-- A value is returned behind two checks exactly when both pass.
pub frozen_iff {ℓ κ ν μ} :
    {E : Type ℓ} {A : Type κ} {P : Type ν} {Q : Type μ} {first second : Outcome E (Unit {0})}
    {value result : A}
    → ((first ≡ returned tt) ↔ P)
    → ((second ≡ returned tt) ↔ Q)
    → ((first >> (second >> returned value)) ≡ returned result) ↔ (result ≡ value) × (P × Q)
frozen_iff {first = returned u} {second = returned v} f g =
    (λ h. (sym (returned-injective h), (f.0 refl, g.0 refl)), λ (same, _). ap returned (sym same))
frozen_iff {first = returned u} {second = raised e} f g =
    (λ h. cc, λ (_, (_, q)). absurd (raised_ne_returned (g.1 q)))
frozen_iff {first = raised e} f g = (λ h. cc, λ (_, (p, _)). absurd (raised_ne_returned (f.1 p)))
