-- ===== src/Prelude/Dicts.antt =====
-- Python dictionaries as association lists: the first entry of a key counts.
use mathlib.Core.Path.{sym}
use mathlib.Core.Path.{subst}
use mathlib.Core.Bool.{Bool, true, false}
use mathlib.Core.Option.{Option, none, some}
use mathlib.Core.List.{List, [], ◌∷◌}
use mathlib.Core.Path.{◌≡◌}
use mathlib.Core.Logic.{◌≢◌, inl, inr}
use human_cos_fft1_trial.Prelude.Tests.{if◌then◌else◌, Bool-cases}
use human_cos_fft1_trial.Prelude.Equality.{Eq, ==_refl, ==_false_iff}

module _ {ℓ κ} {K : Type ℓ} {V : Type κ} ⦃e : Eq K⦄ where
  -- `d.get(key)`
  abbrev pub lookup : K → List (K × V) → Option V
  lookup key [] = none
  lookup key ((k, v) ∷ d) = if e.equals k key then some v else lookup key d

  -- `d[key] = value`
  abbrev pub insert : K → V → List (K × V) → List (K × V)
  insert key value [] = (key, value) ∷ []
  insert key value ((k, v) ∷ d) =
      if e.equals k key then (k, value) ∷ d else (k, v) ∷ insert key value d

  -- `{**d, **more}`
  abbrev pub merge : List (K × V) → List (K × V) → List (K × V)
  merge d [] = d
  merge d ((k, v) ∷ more) = merge (insert k v d) more

module _ {ℓ κ} {K : Type ℓ} {V : Type κ} ⦃e : Eq K⦄ where
  pub lookup-insert_self :
      (key : K) (value : V) (d : List (K × V)) → lookup key (insert key value d) ≡ some value
  lookup-insert_self key value [] = rw (==_refl key)
  lookup-insert_self key value ((k, v) ∷ d) = elim (Bool-cases (e.equals k key)) [
    | inl same ↦ rw (same, same)
    | inr other ↦ rw (other, other) (lookup-insert_self key value d)
  ]

  pub lookup-insert_ne :
      (key other : K) (value : V) (d : List (K × V))
      → key ≢ other
      → lookup other (insert key value d) ≡ lookup other d
  lookup-insert_ne key other value [] h = rw ((==_false_iff key other).1 h)
  lookup-insert_ne key other value ((k, v) ∷ d) h = elim (Bool-cases (e.equals k key)) [
    | inl same ↦
        let apart : e.equals k other ≡ false =
          subst (λ x. e.equals x other ≡ false) (sym ((e.decides k key).0 same))
            ((==_false_iff key other).1 h) in
        rw (same, apart)
    | inr differ ↦ rw (differ, lookup-insert_ne key other value d h)
  ]

-- `d.get(key, default)`
abbrev pub value_or {ℓ} : {V : Type ℓ} → Option V → V → V
value_or none default = default
value_or (some v) default = v

-- `key in d`, of what `d.get(key)` returns.
abbrev pub is_some {ℓ} : {V : Type ℓ} → Option V → Bool
is_some none = false
is_some (some v) = true
