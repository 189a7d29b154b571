-- ===== src/Runtime/ToolPolicy/Catalog.antt =====
-- How the catalog of tool_policy.py is built.
use human_cos_fft1_trial.Prelude.{
  nat_eq, string_eq, bool_eq, option_eq, list_eq, pair_eq, All, Bool-cases, List, Option-cases,
  String, [], ap, false, inl, inr, insert, lookup, lookup-insert_ne, lookup-insert_self, none,
  raised_ne_returned, returned, some, ◌∙◌, ◌∷◌, ◌≡◌, ◌≢◌,
}
use human_cos_fft1_trial.Prelude.Texts.{is_blank}
use human_cos_fft1_trial.Runtime.ToolPolicy.{
  class_eq, Capabilities, ToolCapability, register, tool_policy,
}

-- What a registration that goes on has checked.
register_cons :
    (by_name policy : Capabilities) (c : ToolCapability) (rest : List ToolCapability)
    → register by_name (c ∷ rest) ≡ returned policy
    → (is_blank c.name ≡ false)
      × (lookup c.name by_name ≡ none)
      × (register (insert c.name c by_name) rest ≡ returned policy)
unfolding register
register_cons by_name policy c rest h = elim (Bool-cases (is_blank c.name)) [
  | inl blank ↦ absurd (raised_ne_returned (rw blank at h))
  | inr named ↦ elim (Option-cases (lookup c.name by_name)) [
    | inl new ↦ (named, new, rw (named, new) at h)
    | inr (d, old) ↦ absurd (raised_ne_returned (rw (named, old) at h))
  ]
]

-- An entry stays, since no later capability has its name.
register-keeps :
    (capabilities : List ToolCapability) (by_name : Capabilities) {policy : Capabilities}
    → register by_name capabilities ≡ returned policy
    → (key : String) {c : ToolCapability} → lookup key by_name ≡ some c
    → lookup key policy ≡ some c
unfolding register
register-keeps [] by_name {policy} h key e = let same : by_name ≡ policy = cc h in rw (← same) e
register-keeps (d ∷ rest) by_name {policy} h key e =
    let (named, new, later) = register_cons by_name policy d rest h in
    let apart : d.name ≢ key = λ same. cc (ap (λ k. lookup k by_name) same) in
    register-keeps rest (insert d.name d by_name) later key
      (lookup-insert_ne d.name key d by_name apart ∙ e)

register-finds :
    (capabilities : List ToolCapability) (by_name : Capabilities) {policy : Capabilities}
    → register by_name capabilities ≡ returned policy
    → All (λ c. (is_blank c.name ≡ false) × (lookup c.name policy ≡ some c)) capabilities
register-finds [] by_name h = tt
register-finds (c ∷ rest) by_name {policy} h =
    let (named, new, later) = register_cons by_name policy c rest h in
    let there =
      register-keeps rest (insert c.name c by_name) later c.name
        (lookup-insert_self c.name c by_name) in
    ((named, there), register-finds rest (insert c.name c by_name) later)

-- A catalog that is built finds every capability that it was given under that capability's name,
-- which is not blank: none is dropped, and none hides another.
pub tool_policy-finds :
    (capabilities : List ToolCapability) {policy : Capabilities}
    → tool_policy capabilities ≡ returned policy
    → All (λ c. (is_blank c.name ≡ false) × (lookup c.name policy ≡ some c)) capabilities
unfolding tool_policy
tool_policy-finds capabilities h = register-finds capabilities [] h
