-- ===== src/Runtime/ToolPolicy/Authority.antt =====
-- What the tool policy of tool_policy.py grants, and how its catalog is built.
use human_cos_fft1_trial.Prelude.{
  nat_eq, string_eq, bool_eq, option_eq, list_eq, pair_eq, !=_false_iff, >>=-eq-returned, List,
  Memᴰ, Option-cases, String, [], ap, arith, contains, contains_iff, false, inl, inr, is_empty,
  is_empty_iff, keep, keep-nil_iff, lookup, none, refl, refutes, returned, some, subst, sym, true,
  ◌!=◌, ◌↔◌, ◌∙◌, ◌∷◌, ◌≡◌,
}
use human_cos_fft1_trial.Prelude.Texts.{sorted_set, sorted_set-nil_iff}
use human_cos_fft1_trial.Runtime.ToolPolicy.{
  class_eq, Capabilities, ToolCapability, assert_allowed, authorize_context, authorize_each,
  blocked_scopes, decision, read_only_research,
}

-- A registered read-only tool, listed for the context, with no forbidden scope.
pub record Grants (policy : Capabilities) (permitted forbidden : List String) (tool : String)
    (capability : ToolCapability) : Type 0 where
  pub registered : lookup tool policy ≡ some capability
  pub listed : Memᴰ tool permitted
  pub read_only : capability.capability_class ≡ read_only_research
  pub disjoint : (scope : String) → Memᴰ scope capability.scopes → ¬ Memᴰ scope forbidden

blocked_scopes-nil_iff :
    (scopes forbidden : List String)
    → (is_empty (blocked_scopes scopes forbidden) ≡ true)
      ↔ ((scope : String) → Memᴰ scope scopes → ¬ Memᴰ scope forbidden)
unfolding blocked_scopes
blocked_scopes-nil_iff scopes forbidden =
    let kept = keep (λ scope. contains scope forbidden) scopes in
    let none_kept = keep-nil_iff (λ scope. contains scope forbidden) scopes in
    let sorted = sorted_set-nil_iff kept in
    let empty = is_empty_iff (sorted_set kept) in
    (
      λ h scope m.
          (refutes _ (contains_iff scope forbidden)).0 (none_kept.0 (sorted.0 (empty.0 h)) scope m),
      λ d. empty.1 (
          sorted.1
            (none_kept.1 (λ scope m. (refutes _ (contains_iff scope forbidden)).1 (d scope m)))),
    )

-- The tests of the decision on a registered tool, before they are read.
decision_tests :
    (policy : Capabilities) (permitted forbidden : List String) (tool : String)
    (capability : ToolCapability)
    → lookup tool policy ≡ some capability
    → ((decision policy tool permitted forbidden).allowed ≡ true)
      ↔ (contains tool permitted ≡ true)
        × ((capability.capability_class != read_only_research) ≡ false)
        × (is_empty (blocked_scopes capability.scopes forbidden) ≡ true)
unfolding decision
decision_tests policy permitted forbidden tool capability e =
    rw (e, decision) (λ h. (ground arith, ground arith, ground arith), λ h. ground arith)

unknown_denied :
    (policy : Capabilities) (permitted forbidden : List String) (tool : String)
    → lookup tool policy ≡ none
    → (decision policy tool permitted forbidden).allowed ≡ false
unfolding decision
unknown_denied policy permitted forbidden tool e = rw (e, decision)

-- The policy allows a tool exactly when it grants its capability: the tool is registered, listed in
-- the context's permissions, read-only, and none of its scopes is forbidden.
pub decision_iff :
    (policy : Capabilities) (permitted forbidden : List String) (tool : String)
    → ((decision policy tool permitted forbidden).allowed ≡ true)
      ↔ ((capability : ToolCapability) × Grants policy permitted forbidden tool capability)
decision_iff policy permitted forbidden tool = elim (Option-cases (lookup tool policy)) [
  | inl absent ↦
      let denied = unknown_denied policy permitted forbidden tool absent in
      (λ h. absurd (cc), λ (c, g). let e = g.registered in absurd (cc))
  | inr (c, e) ↦
      let tests = decision_tests policy permitted forbidden tool c e in
      (
        λ h.
            let t = tests.0 h in
            (
              c,
              record {
                registered = e;
                listed = (contains_iff tool permitted).0 t.0;
                read_only = (!=_false_iff c.capability_class read_only_research).0 t.1;
                disjoint = (blocked_scopes-nil_iff c.scopes forbidden).0 t.2;
              },
            ),
        λ (c', g).
            let same : c' ≡ c = (let both : some c' ≡ some c = sym g.registered ∙ e in cc) in
            let class : c.capability_class ≡ read_only_research = rw same at g.read_only in
            let apart : (scope : String) → Memᴰ scope c.scopes → ¬ Memᴰ scope forbidden =
              rw same at g.disjoint in
            tests.1 (
              (contains_iff tool permitted).1 g.listed,
              (!=_false_iff c.capability_class read_only_research).1 class,
              (blocked_scopes-nil_iff c.scopes forbidden).1 apart,
            ),
      )
]

-- Each tool with the capability that is granted for it, in order.
abbrev pub Granted :
    Capabilities → List String → List String → List String → List ToolCapability → Type 0
Granted policy permitted forbidden [] [] = Unit
Granted policy permitted forbidden (tool ∷ tools) (c ∷ cs) =
    Grants policy permitted forbidden tool c × Granted policy permitted forbidden tools cs
Granted _ _ _ _ _ = ⊥

-- The two results of an assertion on a tool whose capability is known.
assert_allowed_cases :
    (policy : Capabilities) (permitted forbidden : List String) (tool : String)
    {c d : ToolCapability}
    → lookup tool policy ≡ some c
    → (assert_allowed policy tool permitted forbidden ≡ returned d)
      ↔ ((decision policy tool permitted forbidden).allowed ≡ true) × (d ≡ c)
unfolding assert_allowed
assert_allowed_cases policy permitted forbidden tool e =
    (λ h. (ground arith, ground arith), λ h. ground arith)

assert_allowed_iff :
    (policy : Capabilities) (permitted forbidden : List String) (tool : String) (c : ToolCapability)
    → (assert_allowed policy tool permitted forbidden ≡ returned c)
      ↔ Grants policy permitted forbidden tool c
unfolding assert_allowed
assert_allowed_iff policy permitted forbidden tool c =
    let verdict = decision_iff policy permitted forbidden tool in
    elim (Option-cases (lookup tool policy)) [
      | inl absent ↦
          let denied = unknown_denied policy permitted forbidden tool absent in
          (λ h. absurd (ground arith), λ g. let e = g.registered in absurd (cc))
      | inr (d, e) ↦
          let cases = assert_allowed_cases policy permitted forbidden tool e in
          (
            λ h.
                let t = cases.0 h in
                let (c', g) = verdict.0 t.0 in
                let same : c' ≡ c = (let found = g.registered in cc (t.1)) in
                subst (Grants policy permitted forbidden tool) same g,
            λ g. cases.1 (verdict.1 (c, g), (let found = g.registered in cc)),
          )
    ]

module _ (policy : Capabilities) (permitted forbidden : List String) where
  authorize_each_iff :
      (tools : List String) (cs : List ToolCapability)
      → (authorize_each policy permitted forbidden tools ≡ returned cs)
        ↔ Granted policy permitted forbidden tools cs
  unfolding authorize_each
  authorize_each_iff [] [] = (λ h. tt, λ h. refl)
  authorize_each_iff [] (c ∷ cs) = (λ h. cc, λ h. absurd h)
  authorize_each_iff (tool ∷ tools) [] = (
    λ h.
        let (d, first, rest) =
          >>=-eq-returned (assert_allowed policy tool permitted forbidden) _ h in
        let (ds, others, end) =
          >>=-eq-returned (authorize_each policy permitted forbidden tools) _ rest in
        cc end,
    λ g. absurd g,
  )
  authorize_each_iff (tool ∷ tools) (c ∷ cs) = (
    λ h.
        let (d, first, rest) =
          >>=-eq-returned (assert_allowed policy tool permitted forbidden) _ h in
        let (ds, others, end) =
          >>=-eq-returned (authorize_each policy permitted forbidden tools) _ rest in
        let same : d ≡ c = cc end in
        let same_rest : ds ≡ cs = cc end in
        (
          (assert_allowed_iff policy permitted forbidden tool c).0 (first ∙ ap returned same),
          (authorize_each_iff tools cs).0 (others ∙ ap returned same_rest),
        ),
    λ g.
        let first = (assert_allowed_iff policy permitted forbidden tool c).1 g.0 in
        let others = (authorize_each_iff tools cs).1 g.1 in rw (first, others),
  )

  -- A context is authorized with a list of capabilities exactly when each of its tools is granted the
  -- capability in its place: one tool that is unknown, acts on reality or meets a forbidden scope
  -- leaves the context with none.
  pub authorize_context_iff :
      (cs : List ToolCapability)
      → (authorize_context policy permitted forbidden ≡ returned cs)
        ↔ Granted policy permitted forbidden permitted cs
  unfolding authorize_context
  authorize_context_iff cs = authorize_each_iff permitted cs
