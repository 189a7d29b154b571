-- ===== src/Models/Profile/Identity.antt =====
-- What the registry of registry.py finds, and which identities it accepts.
use human_cos_fft1_trial.Prelude.{
  nat_eq, string_eq, bool_eq, option_eq, list_eq, pair_eq, !=_false_iff, >>=-eq-returned, String,
  ap, arith, false, lookup, raise_if, raise_if-eq-returned, returned, some, sym, ◌!=◌, ◌||◌, ◌↔◌,
  ◌∙◌, ◌≡◌,
}
use human_cos_fft1_trial.Models.Profile.{
  status_eq, identity_eq, ModelIdentity, ModelProfile, Profiles, assert_identity, get,
}

-- A profile that the registry holds under the identity's model, of the same provider and family.
pub record Registered (registry : Profiles) (identity : ModelIdentity) : Type 0 where
  pub profile : ModelProfile
  pub found : lookup identity.model_id registry ≡ some profile
  pub same_provider : profile.provider ≡ identity.provider
  pub same_family : profile.model_family ≡ identity.model_family

pub get_iff :
    (registry : Profiles) (model_id : String) (profile : ModelProfile)
    → (get registry model_id ≡ returned profile) ↔ (lookup model_id registry ≡ some profile)
unfolding get
get_iff registry model_id profile = (λ h. ground arith, λ h. ground arith)

neither_differs : (a b c d : String) → ((a != b || c != d) ≡ false) ↔ (a ≡ b) × (c ≡ d)
neither_differs a b c d =
    let first = !=_false_iff a b in
    let second = !=_false_iff c d in
    (
      λ h. (first.0 (ground arith), second.0 (ground arith)),
      λ h. let p = first.1 h.0 in let q = second.1 h.1 in ground arith,
    )

-- The registry accepts exactly the identities that are registered.
pub assert_identity_iff :
    (registry : Profiles) (identity : ModelIdentity) (profile : ModelProfile)
    → (assert_identity registry identity ≡ returned profile)
      ↔ (lookup identity.model_id registry ≡ some profile)
        × (profile.provider ≡ identity.provider)
        × (profile.model_family ≡ identity.model_family)
unfolding assert_identity
assert_identity_iff registry identity profile =
    let found = get_iff registry identity.model_id in
    (
      λ h.
          let (p, got, rest) = >>=-eq-returned (get registry identity.model_id) _ h in
          let (u, checked, end) = >>=-eq-returned (raise_if _ _) _ rest in
          let same : p ≡ profile = cc end in
          let agrees =
            (neither_differs p.provider identity.provider p.model_family identity.model_family).0
              (raise_if-eq-returned _ _ checked) in
          (
            (found profile).0 (got ∙ ap returned same),
            ap (λ q. q.provider) (sym same) ∙ agrees.0,
            ap (λ q. q.model_family) (sym same) ∙ agrees.1,
          ),
      λ h.
          let got = (found profile).1 h.0 in
          let agrees =
            (neither_differs profile.provider identity.provider profile.model_family
                identity.model_family).1
              (h.1, h.2) in
          rw (got, agrees),
    )
