-- ===== src/Prelude/Fields.antt =====
-- What the contracts' base class (pydantic) checks of the texts of a record when it is built.
use mathlib.Core.Path.{◌≡◌, refl}
use mathlib.Core.Logic.{◌↔◌}
use mathlib.Core.Bool.{Bool, true, false, not}
use mathlib.Core.Option.{Option, none, some}
use mathlib.Core.List.{List, [], ◌∷◌}
use Prim.Native.Nat.{ℕ}
use Prim.Native.String.{String}
use human_cos_fft1_trial.Prelude.Tests.{leb}
use human_cos_fft1_trial.Prelude.Lists.{All, is_empty}
use human_cos_fft1_trial.Prelude.Outcomes.{Outcome, raise_if, raises_iff, returned}
use human_cos_fft1_trial.Prelude.Checks.{empty_iff}
use human_cos_fft1_trial.Prelude.Texts.{is_sha256}

abbrev pub is_sha256_or_none : Option String → Bool
is_sha256_or_none none = true
is_sha256_or_none (some text) = is_sha256 text

abbrev pub is_positive_or_none : Option ℕ → Bool
is_positive_or_none none = true
is_positive_or_none (some n) = leb 1 n

-- The names of the fields that are refused, of fields with whether they are accepted.
abbrev pub refused_fields : List (String × Bool) → List String
refused_fields [] = []
refused_fields ((name, true) ∷ fields) = refused_fields fields
refused_fields ((name, false) ∷ fields) = name ∷ refused_fields fields

-- A record is refused with the names of all of its refused fields.
abbrev pub check_fields {ℓ} :
    {E : Type ℓ} → (List String → E) → List (String × Bool) → Outcome E (Unit {0})
check_fields error fields =
    raise_if (not (is_empty (refused_fields fields))) (error (refused_fields fields))

refused_iff :
    (fields : List (String × Bool)) → (refused_fields fields ≡ []) ↔ All (λ f. f.1 ≡ true) fields
refused_iff [] = (λ h. tt, λ h. refl)
refused_iff ((name, true) ∷ fields) =
    let rest = refused_iff fields in (λ h. (refl, rest.0 h), λ h. rest.1 h.1)
refused_iff ((name, false) ∷ fields) = (λ h. cc, λ h. cc)

pub check_fields_iff {ℓ} :
    {E : Type ℓ} (error : List String → E) (fields : List (String × Bool))
    → (check_fields error fields ≡ returned tt) ↔ All (λ f. f.1 ≡ true) fields
check_fields_iff error fields =
    let checked = raises_iff (error (refused_fields fields)) (empty_iff (refused_fields fields)) in
    let each = refused_iff fields in (λ h. each.0 (checked.0 h), λ h. checked.1 (each.1 h))
