-- ===== src/Core/Visibility.antt =====
-- runtime/src/human_cos/core/visibility.py: who may see an evidence, and when.
pub mod Rules
use human_cos_fft1_trial.Prelude.{
  nat_eq, string_eq, bool_eq, option_eq, list_eq, pair_eq, Bool, List, Option, String, contains,
  false, if◌then◌else◌, is_some, ltb, none, not, some, true, ℕ, ◌!=◌, ◌&&◌, ◌==◌,
}
use human_cos_fft1_trial.Core.Contracts.{temporal_eq, Case, Evidence, Visibility, pre_t0}
use human_cos_fft1_trial.Runtime.States.{mode_eq, historical_blind_eval}

pub data VisibilityBasis : Type 0 where
  public actor role : VisibilityBasis

-- `value is not None and value in ids`
abbrev pub is_listed : Option String → List String → Bool
is_listed none ids = false
is_listed (some id) ids = contains id ids

unfoldable pub visibility_basis :
    Visibility → Option String → Option String → Option VisibilityBasis
visibility_basis visibility actor_id role_id =
    if visibility.public
    then some public
    else if is_listed actor_id visibility.actor_ids
    then some actor
    else if is_listed role_id visibility.role_ids
    then some role
    else none

unfoldable pub visibility_allows : Visibility → Option String → Option String → Bool
visibility_allows visibility actor_id role_id =
    is_some (visibility_basis visibility actor_id role_id)

-- `available_until is not None and available_until < cutoff`
abbrev pub is_over : Option ℕ → ℕ → Bool
is_over none cutoff = false
is_over (some until) cutoff = ltb until cutoff

unfoldable pub temporal_allows : Case → Evidence → ℕ → Bool
temporal_allows case evidence as_of =
    let historical = case.case_mode == historical_blind_eval in
    let cutoff = if historical then case.T0 else as_of in
    if historical && evidence.temporal_class != pre_t0
    then false
    else if ltb cutoff evidence.source_timestamp
    then false
    else if ltb cutoff evidence.available_from
    then false
    else if is_over evidence.available_until cutoff
    then false
    else if not historical && ltb cutoff evidence.ingested_at
    then false
    else true

unfoldable pub context_allows : Case → Evidence → Option String → Option String → ℕ → Bool
context_allows case evidence actor_id role_id as_of =
    if evidence.case_id != case.case_id
    then false
    else temporal_allows case evidence as_of
      && visibility_allows evidence.visibility actor_id role_id
