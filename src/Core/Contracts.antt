-- ===== src/Core/Contracts.antt =====
-- The data of runtime/src/human_cos/core/models.py, without the fields that no modelled operation
-- reads: a case's phase profile and publication policy, and the two float scores of an evidence.
-- A timestamp that the contracts hold to be timezone-aware is the number of its instant.
use human_cos_fft1_trial.Prelude.{
  nat_eq, string_eq, bool_eq, option_eq, list_eq, pair_eq, Bool, Eq, List, Option, String, refl,
  suc, through, zero, ℕ, ◌≡◌,
}
use human_cos_fft1_trial.Runtime.States.{mode_eq, state_eq, CaseMode}

-- A Python `datetime`: the instant of an aware one, the wall-clock reading of a naive one.
pub data Datetime : Type 0 where
  aware naive : ℕ → Datetime

pub record Visibility : Type 0 where
  pub public : Bool
  pub actor_ids : List String
  pub role_ids : List String

pub record Case : Type 0 where
  pub case_id : String
  pub revision : ℕ
  pub case_mode : CaseMode
  pub question : String
  pub protocol_version : String
  pub T0 : ℕ
  pub actors : Option (List String)
  pub domains : Option (List String)
  pub state : Option String
  pub owner : Option String

pub data TemporalClass : Type 0 where
  pre_t0 post_t0 later_verification_of_pre_t0_fact : TemporalClass

abbrev pub temporal_place : TemporalClass → ℕ
temporal_place pre_t0 = 0
temporal_place post_t0 = 1
temporal_place later_verification_of_pre_t0_fact = 2

abbrev pub temporal_member : ℕ → TemporalClass
temporal_member zero = pre_t0
temporal_member (suc zero) = post_t0
temporal_member (suc (suc n)) = later_verification_of_pre_t0_fact

pub temporal_member_place : (c : TemporalClass) → temporal_member (temporal_place c) ≡ c
temporal_member_place pre_t0 = refl
temporal_member_place _ = refl

instance abbrev pub temporal_eq : Eq TemporalClass
temporal_eq = through temporal_place temporal_member temporal_member_place

pub data FactStatus : Type 0 where
  observed reported inferred disputed : FactStatus

pub record Evidence : Type 0 where
  pub evidence_id : String
  pub case_id : String
  pub content : Option String
  pub source_type : String
  pub source_uri_or_ref : Option String
  pub source_timestamp : ℕ
  pub ingested_at : ℕ
  pub available_from : ℕ
  pub available_until : Option ℕ
  pub visibility : Visibility
  pub temporal_class : TemporalClass
  pub fact_status : FactStatus
  pub snapshot_hash : String
  pub supersedes : Option (List String)
  pub tags : Option (List String)
  pub evidence_conflict_ids : Option (List String)

pub record ContextManifest : Type 0 where
  pub context_manifest_id : String
  pub case_id : String
  pub run_id : String
  pub stage : String
  pub role_id : String
  pub evidence_ids : List String
  pub prior_run_ids : List String
  pub tool_permissions : List String
  pub protocol_version : String
  pub model_id : String
  pub prompt_version : String
  pub forbidden_scopes : List String
  pub time_boundary : Option ℕ
  pub hash_sha256 : Option String
