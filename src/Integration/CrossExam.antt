-- ===== src/Integration/CrossExam.antt =====
-- runtime/src/human_cos/integration/cross_exam.py: which sources a reviewer may see and cite. A frozen
-- record is its payload with its hash; the hashes of the three documents are parameters.
pub mod Freezing
pub mod Disclosure
use human_cos_fft1_trial.Prelude.{
  nat_eq, string_eq, bool_eq, option_eq, list_eq, pair_eq, Bool, List, Outcome, String, all,
  contains, map, ℕ,
}
use human_cos_fft1_trial.World.Revision.{Frozen}

pub data CrossExamContractError : Type 0 where
  cross_exam_contract_error : String → CrossExamContractError

pub data SourceKind : Type 0 where
  framing_source domain_output_source expert_submission_source : SourceKind

unfoldable pub source_kind_value : SourceKind → String
source_kind_value framing_source = "FRAMING"
source_kind_value domain_output_source = "DOMAIN_OUTPUT"
source_kind_value expert_submission_source = "EXPERT_SUBMISSION"

pub data ReviewPromptType : Type 0 where
  omission falsification conflict cross_domain unknown_prompt : ReviewPromptType

pub record SourceRef : Type 0 where
  pub source_kind : SourceKind
  pub ref : String
  pub sha256 : String

pub record DisclosureGrantPayload : Type 0 where
  pub grant_id : String
  pub case_id : String
  pub case_revision : ℕ
  pub reviewer_id : String
  pub allowed_sources : List SourceRef
  pub independent_review_required : Bool
  pub protocol_version : String
  pub frozen_at : ℕ

pub record CrossExamTaskPayload : Type 0 where
  pub task_id : String
  pub case_id : String
  pub case_revision : ℕ
  pub reviewer_id : String
  pub grant_hash : String
  pub source_refs : List SourceRef
  pub prompt_types : List ReviewPromptType
  pub prior_review_response_hashes : List String
  pub protocol_version : String
  pub frozen_at : ℕ

pub record CrossExamFinding : Type 0 where
  pub finding_id : String
  pub prompt_type : ReviewPromptType
  pub statement : String
  pub source_refs : List SourceRef
  pub high_impact : Bool

pub record CrossExamResponsePayload : Type 0 where
  pub response_id : String
  pub case_id : String
  pub case_revision : ℕ
  pub task_hash : String
  pub reviewer_id : String
  pub grant_hash : String
  pub findings : List CrossExamFinding
  pub protocol_version : String
  pub submitted_at : ℕ
  pub frozen_at : ℕ

abbrev pub DisclosureGrant : Type 0
DisclosureGrant = Frozen DisclosureGrantPayload

abbrev pub CrossExamTask : Type 0
CrossExamTask = Frozen CrossExamTaskPayload

abbrev pub CrossExamResponse : Type 0
CrossExamResponse = Frozen CrossExamResponsePayload

abbrev pub Checked : Type 0
Checked = Outcome CrossExamContractError (Unit {0})

-- `_source_key`
unfoldable pub source_key : SourceRef → String × (String × String)
unfolding source_kind_value
source_key source = (source_kind_value source.source_kind, (source.ref, source.sha256))

abbrev pub source_keys : List SourceRef → List (String × (String × String))
source_keys sources = map source_key sources

-- `requested.issubset(allowed)`, on the keys of the sources.
abbrev pub within : List SourceRef → List SourceRef → Bool
within requested granted = all (λ key. contains key (source_keys granted)) (source_keys requested)

-- The hashes of the three documents.
pub record CrossExamHashes : Type 0 where
  pub grant_sha256 : DisclosureGrantPayload → String
  pub task_sha256 : CrossExamTaskPayload → String
  pub response_sha256 : CrossExamResponsePayload → String
