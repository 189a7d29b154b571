-- ===== src/Core/Context.antt =====
-- runtime/src/human_cos/core/context.py: the construction of a worker's context. The evidence source,
-- the hashes of the two documents and the schema check are parameters: the first is a protocol that a
-- repository implements, the others call third-party code.
pub mod Candidates
pub mod Order
pub mod Build
use Prim.Native.Nat.{Ordering}
use Prim.Native.String.{compare}
use human_cos_fft1_trial.Prelude.{
  nat_eq, string_eq, bool_eq, option_eq, list_eq, pair_eq, List, Option, Outcome, String, [],
  all_distinct, if◌then◌else◌, is_empty, ltb, map, none, not, raise_if, raised, returned, some, ℕ,
  ◌!=◌, ◌==◌, ◌>>=◌, ◌>>◌, ◌∷◌,
}
use human_cos_fft1_trial.Prelude.TextOrder.{text_ltb}
use human_cos_fft1_trial.Prelude.Texts.{format, join}
use human_cos_fft1_trial.Core.Contracts.{
  temporal_eq, Case, ContextManifest, Datetime, Evidence, aware, naive,
}
use human_cos_fft1_trial.Core.Visibility.{VisibilityBasis, temporal_allows, visibility_basis}
use human_cos_fft1_trial.Runtime.States.{mode_eq, historical_blind_eval, mode_value}

pub data ContextError : Type 0 where
  context_build_error : String → ContextError
  contract_validation_error : String → ContextError
  validation_error : String → ContextError

pub record AdmittedEvidence : Type 0 where
  pub evidence : Evidence
  pub revision : ℕ
  pub visibility_basis : VisibilityBasis

pub record ContextBuildRequest : Type 0 where
  pub context_manifest_id : String
  pub run_id : String
  pub stage : String
  pub role_id : String
  pub actor_id : Option String
  pub model_id : String
  pub prompt_version : String
  pub reference_time : Option Datetime
  pub tool_permissions : List String
  pub prior_run_ids : List String
  pub forbidden_scopes : List String

pub record EvidenceAdmissionRecord : Type 0 where
  pub evidence_id : String
  pub revision : ℕ
  pub snapshot_hash : String
  pub visibility_basis : VisibilityBasis

-- `_canonical_admission_payload`
pub record AdmissionPayload : Type 0 where
  pub context_manifest_id : String
  pub manifest_hash : String
  pub actor_id : Option String
  pub role_id : String
  pub reference_time : ℕ
  pub evidence : List EvidenceAdmissionRecord

pub record ContextAdmissionRecord : Type 0 where
  pub payload : AdmissionPayload
  pub record_hash : String

pub record ContextBuildResult : Type 0 where
  pub manifest : ContextManifest
  pub admission : ContextAdmissionRecord

unfoldable pub effective_reference_time : Case → ContextBuildRequest → Outcome ContextError ℕ
effective_reference_time case request =
    if case.case_mode == historical_blind_eval
    then returned case.T0
    else elim request.reference_time [
      | none ↦ raised (
          context_build_error (
            format (
              mode_value case.case_mode
              ∷ " context requires an explicit timezone-aware reference_time"
              ∷ [])))
      | some (naive reading) ↦ raised (context_build_error "reference_time must be timezone-aware")
      | some (aware instant) ↦ returned instant
    ]

-- The candidate with the basis that the visibility rules give it.
abbrev pub rebase : AdmittedEvidence → VisibilityBasis → AdmittedEvidence
rebase candidate basis = record {
  evidence = candidate.evidence;
  revision = candidate.revision;
  visibility_basis = basis;
}

-- The loop over the candidates: an item is skipped, refused, or appended to the admitted ones.
unfoldable pub revalidate_candidates :
    List AdmittedEvidence
    → Case
    → Option String
    → Option String
    → ℕ
    → Outcome ContextError (List AdmittedEvidence)
revalidate_candidates [] case actor_id role_id reference_time = returned []
revalidate_candidates (candidate ∷ candidates) case actor_id role_id reference_time =
    let evidence = candidate.evidence in
    let rest = revalidate_candidates candidates case actor_id role_id reference_time in
    if evidence.case_id != case.case_id
    then rest
    else if ltb candidate.revision 1
    then raised (context_build_error "evidence revision must be >= 1")
    else if not (temporal_allows case evidence reference_time)
    then rest
    else elim (visibility_basis evidence.visibility actor_id role_id) [
      | none ↦ rest
      | some basis ↦ (do admitted ← rest; returned (rebase candidate basis ∷ admitted))
    ]

-- `sorted(admitted, key=lambda item: item.evidence.evidence_id)`: a stable insertion sort.
abbrev pub evidence_id_of : AdmittedEvidence → String
evidence_id_of item = item.evidence.evidence_id

unfoldable pub insert_by_id : AdmittedEvidence → List AdmittedEvidence → List AdmittedEvidence
insert_by_id item [] = item ∷ []
insert_by_id item (x ∷ xs) =
    if text_ltb (evidence_id_of x) (evidence_id_of item)
    then x ∷ insert_by_id item xs
    else item ∷ x ∷ xs

unfoldable pub sort_by_id : List AdmittedEvidence → List AdmittedEvidence
unfolding insert_by_id
sort_by_id [] = []
sort_by_id (item ∷ items) = insert_by_id item (sort_by_id items)

unfoldable pub admission_record_of : AdmittedEvidence → EvidenceAdmissionRecord
admission_record_of item = record {
  evidence_id = item.evidence.evidence_id;
  revision = item.revision;
  snapshot_hash = item.evidence.snapshot_hash;
  visibility_basis = item.visibility_basis;
}

-- The manifest's document, before and with its hash.
abbrev pub manifest_document :
    Case → ContextBuildRequest → ℕ → List AdmittedEvidence → Option String → ContextManifest
manifest_document case request reference_time admitted hash = record {
  context_manifest_id = request.context_manifest_id;
  case_id = case.case_id;
  run_id = request.run_id;
  stage = request.stage;
  role_id = request.role_id;
  evidence_ids = map evidence_id_of admitted;
  prior_run_ids = request.prior_run_ids;
  tool_permissions = request.tool_permissions;
  protocol_version = case.protocol_version;
  model_id = request.model_id;
  prompt_version = request.prompt_version;
  forbidden_scopes = request.forbidden_scopes;
  time_boundary = some reference_time;
  hash_sha256 = hash;
}

-- `parse_context_manifest`: the schema is asked about the document, and about its normal form, which
-- is the same one.
unfoldable pub parse_context_manifest :
    (ContextManifest → List String) → ContextManifest → Outcome ContextError ContextManifest
parse_context_manifest validate_instance document = do
  raise_if (not (is_empty (validate_instance document))) (
      contract_validation_error
        (format ("context-manifest.schema.json: " ∷ join "; " (validate_instance document) ∷ [])))
  raise_if (not (is_empty (validate_instance document))) (
      contract_validation_error (
        format (
          "normalized context-manifest.schema.json: "
          ∷ join "; " (validate_instance document)
          ∷ [])))
  returned document

-- The constructor of an admission record, with its validator on the hash.
unfoldable pub context_admission_record :
    (AdmissionPayload → String)
    → AdmissionPayload
    → String
    → Outcome ContextError ContextAdmissionRecord
context_admission_record admission_hash payload record_hash = do
  raise_if (record_hash != admission_hash payload)
      (validation_error "Context admission record_hash does not match payload")
  returned (record { payload = payload; record_hash = record_hash })

abbrev pub admission_payload :
    ContextBuildRequest → ℕ → List AdmittedEvidence → String → String → AdmissionPayload
admission_payload request reference_time admitted manifest_id hash = record {
  context_manifest_id = manifest_id;
  manifest_hash = hash;
  actor_id = request.actor_id;
  role_id = request.role_id;
  reference_time = reference_time;
  evidence = map admission_record_of admitted;
}

-- The end of the construction, from the manifest that was parsed.
unfoldable pub admit :
    (AdmissionPayload → String)
    → ContextBuildRequest
    → ℕ
    → List AdmittedEvidence
    → ContextManifest
    → Outcome ContextError ContextBuildResult
unfolding context_admission_record
admit admission_hash request reference_time admitted manifest = elim manifest.hash_sha256 [
  | none ↦ raised (context_build_error "manifest hash unexpectedly missing")
  | some hash ↦ (do
    let payload =
        admission_payload request reference_time admitted manifest.context_manifest_id hash
    admission ← context_admission_record admission_hash payload (admission_hash payload)
    returned (record { manifest = manifest; admission = admission }))
]

-- What the construction calls and this library does not implement.
pub record ContextServices : Type 0 where
  pub list_context_evidence : Case → Option String → String → ℕ → List AdmittedEvidence
  pub stable_hash : ContextManifest → String
  pub admission_hash : AdmissionPayload → String
  pub validate_instance : ContextManifest → List String

module _ (services : ContextServices) where
  open services use {list_context_evidence, stable_hash, admission_hash, validate_instance}

  -- From the candidates that were found admissible to the result.
  unfoldable pub assemble :
      Case
      → ContextBuildRequest
      → ℕ
      → List AdmittedEvidence
      → Outcome ContextError ContextBuildResult
  unfolding parse_context_manifest admit
  assemble case request reference_time found = do
    raise_if (not (all_distinct (map evidence_id_of found))) (
        context_build_error
          "context source returned multiple admissible revisions for one evidence_id")
    let admitted = sort_by_id found
    let document = manifest_document case request reference_time admitted none
    manifest ←
        parse_context_manifest validate_instance
          (manifest_document case request reference_time admitted (some (stable_hash document)))
    admit admission_hash request reference_time admitted manifest

  unfoldable pub build_context :
      Case → ContextBuildRequest → Outcome ContextError ContextBuildResult
  unfolding assemble
  build_context case request = do
    reference_time ← effective_reference_time case request
    found ←
        revalidate_candidates
          (list_context_evidence case request.actor_id request.role_id reference_time) case
          request.actor_id (some request.role_id) reference_time
    assemble case request reference_time found
