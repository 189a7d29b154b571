-- ===== src/Integration/CrossExam/Freezing.antt =====
-- The checks and the freezing of grants, tasks and responses of cross_exam.py.
use human_cos_fft1_trial.Prelude.{
  nat_eq, string_eq, bool_eq, option_eq, list_eq, pair_eq, List, Outcome, String, all_distinct,
  for_each, is_empty, ltb, not, raise_if, returned, ℕ, ◌!=◌, ◌&&◌, ◌>>◌,
}
use human_cos_fft1_trial.Integration.CrossExam.{
  Checked, CrossExamContractError, CrossExamFinding, CrossExamHashes, CrossExamResponse,
  CrossExamResponsePayload, CrossExamTask, CrossExamTaskPayload, DisclosureGrant,
  DisclosureGrantPayload, ReviewPromptType, SourceRef, cross_exam_contract_error, source_key,
  source_keys, within,
}

-- The tuples of the task and of the grant.
abbrev pub task_binding : CrossExamTask → String × (ℕ × (String × (String × String)))
task_binding task = (
  task.payload.case_id,
  (
    task.payload.case_revision,
    (task.payload.reviewer_id, (task.payload.grant_hash, task.payload.protocol_version)),
  ),
)

abbrev pub grant_binding : DisclosureGrant → String × (ℕ × (String × (String × String)))
grant_binding grant = (
  grant.payload.case_id,
  (
    grant.payload.case_revision,
    (grant.payload.reviewer_id, (grant.hash, grant.payload.protocol_version)),
  ),
)

unfoldable pub check_finding : List SourceRef → CrossExamFinding → Checked
unfolding source_key
check_finding granted finding = do
  raise_if (is_empty finding.source_refs)
      (cross_exam_contract_error "Cross Examination finding requires source references")
  raise_if (not (within finding.source_refs granted))
      (cross_exam_contract_error "Cross Examination finding cites an undisclosed source")

module _ (hashes : CrossExamHashes) where
  open hashes use {grant_sha256, task_sha256, response_sha256}

  unfoldable pub assert_grant_integrity : DisclosureGrant → Checked
  assert_grant_integrity grant = do
    raise_if (grant.hash != grant_sha256 grant.payload)
        (cross_exam_contract_error "DisclosureGrant grant_hash does not match payload")
    raise_if (not (all_distinct (source_keys grant.payload.allowed_sources)))
        (cross_exam_contract_error "DisclosureGrant allowed_sources must be unique")
    raise_if (is_empty grant.payload.allowed_sources)
        (cross_exam_contract_error "DisclosureGrant requires at least one frozen source")

  unfoldable pub assert_task_integrity : CrossExamTask → Checked
  assert_task_integrity task = do
    raise_if (task.hash != task_sha256 task.payload)
        (cross_exam_contract_error "CrossExamTask task_hash does not match payload")
    raise_if (is_empty task.payload.source_refs)
        (cross_exam_contract_error "CrossExamTask requires at least one disclosed source")
    raise_if (is_empty task.payload.prompt_types)
        (cross_exam_contract_error "CrossExamTask requires at least one review prompt type")

  unfoldable pub assert_response_integrity : CrossExamResponse → Checked
  assert_response_integrity response = do
    raise_if (response.hash != response_sha256 response.payload)
        (cross_exam_contract_error "CrossExamResponse response_hash does not match payload")
    raise_if (ltb response.payload.frozen_at response.payload.submitted_at)
        (cross_exam_contract_error "CrossExamResponse cannot freeze before submission")

  unfoldable pub freeze_disclosure_grant :
      DisclosureGrantPayload → Outcome CrossExamContractError DisclosureGrant
  unfolding assert_grant_integrity
  freeze_disclosure_grant payload = do
    let grant : DisclosureGrant = record { payload = payload; hash = grant_sha256 payload }
    assert_grant_integrity grant
    returned grant

  unfoldable pub assert_disclosure_authorized : DisclosureGrant → List SourceRef → Checked
  unfolding assert_grant_integrity source_key
  assert_disclosure_authorized grant requested_sources = do
    assert_grant_integrity grant
    raise_if (is_empty requested_sources)
        (cross_exam_contract_error "Cross Examination cannot request an empty source packet")
    raise_if (not (within requested_sources grant.payload.allowed_sources))
        (cross_exam_contract_error "Cross Examination requested a source not in disclosure grant")

  unfoldable pub build_cross_exam_task :
      DisclosureGrant
      → String
      → List SourceRef
      → List ReviewPromptType
      → ℕ
      → List String
      → Outcome CrossExamContractError CrossExamTask
  unfolding assert_disclosure_authorized assert_task_integrity
  build_cross_exam_task grant task_id source_refs prompt_types frozen_at prior_hashes = do
    assert_disclosure_authorized grant source_refs
    raise_if (grant.payload.independent_review_required && not (is_empty prior_hashes)) (
        cross_exam_contract_error
          "independent Cross Examination reviewer cannot see other review responses before freeze")
    let payload : CrossExamTaskPayload = record {
      task_id = task_id;
      case_id = grant.payload.case_id;
      case_revision = grant.payload.case_revision;
      reviewer_id = grant.payload.reviewer_id;
      grant_hash = grant.hash;
      source_refs = source_refs;
      prompt_types = prompt_types;
      prior_review_response_hashes = prior_hashes;
      protocol_version = grant.payload.protocol_version;
      frozen_at = frozen_at;
    }
    let task : CrossExamTask = record { payload = payload; hash = task_sha256 payload }
    assert_task_integrity task
    returned task

  unfoldable pub freeze_cross_exam_response :
      DisclosureGrant
      → CrossExamTask
      → String
      → List CrossExamFinding
      → ℕ
      → ℕ
      → Outcome CrossExamContractError CrossExamResponse
  unfolding assert_grant_integrity assert_task_integrity check_finding assert_response_integrity
  freeze_cross_exam_response grant task response_id findings submitted_at frozen_at = do
    assert_grant_integrity grant
    assert_task_integrity task
    raise_if (task_binding task != grant_binding grant)
        (cross_exam_contract_error "CrossExamTask does not bind the supplied DisclosureGrant")
    for_each findings (check_finding task.payload.source_refs)
    let payload : CrossExamResponsePayload = record {
      response_id = response_id;
      case_id = task.payload.case_id;
      case_revision = task.payload.case_revision;
      task_hash = task.hash;
      reviewer_id = task.payload.reviewer_id;
      grant_hash = task.payload.grant_hash;
      findings = findings;
      protocol_version = task.payload.protocol_version;
      submitted_at = submitted_at;
      frozen_at = frozen_at;
    }
    let response : CrossExamResponse = record { payload = payload; hash = response_sha256 payload }
    assert_response_integrity response
    returned response
