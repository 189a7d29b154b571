-- ===== src/Integration/CrossExam/Disclosure.antt =====
-- Which sources a frozen response of cross_exam.py can cite.
use human_cos_fft1_trial.Prelude.{
  nat_eq, string_eq, bool_eq, option_eq, list_eq, pair_eq, >>=-eq-returned, All, All-imp, Eq, List,
  Memᴰ, Memᴰ-cons, String, [], all, arith, both_iff, contains, contains_iff, each_iff, empty_iff,
  false, filled_iff, for_each, implies_iff, inl, inr, is_empty, not, not-false_iff, raise_if,
  raise_if-eq-returned, raises_iff, refl, returned, returned-injective, subst, sym, true, ℕ, ◌!=◌,
  ◌&&◌, ◌↔◌, ◌∷◌, ◌≡◌, ◌≢◌,
}
use human_cos_fft1_trial.Integration.CrossExam.{
  CrossExamFinding, CrossExamHashes, CrossExamResponse, CrossExamTask, DisclosureGrant,
  ReviewPromptType, SourceRef, source_keys, within,
}
use human_cos_fft1_trial.Integration.CrossExam.Freezing.{
  assert_disclosure_authorized, assert_grant_integrity, assert_response_integrity,
  assert_task_integrity, build_cross_exam_task, check_finding, freeze_cross_exam_response,
  grant_binding, task_binding,
}

-- Every requested source is, by its key, one of the granted ones.
abbrev pub Within : List SourceRef → List SourceRef → Type 0
Within requested granted =
    (key : String × (String × String))
    → Memᴰ key (source_keys requested)
    → Memᴰ key (source_keys granted)

all_within_iff :
    {A : Type 0} ⦃e : Eq A⦄ (keys granted : List A)
    → (all (λ key. contains key granted) keys ≡ true)
      ↔ ((key : A) → Memᴰ key keys → Memᴰ key granted)
all_within_iff [] granted = (λ h key m. elim m [ ], λ h. refl)
all_within_iff (k ∷ keys) granted =
    let rest = all_within_iff keys granted in
    let here = contains_iff k granted in
    (
      λ h key m. elim (Memᴰ-cons m) [
        | inl same ↦ subst (λ x. Memᴰ x granted) (sym same) (here.0 (ground arith))
        | inr later ↦ rest.0 (ground arith) key later
      ],
      λ h.
          let first = here.1 (h k (Memᴰ.head refl)) in
          let others = rest.1 (λ key m. h key (Memᴰ.tail m)) in ground arith,
    )

pub within_iff :
    (requested granted : List SourceRef)
    → (not (within requested granted) ≡ false) ↔ Within requested granted
within_iff requested granted =
    let t = not-false_iff (within requested granted) in
    let w = all_within_iff (source_keys requested) (source_keys granted) in
    (λ h. w.0 (t.0 h), λ h. t.1 (w.1 h))

check_finding_iff :
    (granted : List SourceRef) (finding : CrossExamFinding)
    → (check_finding granted finding ≡ returned tt)
      ↔ (finding.source_refs ≢ []) × Within finding.source_refs granted
unfolding check_finding
check_finding_iff granted finding =
    both_iff (raises_iff _ (filled_iff finding.source_refs))
      (raises_iff _ (within_iff finding.source_refs granted))

module _ (hashes : CrossExamHashes) (grant : DisclosureGrant) where
  -- What a task that was built discloses, and to whom.
  pub record Disclosed (task : CrossExamTask) : Type 0 where
    pub bound : task_binding task ≡ grant_binding grant
    pub granted : Within task.payload.source_refs grant.payload.allowed_sources
    pub independent :
        grant.payload.independent_review_required ≡ true
        → task.payload.prior_review_response_hashes ≡ []

  -- A task that is built is bound to its grant, asks for granted sources only, and shows a reviewer who
  -- has to be independent no other response.
  pub build_cross_exam_task-Disclosed :
      (task_id : String) (source_refs : List SourceRef) (prompt_types : List ReviewPromptType)
      (frozen_at : ℕ) (prior_hashes : List String) {task : CrossExamTask}
      → build_cross_exam_task hashes grant task_id source_refs prompt_types frozen_at prior_hashes
        ≡ returned task
      → Disclosed task
  unfolding build_cross_exam_task assert_disclosure_authorized
  build_cross_exam_task-Disclosed task_id source_refs prompt_types frozen_at prior_hashes h =
      let (u, authorized, rest) =
        >>=-eq-returned (assert_disclosure_authorized hashes grant source_refs) _ h in
      let (v, isolated, after) =
        >>=-eq-returned
          (raise_if (grant.payload.independent_review_required && not (is_empty prior_hashes)) _) _
          rest in
      let (w, intact, end) = >>=-eq-returned (assert_task_integrity hashes _) _ after in
      let (a, _, asked) = >>=-eq-returned (assert_grant_integrity hashes grant) _ authorized in
      let (b, _, inside) = >>=-eq-returned (raise_if (is_empty source_refs) _) _ asked in
      let independent =
        implies_iff {a = grant.payload.independent_review_required} (λ h. h, λ h. h)
          (empty_iff prior_hashes) in
      subst Disclosed (returned-injective end) (record {
        bound = refl;
        granted = (within_iff _ _).0 (raise_if-eq-returned _ _ inside);
        independent = independent.0 (raise_if-eq-returned _ _ isolated);
      })

  frozen_findings :
      (task : CrossExamTask) (response_id : String) (findings : List CrossExamFinding)
      (submitted_at frozen_at : ℕ) {response : CrossExamResponse}
      → freeze_cross_exam_response hashes grant task response_id findings submitted_at frozen_at
        ≡ returned response
      → All
          (λ f. (f.source_refs ≢ []) × Within f.source_refs task.payload.source_refs)
          response.payload.findings
  unfolding freeze_cross_exam_response
  frozen_findings task response_id findings submitted_at frozen_at h =
      let (u, _, h₁) = >>=-eq-returned (assert_grant_integrity hashes grant) _ h in
      let (v, _, h₂) = >>=-eq-returned (assert_task_integrity hashes task) _ h₁ in
      let (w, _, h₃) =
        >>=-eq-returned (raise_if (task_binding task != grant_binding grant) _) _ h₂ in
      let (x, cited, h₄) =
        >>=-eq-returned (for_each findings (check_finding task.payload.source_refs)) _ h₃ in
      let (y, _, end) = >>=-eq-returned (assert_response_integrity hashes _) _ h₄ in
      subst
        (λ r.
          All (λ f. (f.source_refs ≢ []) × Within f.source_refs task.payload.source_refs)
            r.payload.findings)
        (returned-injective end)
        ((each_iff findings (check_finding_iff task.payload.source_refs)).0 cited)

  -- A response that is frozen for a task that was built from the grant cites at least one source in
  -- every finding, and only sources of the grant.
  pub freeze_cross_exam_response-Within :
      (task_id : String) (source_refs : List SourceRef) (prompt_types : List ReviewPromptType)
      (task_at : ℕ) (prior_hashes : List String) {task : CrossExamTask} (response_id : String)
      (findings : List CrossExamFinding) (submitted_at frozen_at : ℕ) {response : CrossExamResponse}
      → build_cross_exam_task hashes grant task_id source_refs prompt_types task_at prior_hashes
        ≡ returned task
      → freeze_cross_exam_response hashes grant task response_id findings submitted_at frozen_at
        ≡ returned response
      → All
          (λ f. (f.source_refs ≢ []) × Within f.source_refs grant.payload.allowed_sources)
          response.payload.findings
  freeze_cross_exam_response-Within task_id source_refs prompt_types task_at prior_hashes {task}
        response_id findings submitted_at frozen_at {response} built answered =
      let disclosed =
        build_cross_exam_task-Disclosed task_id source_refs prompt_types task_at prior_hashes
          built in
      let cited = frozen_findings task response_id findings submitted_at frozen_at answered in
      All-imp response.payload.findings
        (λ f (filled, inside). (filled, λ key m. disclosed.granted key (inside key m))) cited
