-- ===== src/Core/Context/Build.antt =====
-- What `build_context` of context.py lets into a context.
use human_cos_fft1_trial.Prelude.{
  nat_eq, string_eq, bool_eq, option_eq, list_eq, pair_eq, ==_refl, >>=-eq-returned, All-Memᴰ,
  Bool-cases, List, Memᴰ, String, all_distinct, inl, inr, is_empty, map, none, raised_ne_returned,
  refl, returned, returned-injective, some, subst, sym, true, ℕ, ◌∙◌, ◌≡◌,
}
use human_cos_fft1_trial.Core.Context.{
  AdmissionPayload, AdmittedEvidence, ContextBuildRequest, ContextBuildResult, ContextServices,
  admission_payload, admission_record_of, admit, assemble, build_context, effective_reference_time,
  evidence_id_of, manifest_document, parse_context_manifest, revalidate_candidates, sort_by_id,
}
use human_cos_fft1_trial.Core.Context.Candidates.{
  Selected, Selected-complete, Selected-sound, binding, revalidate-selects,
}
use human_cos_fft1_trial.Core.Context.Order.{
  IsAscending, all_distinct_iff, mem-sort_by_id, sort_by_id-IsAscending,
}
use human_cos_fft1_trial.Core.Contracts.{Case, ContextManifest}
use human_cos_fft1_trial.Core.Visibility.{context_allows, visibility_basis}
use human_cos_fft1_trial.Runtime.States.{mode_eq}

parse_context_manifest-eq :
    (validate_instance : ContextManifest → List String) (document : ContextManifest)
    {manifest : ContextManifest}
    → parse_context_manifest validate_instance document ≡ returned manifest
    → document ≡ manifest
unfolding parse_context_manifest
parse_context_manifest-eq validate_instance document h =
    elim (Bool-cases (is_empty (validate_instance document))) [
      | inl clean ↦ returned-injective (rw clean at h)
      | inr errors ↦ absurd (raised_ne_returned (rw errors at h))
    ]

-- The record's own check on its hash passes.
admit-hashed :
    (admission_hash : AdmissionPayload → String) (request : ContextBuildRequest) (time : ℕ)
    (admitted : List AdmittedEvidence) (manifest : ContextManifest) (hash : String)
    → let hashed = record manifest { hash_sha256 = some hash } in
      let payload = admission_payload request time admitted manifest.context_manifest_id hash in
      admit admission_hash request time admitted hashed
      ≡ returned (record {
        manifest = hashed;
        admission = record { payload = payload; record_hash = admission_hash payload };
      })
unfolding admit
admit-hashed admission_hash request time admitted manifest hash = rw (
    ==_refl
      (admission_hash (admission_payload request time admitted manifest.context_manifest_id hash)))

module _ (services : ContextServices) (case : Case) (request : ContextBuildRequest) where
  open services use {list_context_evidence, stable_hash, admission_hash, validate_instance}

  abbrev manifest_hash : ℕ → List AdmittedEvidence → String
  manifest_hash time found =
      stable_hash (manifest_document case request time (sort_by_id found) none)

  abbrev document : ℕ → List AdmittedEvidence → ContextManifest
  document time found =
      manifest_document case request time (sort_by_id found) (some (manifest_hash time found))

  -- An admitted evidence: a candidate of the source that the rules allow, with their basis.
  pub record IsAllowed (time : ℕ) (a : AdmittedEvidence) : Type 0 where
    pub candidate : AdmittedEvidence
    pub listed : Memᴰ candidate (list_context_evidence case request.actor_id request.role_id time)
    pub same : binding candidate ≡ binding a
    pub allowed : context_allows case a.evidence request.actor_id (some request.role_id) time ≡ true
    pub basis :
        visibility_basis a.evidence.visibility request.actor_id (some request.role_id)
        ≡ some a.visibility_basis

  -- The result of a construction from the admissible candidates.
  abbrev assembled : ℕ → List AdmittedEvidence → ContextBuildResult
  assembled time found =
      let payload =
        admission_payload request time (sort_by_id found) request.context_manifest_id
          (manifest_hash time found) in
      record {
        manifest =
            manifest_document case request time (sort_by_id found)
              (some (manifest_hash time found));
        admission = record { payload = payload; record_hash = admission_hash payload };
      }

  assemble-eq-returned :
      (time : ℕ) (found : List AdmittedEvidence) {result : ContextBuildResult}
      → assemble services case request time found ≡ returned result
      → (all_distinct (map evidence_id_of found) ≡ true) × (assembled time found ≡ result)
  unfolding assemble
  assemble-eq-returned time found {result} h =
      elim (Bool-cases (all_distinct (map evidence_id_of found))) [
        | inr doubled ↦ absurd (raised_ne_returned (rw doubled at h))
        | inl distinct ↦
            let (m, parsed, h2) =
              >>=-eq-returned (parse_context_manifest validate_instance (document time found)) _
                (rw distinct at h) in
            let same = parse_context_manifest-eq validate_instance (document time found) parsed in
            let h3 =
              subst (λ d. admit admission_hash request time (sort_by_id found) d ≡ returned result)
                (sym same) h2 in
            (
              distinct,
              returned-injective (
                  sym (
                    admit-hashed admission_hash request time (sort_by_id found)
                      (document time found) (manifest_hash time found))
                  ∙ h3),
            )
      ]

  -- The context as it is promised, at its reference time.
  pub record Admits (result : ContextBuildResult) : Type 0 where
    pub time : ℕ
    pub timed : effective_reference_time case request ≡ returned time
    pub admitted : List AdmittedEvidence
    pub ids : result.manifest.evidence_ids ≡ map evidence_id_of admitted
    pub records : result.admission.payload.evidence ≡ map admission_record_of admitted
    pub ascending : IsAscending admitted
    pub sound : (a : AdmittedEvidence) → Memᴰ a admitted → IsAllowed time a
    pub complete :
        (c : AdmittedEvidence)
        → Memᴰ c (list_context_evidence case request.actor_id request.role_id time)
        → context_allows case c.evidence request.actor_id (some request.role_id) time ≡ true
        → (a : AdmittedEvidence) × Memᴰ a admitted × (binding a ≡ binding c)
    pub hashed :
        result.manifest.hash_sha256
        ≡ some (stable_hash (record result.manifest { hash_sha256 = none }))
    pub bound : result.manifest.hash_sha256 ≡ some result.admission.payload.manifest_hash
    pub recorded : result.admission.record_hash ≡ admission_hash result.admission.payload

  Admits-of_found :
      (time : ℕ) (found : List AdmittedEvidence) {result : ContextBuildResult}
      → effective_reference_time case request ≡ returned time
      → Selected case request.actor_id
          (some request.role_id)
          time
          (list_context_evidence case request.actor_id request.role_id time)
          found
      → assemble services case request time found ≡ returned result
      → Admits result
  Admits-of_found time found timed selected h =
      let (distinct, same) = assemble-eq-returned time found h in
      subst Admits same (record {
        time = time;
        timed = timed;
        admitted = sort_by_id found;
        ids = refl;
        records = refl;
        ascending = sort_by_id-IsAscending found ((all_distinct_iff found).0 distinct);
        sound = λ a m.
            let in_found = (mem-sort_by_id a found).0 m in
            let (c, listed, e, ok) =
              Selected-sound case request.actor_id (some request.role_id) time
                (list_context_evidence case request.actor_id request.role_id time) found selected
                in_found in
            record {
              candidate = c;
              listed = listed;
              same = e;
              allowed = ok;
              basis =
                  All-Memᴰ
                    (λ x.
                      visibility_basis x.evidence.visibility request.actor_id (some request.role_id)
                      ≡ some x.visibility_basis)
                    selected.1 in_found;
            };
        complete = λ c m allowed.
            let (a, in_found, e) =
              Selected-complete case request.actor_id (some request.role_id) time
                (list_context_evidence case request.actor_id request.role_id time) found selected m
                allowed in
            (a, (mem-sort_by_id a found).1 in_found, e);
        hashed = refl;
        bound = refl;
        recorded = refl;
      })

  -- A context that is built holds exactly the candidates that the case, the actor and the role may see
  -- at the reference time, each once and in the order of their ids, with the basis that the rules
  -- give; and both hashes are those of the documents that they stand in or are bound to.
  pub build_context-Admits :
      {result : ContextBuildResult}
      → build_context services case request ≡ returned result
      → Admits result
  unfolding build_context
  build_context-Admits {result} h =
      let (time, timed, h1) = >>=-eq-returned (effective_reference_time case request) _ h in
      let (found, selected, h2) =
        >>=-eq-returned
          (revalidate_candidates (list_context_evidence case request.actor_id request.role_id time)
            case request.actor_id (some request.role_id) time)
          _ h1 in
      Admits-of_found time found timed
        (revalidate-selects case request.actor_id (some request.role_id) time
          (list_context_evidence case request.actor_id request.role_id time) selected)
        h2
