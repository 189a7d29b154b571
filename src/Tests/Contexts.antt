-- ===== src/Tests/Contexts.antt =====
-- The context of a blind evaluation, of context.py and visibility.py, at concrete evidence.
use human_cos_fft1_trial.Prelude.{
  nat_eq, string_eq, bool_eq, option_eq, list_eq, pair_eq, List, [], false, none, refl, returned,
  some, true, ◌↔◌, ◌∷◌, ◌≡◌,
}
use human_cos_fft1_trial.Core.Context.{
  AdmittedEvidence, ContextBuildRequest, ContextBuildResult, ContextServices, admission_payload,
  admission_record_of, admit, assemble, build_context, context_admission_record,
  effective_reference_time, manifest_document, parse_context_manifest, revalidate_candidates,
  sort_by_id,
}
use human_cos_fft1_trial.Core.Context.Build.{Admits, build_context-Admits}
use human_cos_fft1_trial.Core.Context.Candidates.{Selected, revalidate-selects}
use human_cos_fft1_trial.Core.Contracts.{temporal_eq, Case, Evidence, pre_t0, reported}
use human_cos_fft1_trial.Core.Visibility.{public, role, temporal_allows, visibility_basis}
use human_cos_fft1_trial.Core.Visibility.Rules.{InTime, temporal_allows_iff}
use human_cos_fft1_trial.Runtime.States.{mode_eq, state_eq, historical_blind_eval}

abbrev pub old_case : Case
old_case = record {
  case_id = "case-1";
  revision = 1;
  case_mode = historical_blind_eval;
  question = "What comes?";
  protocol_version = "0.1";
  T0 = 100;
  actors = none;
  domains = none;
  state = none;
  owner = none;
}

abbrev pub note : Evidence
note = record {
  evidence_id = "e2";
  case_id = "case-1";
  content = none;
  source_type = "report";
  source_uri_or_ref = none;
  source_timestamp = 50;
  ingested_at = 900;
  available_from = 60;
  available_until = none;
  visibility = record { public = false; actor_ids = []; role_ids = "worker" ∷ [] };
  temporal_class = pre_t0;
  fact_status = reported;
  snapshot_hash = "s2";
  supersedes = none;
  tags = none;
  evidence_conflict_ids = none;
}

-- From before T0, but only published behind it.
abbrev late_note : Evidence
late_note = record note { evidence_id = "e1"; available_from = 101 }

abbrev offered : List AdmittedEvidence
offered =
    record { evidence = note; revision = 3; visibility_basis = public }
    ∷ record { evidence = late_note; revision = 1; visibility_basis = public }
    ∷ []

abbrev pub admitted_notes : List AdmittedEvidence
admitted_notes = record { evidence = note; revision = 3; visibility_basis = role } ∷ []

temporal_allows_iff_example :
    (temporal_allows old_case note 1000 ≡ true) ↔ InTime old_case note 1000
temporal_allows_iff_example = temporal_allows_iff old_case note 1000

offered_selected :
    revalidate_candidates offered old_case none (some "worker") 1000 ≡ returned admitted_notes
unfolding revalidate_candidates temporal_allows visibility_basis
offered_selected = refl

revalidate-selects_example : Selected old_case none (some "worker") 1000 offered admitted_notes
revalidate-selects_example =
    revalidate-selects old_case none (some "worker") 1000 offered offered_selected

-- A source of the two notes, with hashes by a field and a schema that refuses nothing.
abbrev pub note_services : ContextServices
note_services = record {
  list_context_evidence = λ case actor_id role_id as_of. offered;
  stable_hash = λ manifest. manifest.run_id;
  admission_hash = λ payload. payload.manifest_hash;
  validate_instance = λ manifest. [];
}

abbrev pub build_request : ContextBuildRequest
build_request = record {
  context_manifest_id = "cm-1";
  run_id = "run-1";
  stage = "framing";
  role_id = "worker";
  actor_id = none;
  model_id = "alpha";
  prompt_version = "p1";
  reference_time = none;
  tool_permissions = [];
  prior_run_ids = [];
  forbidden_scopes = [];
}

abbrev pub built : ContextBuildResult
built = record {
  manifest = manifest_document old_case build_request 100 admitted_notes (some "run-1");
  admission = record {
    payload = admission_payload build_request 100 admitted_notes "cm-1" "run-1";
    record_hash = "run-1";
  };
}

pub context_built : build_context note_services old_case build_request ≡ returned built
unfolding build_context effective_reference_time revalidate_candidates temporal_allows
    visibility_basis assemble parse_context_manifest sort_by_id admit context_admission_record
    admission_record_of
context_built = refl

build_context-Admits_example : Admits note_services old_case build_request built
build_context-Admits_example =
    build_context-Admits note_services old_case build_request context_built
