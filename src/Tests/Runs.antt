-- ===== src/Tests/Runs.antt =====
-- The snapshots of one run of run.py, whose model is replaced by its fallback.
use human_cos_fft1_trial.Prelude.{
  nat_eq, string_eq, bool_eq, option_eq, list_eq, pair_eq, false, none, refl, returned, some, true,
  ◌↔◌, ◌≡◌, ◌≤◌, ◌⊎◌,
}
use human_cos_fft1_trial.Runtime.Run.{
  status_eq, independence_eq, RunManifest, created, frozen, identity, running,
  validate_run_snapshot_transition,
}
use human_cos_fft1_trial.Runtime.Run.Chain.{
  Chain, Chain-immutable, Chain-origin, accepted, accepted-le_left, append, begin, left,
}
use human_cos_fft1_trial.Runtime.Run.Lifecycle.{Follows, KeptOutputs, SameStable, validate_iff}

abbrev created_run : RunManifest
created_run = record {
  run_id = "run-1";
  case_id = "case-1";
  stage = "framing";
  role_type = "controller";
  model_id = "alpha";
  model_family = "greek";
  provider = "north";
  protocol_version = "0.1";
  context_manifest_hash = "c0";
  prompt_version = none;
  tool_permissions = none;
  status = created;
  parent_run_id = none;
  fallback_from = none;
  raw_output_ref = none;
  raw_output_hash = none;
  structured_output_hash = none;
  independence = record {
    context = true;
    prompt = true;
    model_family = true;
    provider = false;
    evidence_path = true;
    expert = none;
  };
  started_at = none;
  finished_at = none;
}

abbrev running_run : RunManifest
running_run = record created_run { status = running; started_at = some 10 }

-- The model is replaced while the run is frozen, and its output recorded.
abbrev frozen_run : RunManifest
frozen_run = record running_run {
  status = frozen;
  model_id = "beta";
  fallback_from = some "alpha";
  raw_output_ref = some "ref";
  raw_output_hash = some "h1";
  finished_at = some 20;
}

started : validate_run_snapshot_transition created_run running_run ≡ returned tt
unfolding validate_run_snapshot_transition
started = refl

frozen_with_fallback : validate_run_snapshot_transition running_run frozen_run ≡ returned tt
unfolding validate_run_snapshot_transition
frozen_with_fallback = refl

abbrev whole_run : Chain created_run frozen_run
whole_run = append (append begin started) frozen_with_fallback

validate_iff_example :
    (validate_run_snapshot_transition running_run frozen_run ≡ returned tt)
    ↔ Follows running_run frozen_run
validate_iff_example = validate_iff running_run frozen_run

Chain-origin_example :
    (identity frozen_run ≡ identity created_run) × (frozen_run.fallback_from ≡ none)
    ⊎ (frozen_run.fallback_from ≡ some created_run.model_id)
Chain-origin_example = Chain-origin refl whole_run

Chain-immutable_example :
    (frozen_run.run_id ≡ created_run.run_id)
    × SameStable created_run frozen_run
    × KeptOutputs created_run frozen_run
Chain-immutable_example = Chain-immutable whole_run

accepted-le_left_example : accepted whole_run ≤ left created
accepted-le_left_example = accepted-le_left whole_run
