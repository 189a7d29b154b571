-- ===== src/Runtime/Run.antt =====
-- runtime/src/human_cos/runtime/run.py: the manifest of a run, the lifecycle of its snapshots and the
-- comparison of two replays. A hash is its text, and a timestamp, which the contracts hold to be
-- timezone-aware, the number of its instant.
pub mod Lifecycle
pub mod Chain
pub mod Replay
use human_cos_fft1_trial.Prelude.{
  nat_eq, string_eq, bool_eq, option_eq, list_eq, pair_eq, Bool, Eq, List, Option, Outcome, String,
  [], check_fields, contains, false, for_each, get_or, if◌then◌else◌, is_empty, is_sha256_or_none,
  none, not, raise_if, refl, some, through, true, ℕ, ◌!=◌, ◌&&◌, ◌>>=◌, ◌>>◌, ◌∷◌, ◌≡◌,
}
use human_cos_fft1_trial.Prelude.Texts.{format, is_sha256}

pub data RunStatus : Type 0 where
  created running frozen invalid failed : RunStatus

abbrev pub status_place : RunStatus → ℕ
status_place created = 0
status_place running = 1
status_place frozen = 2
status_place invalid = 3
status_place failed = 4

abbrev pub status_member : ℕ → RunStatus
status_member n = get_or (created ∷ running ∷ frozen ∷ invalid ∷ []) n failed

pub status_member_place : (s : RunStatus) → status_member (status_place s) ≡ s
status_member_place created = refl
status_member_place _ = refl

instance abbrev pub status_eq : Eq RunStatus
status_eq = through status_place status_member status_member_place

unfoldable pub status_value : RunStatus → String
status_value created = "CREATED"
status_value running = "RUNNING"
status_value frozen = "FROZEN"
status_value invalid = "INVALID"
status_value failed = "FAILED"

pub record RunIndependence : Type 0 where
  pub context : Bool
  pub prompt : Bool
  pub model_family : Bool
  pub provider : Bool
  pub evidence_path : Bool
  pub expert : Option Bool

instance abbrev pub independence_eq : Eq RunIndependence
independence_eq =
    through {B = Bool × (Bool × (Bool × (Bool × (Bool × Option Bool))))}
      (λ i. (i.context, (i.prompt, (i.model_family, (i.provider, (i.evidence_path, i.expert))))))
      (λ (context, rest). record {
        context = context;
        prompt = rest.0;
        model_family = rest.1.0;
        provider = rest.1.1.0;
        evidence_path = rest.1.1.1.0;
        expert = rest.1.1.1.1;
      })
      (λ i. refl)

pub record RunManifest : Type 0 where
  pub run_id : String
  pub case_id : String
  pub stage : String
  pub role_type : String
  pub model_id : String
  pub model_family : String
  pub provider : String
  pub protocol_version : String
  pub context_manifest_hash : String
  pub prompt_version : Option String
  pub tool_permissions : Option (List String)
  pub status : RunStatus
  pub parent_run_id : Option String
  pub fallback_from : Option String
  pub raw_output_ref : Option String
  pub raw_output_hash : Option String
  pub structured_output_hash : Option String
  pub independence : RunIndependence
  pub started_at : Option ℕ
  pub finished_at : Option ℕ

-- What the contract checks when a manifest is built, but not when one is copied.
unfoldable pub check_run_manifest : RunManifest → Outcome (List String) (Unit {0})
unfolding is_sha256
check_run_manifest m =
    check_fields (λ names. names)
      (("run_id", m.run_id != "")
        ∷ ("case_id", m.case_id != "")
        ∷ ("stage", m.stage != "")
        ∷ ("role_type", m.role_type != "")
        ∷ ("model_id", m.model_id != "")
        ∷ ("model_family", m.model_family != "")
        ∷ ("provider", m.provider != "")
        ∷ ("protocol_version", m.protocol_version != "")
        ∷ ("context_manifest_hash", is_sha256 m.context_manifest_hash)
        ∷ ("raw_output_hash", is_sha256_or_none m.raw_output_hash)
        ∷ ("structured_output_hash", is_sha256_or_none m.structured_output_hash)
        ∷ [])

pub data RunTransitionError : Type 0 where
  run_transition_error : String → RunTransitionError

unfoldable pub allowed_status_transitions : RunStatus → List RunStatus
allowed_status_transitions created = running ∷ invalid ∷ failed ∷ []
allowed_status_transitions running = frozen ∷ invalid ∷ failed ∷ []
allowed_status_transitions frozen = []
allowed_status_transitions invalid = []
allowed_status_transitions failed = []

-- `getattr(previous, field_name) != getattr(current, field_name)` for each of `_STABLE_FIELDS`.
unfoldable pub stable_fields : RunManifest → RunManifest → List (String × Bool)
stable_fields previous current =
    ("case_id", previous.case_id != current.case_id)
    ∷ ("stage", previous.stage != current.stage)
    ∷ ("role_type", previous.role_type != current.role_type)
    ∷ ("protocol_version", previous.protocol_version != current.protocol_version)
    ∷ ("context_manifest_hash", previous.context_manifest_hash != current.context_manifest_hash)
    ∷ ("prompt_version", previous.prompt_version != current.prompt_version)
    ∷ ("tool_permissions", previous.tool_permissions != current.tool_permissions)
    ∷ ("parent_run_id", previous.parent_run_id != current.parent_run_id)
    ∷ ("independence", previous.independence != current.independence)
    ∷ []

abbrev pub Identity : Type 0
Identity = String × (String × String)

abbrev pub identity : RunManifest → Identity
identity manifest = (manifest.model_id, (manifest.model_family, manifest.provider))

unfoldable pub assert_progressive_optional :
    {A : Type 0} ⦃e : Eq A⦄ → Option A → Option A → String → Outcome RunTransitionError (Unit {0})
assert_progressive_optional previous current field_name =
    raise_if (previous != none && current != previous)
      (run_transition_error (format (field_name ∷ " cannot change after it is recorded" ∷ [])))

-- The checks on a replaced or a kept model identity.
unfoldable pub check_identity : RunManifest → RunManifest → Outcome RunTransitionError (Unit {0})
check_identity previous current =
    if identity current != identity previous
    then (do
      raise_if (current.fallback_from != some previous.model_id) (
          run_transition_error
            "model identity replacement requires explicit fallback_from matching the prior model_id")
      raise_if (previous.fallback_from != none && current.fallback_from != previous.fallback_from)
          (run_transition_error "fallback_from cannot be rewritten"))
    else raise_if (current.fallback_from != previous.fallback_from)
        (run_transition_error "fallback_from cannot appear without an identity replacement")

unfoldable pub check_recorded : RunManifest → RunManifest → Outcome RunTransitionError (Unit {0})
unfolding assert_progressive_optional
check_recorded previous current = do
  assert_progressive_optional previous.raw_output_ref current.raw_output_ref "raw_output_ref"
  assert_progressive_optional previous.raw_output_hash current.raw_output_hash "raw_output_hash"
  assert_progressive_optional previous.structured_output_hash current.structured_output_hash
      "structured_output_hash"
  assert_progressive_optional previous.started_at current.started_at "started_at"
  assert_progressive_optional previous.finished_at current.finished_at "finished_at"

unfoldable pub check_run : RunManifest → RunManifest → Outcome RunTransitionError (Unit {0})
check_run previous current =
    raise_if (current.run_id != previous.run_id)
      (run_transition_error "run_id cannot change across lifecycle snapshots")

unfoldable pub check_lifecycle : RunManifest → RunManifest → Outcome RunTransitionError (Unit {0})
unfolding allowed_status_transitions status_value
check_lifecycle previous current =
    raise_if (not (contains current.status (allowed_status_transitions previous.status))) (
      run_transition_error (
        format (
          "invalid Run lifecycle transition: "
          ∷ status_value previous.status
          ∷ " -> "
          ∷ status_value current.status
          ∷ [])))

unfoldable pub check_stable : RunManifest → RunManifest → Outcome RunTransitionError (Unit {0})
unfolding stable_fields
check_stable previous current = for_each (stable_fields previous current) λ (field_name, changed).
    raise_if changed
      (run_transition_error (format (field_name ∷ " cannot change across Run snapshots" ∷ [])))

-- The checks of the source in their order.
unfoldable pub validate_run_snapshot_transition :
    RunManifest → RunManifest → Outcome RunTransitionError (Unit {0})
unfolding check_run check_lifecycle check_stable check_identity check_recorded
validate_run_snapshot_transition previous current = do
  check_run previous current
  check_lifecycle previous current
  check_stable previous current
  check_identity previous current
  check_recorded previous current

pub record LineageComparison : Type 0 where
  pub same_control_plane : Bool
  pub changed_control_fields : List String
  pub changed_output_fields : List String

-- `getattr(left, field_name) != getattr(right, field_name)` for each of `_CONTROL_FIELDS`.
unfoldable pub control_fields : RunManifest → RunManifest → List (String × Bool)
control_fields left right =
    ("case_id", left.case_id != right.case_id)
    ∷ ("stage", left.stage != right.stage)
    ∷ ("role_type", left.role_type != right.role_type)
    ∷ ("model_id", left.model_id != right.model_id)
    ∷ ("model_family", left.model_family != right.model_family)
    ∷ ("provider", left.provider != right.provider)
    ∷ ("protocol_version", left.protocol_version != right.protocol_version)
    ∷ ("context_manifest_hash", left.context_manifest_hash != right.context_manifest_hash)
    ∷ ("prompt_version", left.prompt_version != right.prompt_version)
    ∷ ("tool_permissions", left.tool_permissions != right.tool_permissions)
    ∷ ("parent_run_id", left.parent_run_id != right.parent_run_id)
    ∷ ("fallback_from", left.fallback_from != right.fallback_from)
    ∷ ("independence", left.independence != right.independence)
    ∷ []

unfoldable pub output_fields : RunManifest → RunManifest → List (String × Bool)
output_fields left right =
    ("raw_output_hash", left.raw_output_hash != right.raw_output_hash)
    ∷ ("structured_output_hash", left.structured_output_hash != right.structured_output_hash)
    ∷ []

-- The names of the fields that differ.
unfoldable pub changed : List (String × Bool) → List String
changed [] = []
changed ((name, true) ∷ fields) = name ∷ changed fields
changed ((name, false) ∷ fields) = changed fields

unfoldable pub compare_replay_manifests : RunManifest → RunManifest → LineageComparison
unfolding control_fields output_fields changed
compare_replay_manifests left right = record {
  same_control_plane = is_empty (changed (control_fields left right));
  changed_control_fields = changed (control_fields left right);
  changed_output_fields = changed (output_fields left right);
}
