-- ===== src/Runtime/Run/Lifecycle.antt =====
-- What `validate_run_snapshot_transition` of run.py accepts.
use human_cos_fft1_trial.Prelude.{
  nat_eq, string_eq, bool_eq, option_eq, list_eq, pair_eq, !=_false_iff, All, Bool, Bool-cases, Eq,
  List, Option, String, [], arith, both_iff, contains, false, for_each, inl, inr, last_iff, none,
  raise_if, raise_if_iff, raises_iff, refl, returned, same_iff, some, sym, true, ◌!=◌, ◌&&◌, ◌>>◌,
  ◌↔◌, ◌∷◌, ◌≡◌, ◌≢◌, ◌⊎◌,
}
use human_cos_fft1_trial.Prelude.Texts.{format}
use human_cos_fft1_trial.Runtime.Run.{
  status_eq, independence_eq, RunManifest, RunStatus, RunTransitionError,
  allowed_status_transitions, assert_progressive_optional, changed, check_identity, check_lifecycle,
  check_recorded, check_run, check_stable, created, failed, frozen, identity, invalid,
  run_transition_error, running, stable_fields, validate_run_snapshot_transition,
}

-- The lifecycle: a run is created, runs and is frozen; it may become invalid or fail before that.
pub data StatusStep : RunStatus → RunStatus → Type 0 where
  start : StatusStep created running
  freeze : StatusStep running frozen
  refuse : StatusStep created invalid
  break : StatusStep created failed
  invalidate : StatusStep running invalid
  fail : StatusStep running failed

-- A value that is recorded stays.
abbrev pub Kept {ℓ} : {A : Type ℓ} → Option A → Option A → Type ℓ
Kept previous current = (previous ≡ none) ⊎ (current ≡ previous)

pub record SameStable (p q : RunManifest) : Type 0 where
  pub case_id : q.case_id ≡ p.case_id
  pub stage : q.stage ≡ p.stage
  pub role_type : q.role_type ≡ p.role_type
  pub protocol_version : q.protocol_version ≡ p.protocol_version
  pub context_manifest_hash : q.context_manifest_hash ≡ p.context_manifest_hash
  pub prompt_version : q.prompt_version ≡ p.prompt_version
  pub tool_permissions : q.tool_permissions ≡ p.tool_permissions
  pub parent_run_id : q.parent_run_id ≡ p.parent_run_id
  pub independence : q.independence ≡ p.independence

pub record KeptOutputs (p q : RunManifest) : Type 0 where
  pub raw_output_ref : Kept p.raw_output_ref q.raw_output_ref
  pub raw_output_hash : Kept p.raw_output_hash q.raw_output_hash
  pub structured_output_hash : Kept p.structured_output_hash q.structured_output_hash
  pub started_at : Kept p.started_at q.started_at
  pub finished_at : Kept p.finished_at q.finished_at

-- A kept identity keeps its origin; a replaced one names the model that it replaces, once.
abbrev pub IdentityStep : RunManifest → RunManifest → Type 0
IdentityStep p q =
    (identity q ≡ identity p) × (q.fallback_from ≡ p.fallback_from)
    ⊎ (identity q ≢ identity p)
      × (q.fallback_from ≡ some p.model_id)
      × Kept p.fallback_from q.fallback_from

pub record Follows (p q : RunManifest) : Type 0 where
  pub same_run : q.run_id ≡ p.run_id
  pub lifecycle : StatusStep p.status q.status
  pub stable : SameStable p q
  pub identified : IdentityStep p q
  pub kept : KeptOutputs p q

StatusStep-of_allowed :
    (s t : RunStatus) → contains t (allowed_status_transitions s) ≡ true → StatusStep s t
unfolding allowed_status_transitions
StatusStep-of_allowed created running h = start
StatusStep-of_allowed created invalid h = refuse
StatusStep-of_allowed created failed h = break
StatusStep-of_allowed running frozen h = freeze
StatusStep-of_allowed running invalid h = invalidate
StatusStep-of_allowed running failed h = fail
StatusStep-of_allowed _ _ h = cc

allowed_of_StatusStep :
    {s t : RunStatus} → StatusStep s t → contains t (allowed_status_transitions s) ≡ true
unfolding allowed_status_transitions
allowed_of_StatusStep start = refl
allowed_of_StatusStep freeze = refl
allowed_of_StatusStep refuse = refl
allowed_of_StatusStep break = refl
allowed_of_StatusStep invalidate = refl
allowed_of_StatusStep fail = refl

Kept-test :
    {A : Type 0} ⦃e : Eq A⦄ (p q : Option A) (error : RunTransitionError)
    → (raise_if (p != none && q != p) error ≡ returned tt) ↔ Kept p q
Kept-test none q error = (λ h. inl refl, λ h. refl)
Kept-test ⦃e⦄ (some p) q error =
    let same = !=_false_iff q (some p) in
    (
      λ h. inr (same.0 ((raise_if_iff _ _).0 h)),
      λ h. elim h [ inl absent ↦ cc | inr stays ↦ (raise_if_iff _ _).1 (same.1 stays) ],
    )

Kept-iff :
    {A : Type 0} ⦃e : Eq A⦄ (p q : Option A) (name : String)
    → (assert_progressive_optional p q name ≡ returned tt) ↔ Kept p q
unfolding assert_progressive_optional
Kept-iff p q name = Kept-test p q _

check_recorded_iff : (p q : RunManifest) → (check_recorded p q ≡ returned tt) ↔ KeptOutputs p q
unfolding check_recorded
check_recorded_iff p q =
    let all = both_iff (Kept-iff p.raw_output_ref q.raw_output_ref "raw_output_ref") (
      both_iff (Kept-iff p.raw_output_hash q.raw_output_hash "raw_output_hash") (
        both_iff
          (Kept-iff p.structured_output_hash q.structured_output_hash "structured_output_hash")
          (both_iff (Kept-iff p.started_at q.started_at "started_at")
            (Kept-iff p.finished_at q.finished_at "finished_at")))) in
    (
      λ h.
          let t = all.0 h in
          record {
            raw_output_ref = t.0;
            raw_output_hash = t.1.0;
            structured_output_hash = t.1.1.0;
            started_at = t.1.1.1.0;
            finished_at = t.1.1.1.1;
          },
      λ k. all.1 (
        k.raw_output_ref,
        (k.raw_output_hash, (k.structured_output_hash, (k.started_at, k.finished_at))),
      ),
    )

-- The two checks of a replaced identity.
replaced_iff :
    (p q : RunManifest)
    → ((raise_if (q.fallback_from != some p.model_id) (
            run_transition_error
              "model identity replacement requires explicit fallback_from matching the prior model_id")
          >> raise_if
              (p.fallback_from != none && q.fallback_from != p.fallback_from)
              (run_transition_error "fallback_from cannot be rewritten"))
        ≡ returned tt)
      ↔ (q.fallback_from ≡ some p.model_id) × Kept p.fallback_from q.fallback_from
replaced_iff p q =
    let named = !=_false_iff q.fallback_from (some p.model_id) in
    both_iff (λ h. named.0 ((raise_if_iff _ _).0 h), λ h. (raise_if_iff _ _).1 (named.1 h))
      (Kept-test p.fallback_from q.fallback_from _)

check_identity_iff : (p q : RunManifest) → (check_identity p q ≡ returned tt) ↔ IdentityStep p q
unfolding check_identity
check_identity_iff p q =
    let same = !=_false_iff (identity q) (identity p) in
    elim (Bool-cases (identity q != identity p)) [
      | inl differ ↦ rw differ (
        λ h. inr (let t = (replaced_iff p q).0 h in (λ e. cc (same.1 e), t.0, t.1)),
        λ h. elim h [ inl (e, _) ↦ cc (same.1 e) | inr (_, e, k) ↦ (replaced_iff p q).1 (e, k) ],
      )
      | inr equal ↦ rw equal (
          let kept = !=_false_iff q.fallback_from p.fallback_from in
          (
            λ h. inl (same.0 equal, kept.0 ((raise_if_iff _ _).0 h)),
            λ h. elim h [
              | inl (_, e) ↦ (raise_if_iff _ _).1 (kept.1 e)
              | inr (n, _, _) ↦ absurd (n (same.0 equal))
            ],
          ))
    ]

stable_fields_iff :
    (p q : RunManifest) → All (λ field. field.1 ≡ false) (stable_fields p q) ↔ SameStable p q
unfolding stable_fields
stable_fields_iff p q =
    let fields = same_iff p.case_id q.case_id (
      same_iff p.stage q.stage (
        same_iff p.role_type q.role_type (
          same_iff p.protocol_version q.protocol_version (
            same_iff p.context_manifest_hash q.context_manifest_hash (
              same_iff p.prompt_version q.prompt_version (
                same_iff p.tool_permissions q.tool_permissions (
                  same_iff p.parent_run_id q.parent_run_id
                    (last_iff p.independence q.independence)))))))) in
    (
      λ h.
          let t = fields.0 h in
          record {
            case_id = sym t.0;
            stage = sym t.1.0;
            role_type = sym t.1.1.0;
            protocol_version = sym t.1.1.1.0;
            context_manifest_hash = sym t.1.1.1.1.0;
            prompt_version = sym t.1.1.1.1.1.0;
            tool_permissions = sym t.1.1.1.1.1.1.0;
            parent_run_id = sym t.1.1.1.1.1.1.1.0;
            independence = sym t.1.1.1.1.1.1.1.1;
          },
      λ s. fields.1 (
        sym s.case_id,
        (
          sym s.stage,
          (
            sym s.role_type,
            (
              sym s.protocol_version,
              (
                sym s.context_manifest_hash,
                (
                  sym s.prompt_version,
                  (sym s.tool_permissions, (sym s.parent_run_id, sym s.independence)),
                ),
              ),
            ),
          ),
        ),
      ),
    )

check_run_iff : (p q : RunManifest) → (check_run p q ≡ returned tt) ↔ (q.run_id ≡ p.run_id)
unfolding check_run
check_run_iff p q = raises_iff _ (!=_false_iff q.run_id p.run_id)

check_lifecycle_iff :
    (p q : RunManifest) → (check_lifecycle p q ≡ returned tt) ↔ StatusStep p.status q.status
unfolding check_lifecycle
check_lifecycle_iff p q = raises_iff _ (
  λ h. StatusStep-of_allowed p.status q.status (ground arith),
  λ s. let t = allowed_of_StatusStep s in ground arith,
)

unchanged_All :
    (fields : List (String × Bool)) (error : String → RunTransitionError)
    → (for_each fields (λ (name, changed). raise_if changed (error name)) ≡ returned tt)
      ↔ All (λ field. field.1 ≡ false) fields
unchanged_All [] error = (λ h. tt, λ h. refl)
unchanged_All ((name, changed) ∷ fields) error =
    both_iff (raise_if_iff changed (error name)) (unchanged_All fields error)

check_stable_iff : (p q : RunManifest) → (check_stable p q ≡ returned tt) ↔ SameStable p q
unfolding check_stable
check_stable_iff p q =
    let loop =
      unchanged_All (stable_fields p q) (λ name.
        run_transition_error (format (name ∷ " cannot change across Run snapshots" ∷ []))) in
    let same = stable_fields_iff p q in (λ h. same.0 (loop.0 h), λ s. loop.1 (same.1 s))

-- A snapshot is accepted exactly when it follows the previous one: the same run, a step of the
-- lifecycle, equal stable fields, an explained model identity, and every recorded value kept.
pub validate_iff :
    (p q : RunManifest) → (validate_run_snapshot_transition p q ≡ returned tt) ↔ Follows p q
unfolding validate_run_snapshot_transition
validate_iff p q =
    let all = both_iff (check_run_iff p q) (
      both_iff (check_lifecycle_iff p q) (
        both_iff (check_stable_iff p q)
          (both_iff (check_identity_iff p q) (check_recorded_iff p q)))) in
    (
      λ h.
          let t = all.0 h in
          record {
            same_run = t.0;
            lifecycle = t.1.0;
            stable = t.1.1.0;
            identified = t.1.1.1.0;
            kept = t.1.1.1.1;
          },
      λ f. all.1 (f.same_run, (f.lifecycle, (f.stable, (f.identified, f.kept)))),
    )
