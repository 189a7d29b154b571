-- ===== src/Runtime/Run/Chain.antt =====
-- The snapshots of one run, each accepted by `validate_run_snapshot_transition` of run.py behind the
-- one before.
use human_cos_fft1_trial.Prelude.{
  nat_eq, string_eq, bool_eq, option_eq, list_eq, pair_eq, Option, ap, arith, inl, inr, none, refl,
  returned, some, suc, sym, ℕ, ◌+◌, ◌∙◌, ◌≡◌, ◌≤◌, ◌⊎◌,
}
use human_cos_fft1_trial.Runtime.Run.{
  status_eq, independence_eq, RunManifest, RunStatus, created, identity, running,
  validate_run_snapshot_transition,
}
use human_cos_fft1_trial.Runtime.Run.Lifecycle.{
  Follows, IdentityStep, Kept, KeptOutputs, SameStable, StatusStep, break, fail, freeze, invalidate,
  refuse, start, validate_iff,
}

pub data Chain (first : RunManifest) : RunManifest → Type 0 where
  begin : Chain first first
  append :
      {p q : RunManifest}
      → Chain first p
      → validate_run_snapshot_transition p q ≡ returned tt
      → Chain first q

unfoldable pub accepted : {first last : RunManifest} → Chain first last → ℕ
accepted begin = 0
accepted (append chain _) = suc (accepted chain)

-- How many snapshots may follow one of this status.
abbrev pub left : RunStatus → ℕ
left created = 2
left running = 1
left _ = 0

StatusStep-left : {s t : RunStatus} → StatusStep s t → left t + 1 ≤ left s
StatusStep-left start = omega arith
StatusStep-left freeze = omega arith
StatusStep-left refuse = omega arith
StatusStep-left break = omega arith
StatusStep-left invalidate = omega arith
StatusStep-left fail = omega arith

follows : {p q : RunManifest} → validate_run_snapshot_transition p q ≡ returned tt → Follows p q
follows {p} {q} h = (validate_iff p q).0 h

accepted_budget :
    {first last : RunManifest} (chain : Chain first last)
    → accepted chain + left last.status ≤ left first.status
unfolding accepted
accepted_budget begin = omega arith
accepted_budget (append chain h) =
    omega (arith, accepted_budget chain, StatusStep-left (follows h).lifecycle)

-- A run that begins as created has at most two later snapshots, one that begins as running at most
-- one, and one that is frozen, invalid or failed has none.
pub accepted-le_left :
    {first last : RunManifest} (chain : Chain first last) → accepted chain ≤ left first.status
accepted-le_left chain = omega (arith, accepted_budget chain)

SameStable-refl : (p : RunManifest) → SameStable p p
SameStable-refl p = record {
  case_id = refl;
  stage = refl;
  role_type = refl;
  protocol_version = refl;
  context_manifest_hash = refl;
  prompt_version = refl;
  tool_permissions = refl;
  parent_run_id = refl;
  independence = refl;
}

SameStable-trans : {p q r : RunManifest} → SameStable p q → SameStable q r → SameStable p r
SameStable-trans a b = record {
  case_id = b.case_id ∙ a.case_id;
  stage = b.stage ∙ a.stage;
  role_type = b.role_type ∙ a.role_type;
  protocol_version = b.protocol_version ∙ a.protocol_version;
  context_manifest_hash = b.context_manifest_hash ∙ a.context_manifest_hash;
  prompt_version = b.prompt_version ∙ a.prompt_version;
  tool_permissions = b.tool_permissions ∙ a.tool_permissions;
  parent_run_id = b.parent_run_id ∙ a.parent_run_id;
  independence = b.independence ∙ a.independence;
}

Kept-trans {ℓ} : {A : Type ℓ} {x y z : Option A} → Kept x y → Kept y z → Kept x z
Kept-trans (inl n) b = inl n
Kept-trans (inr e) (inl n) = inl (sym e ∙ n)
Kept-trans (inr e) (inr f) = inr (f ∙ e)

KeptOutputs-trans : {p q r : RunManifest} → KeptOutputs p q → KeptOutputs q r → KeptOutputs p r
KeptOutputs-trans a b = record {
  raw_output_ref = Kept-trans a.raw_output_ref b.raw_output_ref;
  raw_output_hash = Kept-trans a.raw_output_hash b.raw_output_hash;
  structured_output_hash = Kept-trans a.structured_output_hash b.structured_output_hash;
  started_at = Kept-trans a.started_at b.started_at;
  finished_at = Kept-trans a.finished_at b.finished_at;
}

-- Over a whole chain the run and its stable fields stay, and no recorded output or time is lost or
-- rewritten.
pub Chain-immutable :
    {first last : RunManifest}
    → Chain first last
    → (last.run_id ≡ first.run_id) × SameStable first last × KeptOutputs first last
Chain-immutable {first} begin = (
  refl,
  SameStable-refl first,
  record {
    raw_output_ref = inr refl;
    raw_output_hash = inr refl;
    structured_output_hash = inr refl;
    started_at = inr refl;
    finished_at = inr refl;
  },
)
Chain-immutable (append chain h) =
    let (run, stable, kept) = Chain-immutable chain in
    let f = follows h in
    (f.same_run ∙ run, SameStable-trans stable f.stable, KeptOutputs-trans kept f.kept)

origin_step :
    (first p q : RunManifest)
    → (identity p ≡ identity first) × (p.fallback_from ≡ none)
      ⊎ (p.fallback_from ≡ some first.model_id)
    → IdentityStep p q
    → (identity q ≡ identity first) × (q.fallback_from ≡ none)
      ⊎ (q.fallback_from ≡ some first.model_id)
origin_step first p q (inl (same, n)) (inl (stays, f)) = inl (stays ∙ same, f ∙ n)
origin_step first p q (inl (same, n)) (inr (_, f, _)) = inr (f ∙ ap some (ap (λ i. i.0) same))
origin_step first p q (inr e) (inl (_, f)) = inr (f ∙ e)
origin_step first p q (inr e) (inr (_, _, inl n)) = absurd (cc)
origin_step first p q (inr e) (inr (_, _, inr k)) = inr (k ∙ e)

-- A run that began with its own model has that model still, or names it as the one replaced: a
-- second replacement cannot hide the first model.
pub Chain-origin :
    {first last : RunManifest}
    → first.fallback_from ≡ none
    → Chain first last
    → (identity last ≡ identity first) × (last.fallback_from ≡ none)
      ⊎ (last.fallback_from ≡ some first.model_id)
Chain-origin n begin = inl (refl, n)
Chain-origin {first} n (append {p} {q} chain h) =
    origin_step first p q (Chain-origin n chain) (follows h).identified
