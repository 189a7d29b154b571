-- ===== src/Runtime/Run/Replay.antt =====
-- The comparison of two replays of run.py.
use human_cos_fft1_trial.Prelude.{
  nat_eq, string_eq, bool_eq, option_eq, list_eq, pair_eq, All, Bool, List, String, [], false,
  is_empty_iff, last_iff, refl, same_iff, true, ◌↔◌, ◌∷◌, ◌≡◌,
}
use human_cos_fft1_trial.Runtime.Run.{
  status_eq, independence_eq, RunManifest, changed, compare_replay_manifests, control_fields,
  output_fields,
}

abbrev pub SameControl : RunManifest → RunManifest → Type 0
SameControl l r =
    (l.case_id ≡ r.case_id)
    × ((l.stage ≡ r.stage)
        × ((l.role_type ≡ r.role_type)
            × ((l.model_id ≡ r.model_id)
                × ((l.model_family ≡ r.model_family)
                    × ((l.provider ≡ r.provider)
                        × ((l.protocol_version ≡ r.protocol_version)
                            × ((l.context_manifest_hash ≡ r.context_manifest_hash)
                                × ((l.prompt_version ≡ r.prompt_version)
                                    × ((l.tool_permissions ≡ r.tool_permissions)
                                        × ((l.parent_run_id ≡ r.parent_run_id)
                                            × ((l.fallback_from ≡ r.fallback_from)
                                                × (l.independence ≡ r.independence))))))))))))

changed_iff :
    (fields : List (String × Bool)) → (changed fields ≡ []) ↔ All (λ field. field.1 ≡ false) fields
unfolding changed
changed_iff [] = (λ h. tt, λ h. refl)
changed_iff ((name, true) ∷ fields) = (λ h. cc, λ h. cc)
changed_iff ((name, false) ∷ fields) =
    (λ h. (refl, (changed_iff fields).0 h), λ h. (changed_iff fields).1 h.1)

control_iff :
    (l r : RunManifest) → All (λ field. field.1 ≡ false) (control_fields l r) ↔ SameControl l r
unfolding control_fields
control_iff l r = same_iff l.case_id r.case_id (
    same_iff l.stage r.stage (
      same_iff l.role_type r.role_type (
        same_iff l.model_id r.model_id (
          same_iff l.model_family r.model_family (
            same_iff l.provider r.provider (
              same_iff l.protocol_version r.protocol_version (
                same_iff l.context_manifest_hash r.context_manifest_hash (
                  same_iff l.prompt_version r.prompt_version (
                    same_iff l.tool_permissions r.tool_permissions (
                      same_iff l.parent_run_id r.parent_run_id (
                        same_iff l.fallback_from r.fallback_from
                          (last_iff l.independence r.independence))))))))))))

output_iff :
    (l r : RunManifest)
    → All (λ field. field.1 ≡ false) (output_fields l r)
      ↔ (l.raw_output_hash ≡ r.raw_output_hash)
        × (l.structured_output_hash ≡ r.structured_output_hash)
unfolding output_fields
output_iff l r =
    same_iff l.raw_output_hash r.raw_output_hash
      (last_iff l.structured_output_hash r.structured_output_hash)

-- Two replays have the same control plane exactly when all thirteen control fields are equal, and no
-- changed output exactly when both output hashes are.
pub compare_replay_manifests_iff :
    (l r : RunManifest)
    → ((compare_replay_manifests l r).same_control_plane ≡ true ↔ SameControl l r)
      × ((compare_replay_manifests l r).changed_output_fields ≡ []
          ↔ (l.raw_output_hash ≡ r.raw_output_hash)
            × (l.structured_output_hash ≡ r.structured_output_hash))
unfolding compare_replay_manifests
compare_replay_manifests_iff l r =
    let empty = is_empty_iff (changed (control_fields l r)) in
    let control = changed_iff (control_fields l r) in
    let output = changed_iff (output_fields l r) in
    (
      (
        λ h. (control_iff l r).0 (control.0 (empty.0 h)),
        λ s. empty.1 (control.1 ((control_iff l r).1 s)),
      ),
      (λ h. (output_iff l r).0 (output.0 h), λ s. output.1 ((output_iff l r).1 s)),
    )
