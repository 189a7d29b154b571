-- ===== src/Trial/Limits.antt =====
-- runtime/src/human_cos/trial/contracts.py: the resource limits of a trial and their hard caps.
-- The lower bounds of the fields, which the contract's base class checks, are not modelled.
use human_cos_fft1_trial.Prelude.{
  nat_eq, string_eq, bool_eq, option_eq, list_eq, pair_eq, All, List, Outcome, String, [], arith,
  both_iff, false, for_each, ltb, raise_if, raises_iff, refl, returned, ℕ, ◌↔◌, ◌∷◌, ◌≡◌, ◌≤◌,
}
use human_cos_fft1_trial.Prelude.Texts.{decimal, format}
use human_cos_fft1_trial.Trial.Contracts.{TrialError, value_error}

pub record TrialHardCaps : Type 0 where
  pub max_payload_files : ℕ
  pub max_file_bytes : ℕ
  pub max_total_payload_bytes : ℕ
  pub max_mock_outputs : ℕ
  pub max_mock_output_bytes : ℕ
  pub max_stage_calls : ℕ
  pub max_model_calls : ℕ
  pub max_output_bytes : ℕ
  pub max_output_tokens : ℕ
  pub max_frozen_artifacts : ℕ
  pub max_audit_payload_bytes : ℕ
  pub max_wall_clock_seconds : ℕ
  pub max_retries : ℕ

abbrev pub trial_hard_caps : TrialHardCaps
trial_hard_caps = record {
  max_payload_files = 128;
  max_file_bytes = 1048576;
  max_total_payload_bytes = 8388608;
  max_mock_outputs = 64;
  max_mock_output_bytes = 524288;
  max_stage_calls = 64;
  max_model_calls = 64;
  max_output_bytes = 2097152;
  max_output_tokens = 1000000;
  max_frozen_artifacts = 2048;
  max_audit_payload_bytes = 16777216;
  max_wall_clock_seconds = 1800;
  max_retries = 0;
}

-- `TrialHardCaps.model_fields`, each with what `getattr` reads.
abbrev pub model_fields : List (String × (TrialHardCaps → ℕ))
model_fields =
    ("max_payload_files", λ caps. caps.max_payload_files)
    ∷ ("max_file_bytes", λ caps. caps.max_file_bytes)
    ∷ ("max_total_payload_bytes", λ caps. caps.max_total_payload_bytes)
    ∷ ("max_mock_outputs", λ caps. caps.max_mock_outputs)
    ∷ ("max_mock_output_bytes", λ caps. caps.max_mock_output_bytes)
    ∷ ("max_stage_calls", λ caps. caps.max_stage_calls)
    ∷ ("max_model_calls", λ caps. caps.max_model_calls)
    ∷ ("max_output_bytes", λ caps. caps.max_output_bytes)
    ∷ ("max_output_tokens", λ caps. caps.max_output_tokens)
    ∷ ("max_frozen_artifacts", λ caps. caps.max_frozen_artifacts)
    ∷ ("max_audit_payload_bytes", λ caps. caps.max_audit_payload_bytes)
    ∷ ("max_wall_clock_seconds", λ caps. caps.max_wall_clock_seconds)
    ∷ ("max_retries", λ caps. caps.max_retries)
    ∷ []

-- The message on a field above its cap.
unfoldable pub cap_message : String × (TrialHardCaps → ℕ) → TrialError
unfolding decimal
cap_message (name, value_of) =
    value_error
      (format (name ∷ " exceeds code-owned hard cap " ∷ decimal (value_of trial_hard_caps) ∷ []))

-- `TrialResourceLimits._within_hard_caps`
unfoldable pub within_hard_caps : TrialHardCaps → Outcome TrialError (Unit {0})
unfolding cap_message
within_hard_caps limits =
    for_each model_fields
      (λ field. raise_if (ltb (field.1 trial_hard_caps) (field.1 limits)) (cap_message field))

-- The loop over some of the fields.
within_iff :
    (limits : TrialHardCaps) (message : String × (TrialHardCaps → ℕ) → TrialError)
    (fields : List (String × (TrialHardCaps → ℕ)))
    → (for_each fields
          (λ field. raise_if (ltb (field.1 trial_hard_caps) (field.1 limits)) (message field))
        ≡ returned tt)
      ↔ All (λ field. field.1 limits ≤ field.1 trial_hard_caps) fields
within_iff limits message [] = (λ h. tt, λ h. refl)
within_iff limits message (field ∷ fields) =
    let cap = field.1 trial_hard_caps in
    let value = field.1 limits in
    let below : (ltb cap value ≡ false) ↔ (value ≤ cap) = ground arith in
    both_iff (raises_iff (message field) below) (within_iff limits message fields)

-- Limits are accepted exactly when none exceeds its hard cap.
pub within_hard_caps_iff :
    (limits : TrialHardCaps)
    → (within_hard_caps limits ≡ returned tt)
      ↔ All (λ field. field.1 limits ≤ field.1 trial_hard_caps) model_fields
unfolding within_hard_caps
within_hard_caps_iff limits = within_iff limits cap_message model_fields
