-- ===== src/Trial/Contracts.antt =====
-- runtime/src/human_cos/trial/contracts.py: the vocabulary of a trial's stop and its precedence. A constructor of an outcome or
-- of a stop condition that another vocabulary names too has a name of its own.
pub mod Precedence
use human_cos_fft1_trial.Prelude.{
  nat_eq, string_eq, bool_eq, option_eq, list_eq, pair_eq, Eq, List, Outcome, String, [],
  all_distinct, get_or, if◌then◌else◌, ltb, not, raise_if, raised, refl, returned, suc, through, ℕ,
  ◌==◌, ◌>>=◌, ◌>>◌, ◌∷◌, ◌≡◌,
}

pub data TrialOutcome : Type 0 where
  completed_at_authorized_boundary invalid_input infrastructure_failed capability_gap_found
        research_safety_blocked model_output_rejected integrity_failure challenger_blocked
        hc_regression low_recognition unsupported_path resource_limit operator_abort :
      TrialOutcome

pub data TrialStopPhase : Type 0 where
  input_phase admission_phase execution_phase persistence_phase audit_export_phase cleanup_phase :
      TrialStopPhase

pub data TrialStopCondition : Type 0 where
  authorized_boundary_reached input_invalid environment_rejected infrastructure_failure
        capability_gap_stop research_safety_block model_output_invalid artifact_integrity_failure
        at17_integration_failure challenger_block hc_regression_detected low_recognition_compromised
        unsupported_authorized_path resource_limit_reached operator_aborted :
      TrialStopCondition

pub data TrialError : Type 0 where
  stop_engine_error : String → TrialError
  contract_error : String → TrialError
  value_error : String → TrialError
  payload_error : String → List String → TrialError

-- The members in the order of their declaration.
abbrev pub every_condition : List TrialStopCondition
every_condition =
    authorized_boundary_reached ∷ input_invalid ∷ environment_rejected ∷ infrastructure_failure
    ∷ capability_gap_stop ∷ research_safety_block ∷ model_output_invalid
    ∷ artifact_integrity_failure ∷ at17_integration_failure ∷ challenger_block
    ∷ hc_regression_detected ∷ low_recognition_compromised ∷ unsupported_authorized_path
    ∷ resource_limit_reached ∷ operator_aborted ∷ []

abbrev pub condition_place : TrialStopCondition → ℕ
condition_place authorized_boundary_reached = 0
condition_place input_invalid = 1
condition_place environment_rejected = 2
condition_place infrastructure_failure = 3
condition_place capability_gap_stop = 4
condition_place research_safety_block = 5
condition_place model_output_invalid = 6
condition_place artifact_integrity_failure = 7
condition_place at17_integration_failure = 8
condition_place challenger_block = 9
condition_place hc_regression_detected = 10
condition_place low_recognition_compromised = 11
condition_place unsupported_authorized_path = 12
condition_place resource_limit_reached = 13
condition_place operator_aborted = 14

abbrev pub condition_member : ℕ → TrialStopCondition
condition_member n = get_or every_condition n authorized_boundary_reached

pub condition_member_place : (c : TrialStopCondition) → condition_member (condition_place c) ≡ c
condition_member_place authorized_boundary_reached = refl
condition_member_place _ = refl

instance abbrev pub condition_eq : Eq TrialStopCondition
condition_eq = through condition_place condition_member condition_member_place

unfoldable pub stop_outcome_for : TrialStopCondition → TrialOutcome
stop_outcome_for authorized_boundary_reached = completed_at_authorized_boundary
stop_outcome_for input_invalid = invalid_input
stop_outcome_for environment_rejected = invalid_input
stop_outcome_for infrastructure_failure = infrastructure_failed
stop_outcome_for capability_gap_stop = capability_gap_found
stop_outcome_for research_safety_block = research_safety_blocked
stop_outcome_for model_output_invalid = model_output_rejected
stop_outcome_for artifact_integrity_failure = integrity_failure
stop_outcome_for at17_integration_failure = integrity_failure
stop_outcome_for challenger_block = challenger_blocked
stop_outcome_for hc_regression_detected = hc_regression
stop_outcome_for low_recognition_compromised = low_recognition
stop_outcome_for unsupported_authorized_path = unsupported_path
stop_outcome_for resource_limit_reached = resource_limit
stop_outcome_for operator_aborted = operator_abort

unfoldable pub trial_stop_precedence : List TrialStopCondition
trial_stop_precedence =
    input_invalid ∷ environment_rejected ∷ infrastructure_failure ∷ resource_limit_reached
    ∷ operator_aborted ∷ capability_gap_stop ∷ research_safety_block ∷ model_output_invalid
    ∷ artifact_integrity_failure ∷ at17_integration_failure ∷ challenger_block
    ∷ hc_regression_detected ∷ low_recognition_compromised ∷ unsupported_authorized_path
    ∷ authorized_boundary_reached ∷ []

-- The index of a condition in a list that holds it.
unfoldable pub index_of : TrialStopCondition → List TrialStopCondition → ℕ
index_of condition [] = 0
index_of condition (c ∷ cs) =
    let later = index_of condition cs in if c == condition then 0 else suc later

-- `ranks[condition]`
unfoldable pub rank : TrialStopCondition → ℕ
unfolding trial_stop_precedence index_of
rank condition = index_of condition trial_stop_precedence

-- `min(..., key=ranks.__getitem__)`, with the least condition so far.
unfoldable pub least : TrialStopCondition → List TrialStopCondition → TrialStopCondition
unfolding rank
least best [] = best
least best (c ∷ cs) = least (if ltb (rank c) (rank best) then c else best) cs

unfoldable pub select_controlling_stop :
    List TrialStopCondition → Outcome TrialError TrialStopCondition
unfolding least
select_controlling_stop [] = raised (contract_error "at least one stop condition is required")
select_controlling_stop (c ∷ cs) = do
  raise_if (not (all_distinct (c ∷ cs)))
      (contract_error "stop conditions must not contain duplicates")
  returned (least c cs)

pub record TrialArtifactRef : Type 0 where
  pub kind : String
  pub ref : String
  pub sha256 : String

-- The key of an artifact in the ledger's set: all its fields.
instance abbrev pub artifact_eq : Eq TrialArtifactRef
artifact_eq =
    through {B = String × (String × String)} (λ item. (item.kind, (item.ref, item.sha256)))
      (λ (kind, rest). record { kind = kind; ref = rest.0; sha256 = rest.1 }) (λ item. refl)
