-- ===== src/Runtime/States.antt =====
-- The frozen vocabulary of runtime/src/human_cos/runtime/state_machine.py: Case modes, runtime
-- states, gate outcomes, guard and transition statuses, each with its `value`.
use human_cos_fft1_trial.Prelude.{
  nat_eq, string_eq, bool_eq, option_eq, list_eq, pair_eq, Eq, List, String, [], ap, get_or, refl,
  suc, sym, through, zero, ℕ, ◌∙◌, ◌∷◌, ◌≡◌,
}

pub data CaseMode : Type 0 where
  historical_blind_eval live_foresight mechanism_benchmark scenario_stress_test : CaseMode

pub data RuntimeState : Type 0 where
  case_created evidence_research evidence_verified boundary_and_policy_frozen framing_independent
        framing_reviewed domain_routed domain_independent_run domain_output_frozen cross_examination
        world_causal_integration critical_node_detection critical_node_review scenario_generation
        scenario_resimulation adversarial_review final_synthesis human_review sealed
        experiment_preregistered recognition_precheck hc_track_run baseline_track_run
        track_output_frozen blind_judging t1_t5_reveal evidence_status_decision monitoring
        new_evidence_ingested delta_assessment selective_rerun update_review updated_record :
      RuntimeState

pub data GateOutcome : Type 0 where
  pass fail : GateOutcome

pub data GuardStatus : Type 0 where
  pass fail unavailable : GuardStatus

pub data TransitionStatus : Type 0 where
  allowed illegal_transition authorization_required guard_failed guard_unavailable :
      TransitionStatus

abbrev pub mode_place : CaseMode → ℕ
mode_place historical_blind_eval = 0
mode_place live_foresight = 1
mode_place mechanism_benchmark = 2
mode_place scenario_stress_test = 3

abbrev pub mode_member : ℕ → CaseMode
mode_member zero = historical_blind_eval
mode_member (suc zero) = live_foresight
mode_member (suc (suc zero)) = mechanism_benchmark
mode_member (suc (suc (suc n))) = scenario_stress_test

pub mode_member_place : (m : CaseMode) → mode_member (mode_place m) ≡ m
mode_member_place historical_blind_eval = refl
mode_member_place _ = refl

instance abbrev pub mode_eq : Eq CaseMode
mode_eq = through mode_place mode_member mode_member_place

-- The states in the order of their declaration.
abbrev pub every_state : List RuntimeState
every_state =
    case_created ∷ evidence_research ∷ evidence_verified ∷ boundary_and_policy_frozen
    ∷ framing_independent ∷ framing_reviewed ∷ domain_routed ∷ domain_independent_run
    ∷ domain_output_frozen ∷ cross_examination ∷ world_causal_integration ∷ critical_node_detection
    ∷ critical_node_review ∷ scenario_generation ∷ scenario_resimulation ∷ adversarial_review
    ∷ final_synthesis ∷ human_review ∷ sealed ∷ experiment_preregistered ∷ recognition_precheck
    ∷ hc_track_run ∷ baseline_track_run ∷ track_output_frozen ∷ blind_judging ∷ t1_t5_reveal
    ∷ evidence_status_decision ∷ monitoring ∷ new_evidence_ingested ∷ delta_assessment
    ∷ selective_rerun ∷ update_review ∷ updated_record ∷ []

abbrev pub state_place : RuntimeState → ℕ
state_place case_created = 0
state_place evidence_research = 1
state_place evidence_verified = 2
state_place boundary_and_policy_frozen = 3
state_place framing_independent = 4
state_place framing_reviewed = 5
state_place domain_routed = 6
state_place domain_independent_run = 7
state_place domain_output_frozen = 8
state_place cross_examination = 9
state_place world_causal_integration = 10
state_place critical_node_detection = 11
state_place critical_node_review = 12
state_place scenario_generation = 13
state_place scenario_resimulation = 14
state_place adversarial_review = 15
state_place final_synthesis = 16
state_place human_review = 17
state_place sealed = 18
state_place experiment_preregistered = 19
state_place recognition_precheck = 20
state_place hc_track_run = 21
state_place baseline_track_run = 22
state_place track_output_frozen = 23
state_place blind_judging = 24
state_place t1_t5_reveal = 25
state_place evidence_status_decision = 26
state_place monitoring = 27
state_place new_evidence_ingested = 28
state_place delta_assessment = 29
state_place selective_rerun = 30
state_place update_review = 31
state_place updated_record = 32

abbrev pub state_member : ℕ → RuntimeState
state_member n = get_or every_state n case_created

pub state_member_place : (s : RuntimeState) → state_member (state_place s) ≡ s
state_member_place case_created = refl
state_member_place _ = refl

instance abbrev pub state_eq : Eq RuntimeState
state_eq = through state_place state_member state_member_place

-- The `value` of a member, for the audit document.
unfoldable pub mode_value : CaseMode → String
mode_value historical_blind_eval = "HISTORICAL_BLIND_EVAL"
mode_value live_foresight = "LIVE_FORESIGHT"
mode_value mechanism_benchmark = "MECHANISM_BENCHMARK"
mode_value scenario_stress_test = "SCENARIO_STRESS_TEST"

unfoldable pub state_value : RuntimeState → String
state_value case_created = "CASE_CREATED"
state_value evidence_research = "EVIDENCE_RESEARCH"
state_value evidence_verified = "EVIDENCE_VERIFIED"
state_value boundary_and_policy_frozen = "BOUNDARY_AND_POLICY_FROZEN"
state_value framing_independent = "FRAMING_INDEPENDENT"
state_value framing_reviewed = "FRAMING_REVIEWED"
state_value domain_routed = "DOMAIN_ROUTED"
state_value domain_independent_run = "DOMAIN_INDEPENDENT_RUN"
state_value domain_output_frozen = "DOMAIN_OUTPUT_FROZEN"
state_value cross_examination = "CROSS_EXAMINATION"
state_value world_causal_integration = "WORLD_CAUSAL_INTEGRATION"
state_value critical_node_detection = "CRITICAL_NODE_DETECTION"
state_value critical_node_review = "CRITICAL_NODE_REVIEW"
state_value scenario_generation = "SCENARIO_GENERATION"
state_value scenario_resimulation = "SCENARIO_RESIMULATION"
state_value adversarial_review = "ADVERSARIAL_REVIEW"
state_value final_synthesis = "FINAL_SYNTHESIS"
state_value human_review = "HUMAN_REVIEW"
state_value sealed = "SEALED"
state_value experiment_preregistered = "EXPERIMENT_PREREGISTERED"
state_value recognition_precheck = "RECOGNITION_PRECHECK"
state_value hc_track_run = "HC_TRACK_RUN"
state_value baseline_track_run = "BASELINE_TRACK_RUN"
state_value track_output_frozen = "TRACK_OUTPUT_FROZEN"
state_value blind_judging = "BLIND_JUDGING"
state_value t1_t5_reveal = "T1_T5_REVEAL"
state_value evidence_status_decision = "EVIDENCE_STATUS_DECISION"
state_value monitoring = "MONITORING"
state_value new_evidence_ingested = "NEW_EVIDENCE_INGESTED"
state_value delta_assessment = "DELTA_ASSESSMENT"
state_value selective_rerun = "SELECTIVE_RERUN"
state_value update_review = "UPDATE_REVIEW"
state_value updated_record = "UPDATED_RECORD"

abbrev pub guard_status_place : GuardStatus → ℕ
guard_status_place GuardStatus.pass = 0
guard_status_place GuardStatus.fail = 1
guard_status_place GuardStatus.unavailable = 2

abbrev pub guard_status_member : ℕ → GuardStatus
guard_status_member zero = GuardStatus.pass
guard_status_member (suc zero) = GuardStatus.fail
guard_status_member (suc (suc n)) = GuardStatus.unavailable

pub guard_status_member_place : (s : GuardStatus) → guard_status_member (guard_status_place s) ≡ s
guard_status_member_place GuardStatus.pass = refl
guard_status_member_place _ = refl

instance abbrev pub guard_status_eq : Eq GuardStatus
guard_status_eq = through guard_status_place guard_status_member guard_status_member_place

-- A state is known by its place.
pub state_of_place : (s t : RuntimeState) → state_place s ≡ state_place t → s ≡ t
state_of_place s t e = sym (state_member_place s) ∙ ap state_member e ∙ state_member_place t
