-- ===== src/Tests/Blind.antt =====
-- A blind evaluation of state_machine.py in its first stage.
use human_cos_fft1_trial.Prelude.{
  nat_eq, string_eq, bool_eq, option_eq, list_eq, pair_eq, [], none, refl, returned, true, ◌≡◌, ◌≤◌,
  ◌⊎◌,
}
use human_cos_fft1_trial.Runtime.Graph.{structural_targets}
use human_cos_fft1_trial.Runtime.Guards.{guard_results, no_facts}
use human_cos_fft1_trial.Runtime.States.{
  mode_eq, state_eq, TransitionStatus, case_created, evidence_research, historical_blind_eval,
  state_place,
}
use human_cos_fft1_trial.Runtime.Transition.{
  key_eq, CaseRuntimePosition, TransitionDecision, can_transition, decide_guards, make_decision,
  protocol_version, transition,
}
use human_cos_fft1_trial.Runtime.Transition.Gates.{JudgingReady, Lacks, Reach-judging}
use human_cos_fft1_trial.Runtime.Transition.Progress.{stage, steps, steps-historical}
use human_cos_fft1_trial.Runtime.Transition.Reach.{Reach, here, next}

abbrev blind : CaseRuntimePosition
blind = record { mode = historical_blind_eval; state = case_created; case_revision = 1 }

abbrev blind_researched : CaseRuntimePosition
blind_researched = record blind { state = evidence_research }

abbrev blind_decision : TransitionDecision
blind_decision =
    make_decision true TransitionStatus.allowed blind evidence_research protocol_version
      "transition is structurally valid, authorized, and guard-clean" []

blind_moved :
    transition blind evidence_research none [] protocol_version
    ≡ returned (record { position = blind_researched; decision = blind_decision })
unfolding transition can_transition decide_guards guard_results structural_targets
blind_moved = refl

no_judging : Lacks JudgingReady no_facts
no_judging = λ r. cc r.0

abbrev blind_research : Reach (Lacks JudgingReady) [] blind blind_researched
blind_research = next here (record {
  target = evidence_research;
  facts = none;
  version = protocol_version;
  result = record { position = blind_researched; decision = blind_decision };
  supplied = no_judging;
  moved = blind_moved;
  reached = refl;
})

Reach-judging_example :
    (state_place evidence_research ≤ 2)
    ⊎ ((19 ≤ state_place evidence_research) × (state_place evidence_research ≤ 23))
Reach-judging_example = Reach-judging [] refl refl blind_research

steps-historical_example :
    (steps (Lacks JudgingReady) [] blind_research ≡ stage (state_place evidence_research))
    × (steps (Lacks JudgingReady) [] blind_research ≤ 10)
steps-historical_example = steps-historical (Lacks JudgingReady) [] refl refl blind_research
