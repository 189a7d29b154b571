-- ===== src/Tests/Transitions.antt =====
-- State changes of state_machine.py at concrete positions.
use human_cos_fft1_trial.Prelude.{
  nat_eq, string_eq, bool_eq, option_eq, list_eq, pair_eq, List, [], false, inl, none, refl,
  returned, some, take, true, ◌+◌, ◌↔◌, ◌∷◌, ◌≡◌, ◌≢◌, ◌≤◌,
}
use human_cos_fft1_trial.Runtime.Graph.{structural_targets}
use human_cos_fft1_trial.Runtime.Graph.Edges.{Edge}
use human_cos_fft1_trial.Runtime.Guards.{GuardFacts, guard_results, no_facts}
use human_cos_fft1_trial.Runtime.States.{
  mode_eq, state_eq, guard_status_eq, GuardStatus, TransitionStatus, case_created,
  domain_independent_run, domain_output_frozen, every_state, evidence_research, guard_unavailable,
  mechanism_benchmark, state_place,
}
use human_cos_fft1_trial.Runtime.Transition.{
  key_eq, CaseRuntimePosition, TransitionDecision, TransitionKey, can_transition, decide_guards,
  make_decision, protocol_version, transition,
}
use human_cos_fft1_trial.Runtime.Transition.Decision.{
  Allows, Answers, Authorized, Explains, GuardsHold, can_transition_iff, can_transition_status,
}
use human_cos_fft1_trial.Runtime.Transition.Gates.{Lacks, Reach-native, ReviewReady, RunsReady}
use human_cos_fft1_trial.Runtime.Transition.Progress.{trail, trail_lem}
use human_cos_fft1_trial.Runtime.Transition.Reach.{Reach, Step, here, next}

abbrev ready : CaseRuntimePosition
ready = record { mode = mechanism_benchmark; state = domain_independent_run; case_revision = 2 }

abbrev finished_facts : GuardFacts
finished_facts = record no_facts {
  all_required_runs_finished = some true;
  no_unresolved_protocol_invalid = some true;
}

abbrev freeze_key : List TransitionKey
freeze_key =
    record {
      mode = mechanism_benchmark;
      source = domain_independent_run;
      target = domain_output_frozen;
    }
    ∷ []

can_transition_iff_example :
    Allows
      (can_transition ready domain_output_frozen (some finished_facts) freeze_key protocol_version)
    ↔ (protocol_version ≢ "")
      × Edge mechanism_benchmark domain_independent_run domain_output_frozen
      × Authorized ready domain_output_frozen freeze_key
      × GuardsHold domain_independent_run domain_output_frozen finished_facts
can_transition_iff_example =
    can_transition_iff ready domain_output_frozen (some finished_facts) freeze_key protocol_version

freeze_allowed :
    Allows
      (can_transition ready domain_output_frozen (some finished_facts) freeze_key protocol_version)
unfolding can_transition decide_guards guard_results structural_targets
freeze_allowed = refl

-- The decision without the facts on the runs.
abbrev stalled : TransitionDecision
stalled =
    make_decision false guard_unavailable ready domain_output_frozen protocol_version
      "one or more frozen transition guard facts are unavailable"
      (record {
        name = "all_required_runs_finished";
        status = GuardStatus.unavailable;
        reason = "all_required_runs_finished was not supplied";
      }
        ∷ record {
          name = "no_unresolved_protocol_invalid";
          status = GuardStatus.unavailable;
          reason = "no_unresolved_protocol_invalid was not supplied";
        }
        ∷ [])

freeze_stalled :
    can_transition ready domain_output_frozen none freeze_key protocol_version ≡ returned stalled
unfolding can_transition decide_guards guard_results structural_targets
freeze_stalled = refl

has_version : protocol_version ≢ ""
has_version = λ h. cc

can_transition_status_example :
    Answers ready domain_output_frozen none freeze_key protocol_version stalled
    × Explains ready domain_output_frozen none freeze_key protocol_version stalled
can_transition_status_example =
    can_transition_status ready domain_output_frozen none freeze_key protocol_version has_version
      stalled freeze_stalled

-- A benchmark case that has done its first step, without facts and without activated edges.
abbrev begun : CaseRuntimePosition
begun = record { mode = mechanism_benchmark; state = case_created; case_revision = 2 }

abbrev researched : CaseRuntimePosition
researched = record begun { state = evidence_research }

abbrev research_decision : TransitionDecision
research_decision =
    make_decision true TransitionStatus.allowed begun evidence_research protocol_version
      "transition is structurally valid, authorized, and guard-clean" []

researched_moved :
    transition begun evidence_research none [] protocol_version
    ≡ returned (record { position = researched; decision = research_decision })
unfolding transition can_transition decide_guards guard_results structural_targets
researched_moved = refl

abbrev research_step :
    (Supplied : GuardFacts → Type 0) → Supplied no_facts → Step Supplied [] begun researched
research_step Supplied supplied = record {
  target = evidence_research;
  facts = none;
  version = protocol_version;
  result = record { position = researched; decision = research_decision };
  supplied = supplied;
  moved = researched_moved;
  reached = refl;
}

no_runs : Lacks RunsReady no_facts
no_runs = λ r. cc r.0

no_review : Lacks ReviewReady no_facts
no_review = λ r. cc r.0

abbrev researching : Reach (Lacks RunsReady) [] begun researched
researching = next here (research_step (Lacks RunsReady) no_runs)

abbrev unreviewed : Reach (Lacks ReviewReady) [] begun researched
unreviewed = next here (research_step (Lacks ReviewReady) no_review)

Reach-native_example : state_place evidence_research ≤ 3
Reach-native_example = Reach-native (Lacks RunsReady) refl researching

trail_lem_example :
    trail (Lacks RunsReady) [] researching ≡ take (state_place evidence_research + 1) every_state
trail_lem_example = trail_lem (Lacks RunsReady) [] (inl refl) refl researching
