-- ===== src/Runtime/Transition.antt =====
-- The decision on a state change of runtime/src/human_cos/runtime/state_machine.py, and the change.
-- A decision carries the reasons' texts of the source.
pub mod Decision
pub mod Change
pub mod Reach
pub mod Gates
pub mod Progress
use human_cos_fft1_trial.Prelude.{
  nat_eq, string_eq, bool_eq, option_eq, list_eq, pair_eq, Bool, Eq, List, Option, Outcome, String,
  [], any, contains, false, if◌then◌else◌, ltb, not, raise_if, raised, refl, returned, through,
  true, value_or, ℕ, ◌&&◌, ◌==◌, ◌>>=◌, ◌>>◌,
}
use human_cos_fft1_trial.Runtime.Graph.{native_targets, structural_targets}
use human_cos_fft1_trial.Runtime.Guards.{GuardCheck, GuardFacts, guard_results, no_facts}
use human_cos_fft1_trial.Runtime.States.{
  mode_eq, state_eq, guard_status_eq, CaseMode, GuardStatus, RuntimeState, TransitionStatus,
  authorization_required, guard_failed, guard_unavailable, illegal_transition,
}

abbrev pub protocol_version : String
protocol_version = "0.1"

pub record CaseRuntimePosition : Type 0 where
  pub mode : CaseMode
  pub state : RuntimeState
  pub case_revision : ℕ

pub record TransitionKey : Type 0 where
  pub mode : CaseMode
  pub source : RuntimeState
  pub target : RuntimeState

pub record TransitionDecision : Type 0 where
  pub allowed : Bool
  pub status : TransitionStatus
  pub mode : CaseMode
  pub source : RuntimeState
  pub target : RuntimeState
  pub protocol_version : String
  pub guard_results : List GuardCheck
  pub reason : String

pub record TransitionResult : Type 0 where
  pub position : CaseRuntimePosition
  pub decision : TransitionDecision

pub data TransitionError : Type 0 where
  value_error : String → TransitionError
  transition_rejected : TransitionDecision → TransitionError

-- The constructor of a position, with its `__post_init__`.
unfoldable pub case_runtime_position :
    CaseMode → RuntimeState → ℕ → Outcome TransitionError CaseRuntimePosition
case_runtime_position mode state case_revision = do
  raise_if (ltb case_revision 1) (value_error "case_revision must be >= 1")
  returned (record { mode = mode; state = state; case_revision = case_revision })

-- A frozen dataclass is compared field by field.
instance abbrev pub key_eq : Eq TransitionKey
key_eq =
    through {B = CaseMode × (RuntimeState × RuntimeState)}
      (λ key. (key.mode, (key.source, key.target)))
      (λ (mode, rest). record { mode = mode; source = rest.0; target = rest.1 }) (λ key. refl)

-- `_decision`
abbrev pub make_decision :
    Bool
    → TransitionStatus
    → CaseRuntimePosition
    → RuntimeState
    → String
    → String
    → List GuardCheck
    → TransitionDecision
make_decision is_allowed status position target version reason guards = record {
  allowed = is_allowed;
  status = status;
  mode = position.mode;
  source = position.state;
  target = target;
  protocol_version = version;
  guard_results = guards;
  reason = reason;
}

-- The decision on the guards of an authorized edge.
unfoldable pub decide_guards :
    CaseRuntimePosition → RuntimeState → String → List GuardCheck → TransitionDecision
decide_guards position target version guards =
    if any (λ guard. guard.status == GuardStatus.fail) guards
    then make_decision false guard_failed position target version
        "one or more frozen transition guards failed" guards
    else if any (λ guard. guard.status == GuardStatus.unavailable) guards
    then make_decision false guard_unavailable position target version
        "one or more frozen transition guard facts are unavailable" guards
    else make_decision true TransitionStatus.allowed position target version
        "transition is structurally valid, authorized, and guard-clean" guards

unfoldable pub can_transition :
    CaseRuntimePosition
    → RuntimeState
    → Option GuardFacts
    → List TransitionKey
    → String
    → Outcome TransitionError TransitionDecision
unfolding decide_guards
can_transition position target guard_facts authorized_future_transitions version =
    if version == ""
    then raised (value_error "protocol_version must be non-empty")
    else if not (contains target (structural_targets position.mode position.state))
    then returned (
        make_decision false illegal_transition position target version
          "target is not a frozen structural successor for this Case Mode" [])
    else let key : TransitionKey = record {
      mode = position.mode;
      source = position.state;
      target = target;
    } in
      if not (contains target native_targets) && not (contains key authorized_future_transitions)
      then returned (
          make_decision false authorization_required position target version
            "future-stage edge is represented structurally but has no authorized S3-N executable handler"
            [])
      else let facts = value_or guard_facts no_facts in
        returned (decide_guards position target version (guard_results position.state target facts))

unfoldable pub transition :
    CaseRuntimePosition
    → RuntimeState
    → Option GuardFacts
    → List TransitionKey
    → String
    → Outcome TransitionError TransitionResult
unfolding case_runtime_position
transition position target guard_facts authorized_future_transitions version = do
  decision ← can_transition position target guard_facts authorized_future_transitions version
  raise_if (not decision.allowed) (transition_rejected decision)
  position' ← case_runtime_position position.mode target position.case_revision
  returned (record { position = position'; decision = decision })
