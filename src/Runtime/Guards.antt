-- ===== src/Runtime/Guards.antt =====
-- The guards of runtime/src/human_cos/runtime/state_machine.py: the facts that a caller supplies, and
-- the checks of a guarded edge.
use human_cos_fft1_trial.Prelude.{
  nat_eq, string_eq, bool_eq, option_eq, list_eq, Bool, List, Option, String, [], false,
  if◌then◌else◌, is_empty, none, not, some, true, ◌&&◌, ◌==◌, ◌∷◌,
}
use human_cos_fft1_trial.Prelude.Texts.{format, is_blank}
use human_cos_fft1_trial.Runtime.States.{
  state_eq, guard_status_eq, GateOutcome, GuardStatus, RuntimeState, blind_judging,
  domain_independent_run, domain_output_frozen, final_synthesis, human_review, track_output_frozen,
  update_review, updated_record,
}

-- A fact that is `None` was not supplied.
pub record GuardFacts : Type 0 where
  pub all_required_runs_finished : Option Bool
  pub no_unresolved_protocol_invalid : Option Bool
  pub claim_provenance_passed : Option Bool
  pub falsification_contract_present : Option Bool
  pub high_impact_dissent_recorded : Option Bool
  pub safety_status_valid : Option Bool
  pub contamination_gate : Option GateOutcome
  pub parity_guard : Option GateOutcome
  pub delta_reason : Option String
  pub affected_claims : Option (List String)
  pub update_contract_result : Option String

-- `GuardFacts()`
abbrev pub no_facts : GuardFacts
no_facts = record {
  all_required_runs_finished = none;
  no_unresolved_protocol_invalid = none;
  claim_provenance_passed = none;
  falsification_contract_present = none;
  high_impact_dissent_recorded = none;
  safety_status_valid = none;
  contamination_gate = none;
  parity_guard = none;
  delta_reason = none;
  affected_claims = none;
  update_contract_result = none;
}

pub record GuardCheck : Type 0 where
  pub name : String
  pub status : GuardStatus
  pub reason : String

unfoldable pub bool_guard : String → Option Bool → GuardCheck
bool_guard name none = record {
  name = name;
  status = GuardStatus.unavailable;
  reason = format (name ∷ " was not supplied" ∷ []);
}
bool_guard name (some true) = record {
  name = name;
  status = GuardStatus.pass;
  reason = format (name ∷ " is true" ∷ []);
}
bool_guard name (some false) = record {
  name = name;
  status = GuardStatus.fail;
  reason = format (name ∷ " is false" ∷ []);
}

unfoldable pub gate_guard : String → Option GateOutcome → GuardCheck
gate_guard name none = record {
  name = name;
  status = GuardStatus.unavailable;
  reason = format (name ∷ " was not supplied" ∷ []);
}
gate_guard name (some GateOutcome.pass) = record {
  name = name;
  status = GuardStatus.pass;
  reason = format (name ∷ " == PASS" ∷ []);
}
gate_guard name (some GateOutcome.fail) = record {
  name = name;
  status = GuardStatus.fail;
  reason = format (name ∷ " != PASS" ∷ []);
}

unfoldable pub nonempty_text_guard : String → Option String → GuardCheck
nonempty_text_guard name none = record {
  name = name;
  status = GuardStatus.unavailable;
  reason = format (name ∷ " was not supplied" ∷ []);
}
nonempty_text_guard name (some value) =
    if not (is_blank value)
    then record {
      name = name;
      status = GuardStatus.pass;
      reason = format (name ∷ " is present" ∷ []);
    }
    else record {
      name = name;
      status = GuardStatus.fail;
      reason = format (name ∷ " is empty" ∷ []);
    }

unfoldable pub nonempty_items_guard : String → Option (List String) → GuardCheck
nonempty_items_guard name none = record {
  name = name;
  status = GuardStatus.unavailable;
  reason = format (name ∷ " was not supplied" ∷ []);
}
nonempty_items_guard name (some value) =
    if not (is_empty value)
    then record {
      name = name;
      status = GuardStatus.pass;
      reason = format (name ∷ " is non-empty" ∷ []);
    }
    else record {
      name = name;
      status = GuardStatus.fail;
      reason = format (name ∷ " is empty" ∷ []);
    }

-- `_guard_results`: the checks of the edge, none for an edge without guards.
unfoldable pub guard_results : RuntimeState → RuntimeState → GuardFacts → List GuardCheck
unfolding bool_guard gate_guard nonempty_text_guard nonempty_items_guard
guard_results source target facts =
    if source == domain_independent_run && target == domain_output_frozen
    then bool_guard "all_required_runs_finished" facts.all_required_runs_finished
      ∷ bool_guard "no_unresolved_protocol_invalid" facts.no_unresolved_protocol_invalid
      ∷ []
    else if source == final_synthesis && target == human_review
    then bool_guard "claim_provenance_passed" facts.claim_provenance_passed
      ∷ bool_guard "falsification_contract_present" facts.falsification_contract_present
      ∷ bool_guard "high_impact_dissent_recorded" facts.high_impact_dissent_recorded
      ∷ bool_guard "safety_status_valid" facts.safety_status_valid
      ∷ []
    else if source == track_output_frozen && target == blind_judging
    then gate_guard "contamination_gate" facts.contamination_gate
      ∷ gate_guard "parity_guard" facts.parity_guard
      ∷ []
    else if source == update_review && target == updated_record
    then nonempty_text_guard "delta_reason" facts.delta_reason
      ∷ nonempty_items_guard "affected_claims" facts.affected_claims
      ∷ nonempty_text_guard "update_contract_result" facts.update_contract_result
      ∷ []
    else []
