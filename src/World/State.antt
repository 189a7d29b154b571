-- ===== src/World/State.antt =====
-- runtime/src/human_cos/world/state.py: the actor and world states and their freezing, as contracts of
-- a revision (World/Revision). A timestamp, which the contracts hold to be timezone-aware, is its
-- instant; the hash of a document is a parameter.
pub mod Integrity
use human_cos_fft1_trial.Prelude.{
  nat_eq, string_eq, bool_eq, option_eq, list_eq, pair_eq, List, Option, Outcome, String,
  all_distinct, is_empty, is_some, ltb, not, raise_if, ℕ, ◌&&◌, ◌==◌, ◌>>=◌, ◌>>◌,
}
use human_cos_fft1_trial.Runtime.States.{state_eq}
use human_cos_fft1_trial.World.Revision.{Frozen, RevisionContract, freeze}

pub data WorldStateContractError : Type 0 where
  world_state_contract_error : String → WorldStateContractError

pub data SourceClass : Type 0 where
  evidence_source model_source expert_source assumption_source system_source : SourceClass

pub record ProvenanceRef : Type 0 where
  pub source_class : SourceClass
  pub ref : String
  pub sha256 : String

pub record ActorStateSnapshotPayload : Type 0 where
  pub actor_state_id : String
  pub actor_id : String
  pub case_id : String
  pub case_revision : ℕ
  pub revision : ℕ
  pub parent_state_hash : Option String
  pub timestamp : ℕ
  pub observable_actions : List String
  pub capabilities : List String
  pub constraints : List String
  pub interests : List String
  pub beliefs_or_expectations : List String
  pub risk_tolerance_direction : Option String
  pub commitments : List String
  pub information_visible : List String
  pub uncertainties : List String
  pub source_refs : List ProvenanceRef
  pub protocol_version : String
  pub frozen_at : ℕ

pub record WorldStateSnapshotPayload : Type 0 where
  pub world_state_id : String
  pub case_id : String
  pub case_revision : ℕ
  pub revision : ℕ
  pub parent_world_state_hash : Option String
  pub timestamp : ℕ
  pub system_states : List String
  pub actor_state_hashes : List String
  pub causal_graph_hash : Option String
  pub critical_node_refs : List String
  pub open_unknowns : List String
  pub dissent_node_hashes : List String
  pub claim_refs : List String
  pub source_refs : List ProvenanceRef
  pub protocol_version : String
  pub frozen_at : ℕ

-- `ActorStateSnapshot.assert_integrity`, behind the check on its hash.
unfoldable pub check_actor_state :
    ActorStateSnapshotPayload → Outcome WorldStateContractError (Unit {0})
check_actor_state state = do
  raise_if (is_empty state.source_refs)
      (world_state_contract_error "ActorStateSnapshot requires provenance source refs")
  raise_if (state.revision == 1 && is_some state.parent_state_hash)
      (world_state_contract_error "first ActorState revision cannot have a parent")
  raise_if (ltb 1 state.revision && not (is_some state.parent_state_hash))
      (world_state_contract_error "later ActorState revision requires parent_state_hash")

-- `WorldStateSnapshot.assert_integrity`, behind the check on its hash.
unfoldable pub check_world_state :
    WorldStateSnapshotPayload → Outcome WorldStateContractError (Unit {0})
check_world_state state = do
  raise_if (is_empty state.actor_state_hashes)
      (world_state_contract_error "WorldStateSnapshot requires actor-state references")
  raise_if (not (all_distinct state.actor_state_hashes))
      (world_state_contract_error "actor_state_hashes must be unique")
  raise_if (is_empty state.source_refs)
      (world_state_contract_error "WorldStateSnapshot requires provenance source refs")
  raise_if (state.revision == 1 && is_some state.parent_world_state_hash)
      (world_state_contract_error "first WorldState revision cannot have a parent")
  raise_if (ltb 1 state.revision && not (is_some state.parent_world_state_hash))
      (world_state_contract_error "later WorldState revision requires parent hash")

abbrev pub ActorIdentity : Type 0
ActorIdentity = String × (String × (String × (ℕ × String)))

abbrev pub actor_state_contract :
    RevisionContract ActorStateSnapshotPayload ActorIdentity WorldStateContractError
actor_state_contract = record {
  identity =
      λ s. (s.actor_state_id, (s.actor_id, (s.case_id, (s.case_revision, s.protocol_version))));
  revision = λ s. s.revision;
  parent_hash = λ s. s.parent_state_hash;
  check = check_actor_state;
  hash_mismatch = world_state_contract_error "ActorStateSnapshot state_hash does not match payload";
  orphan_revision = world_state_contract_error "ActorState without parent must be revision 1";
  foreign_parent = world_state_contract_error "ActorState revision identity does not match parent";
  not_incremented = world_state_contract_error "ActorState revision must increment parent by one";
  wrong_parent = world_state_contract_error "ActorState parent hash does not match parent record";
}

abbrev pub WorldIdentity : Type 0
WorldIdentity = String × (String × (ℕ × String))

abbrev pub world_state_contract :
    RevisionContract WorldStateSnapshotPayload WorldIdentity WorldStateContractError
world_state_contract = record {
  identity = λ s. (s.world_state_id, (s.case_id, (s.case_revision, s.protocol_version)));
  revision = λ s. s.revision;
  parent_hash = λ s. s.parent_world_state_hash;
  check = check_world_state;
  hash_mismatch = world_state_contract_error "WorldStateSnapshot hash does not match payload";
  orphan_revision = world_state_contract_error "WorldState without parent must be revision 1";
  foreign_parent = world_state_contract_error "WorldState revision identity does not match parent";
  not_incremented = world_state_contract_error "WorldState revision must increment parent by one";
  wrong_parent = world_state_contract_error "WorldState parent hash does not match parent record";
}

abbrev pub freeze_actor_state :
    (ActorStateSnapshotPayload → String)
    → ActorStateSnapshotPayload
    → Option (Frozen ActorStateSnapshotPayload)
    → Outcome WorldStateContractError (Frozen ActorStateSnapshotPayload)
freeze_actor_state canonical_document_sha256 = freeze actor_state_contract canonical_document_sha256

abbrev pub freeze_world_state :
    (WorldStateSnapshotPayload → String)
    → WorldStateSnapshotPayload
    → Option (Frozen WorldStateSnapshotPayload)
    → Outcome WorldStateContractError (Frozen WorldStateSnapshotPayload)
freeze_world_state canonical_document_sha256 = freeze world_state_contract canonical_document_sha256
