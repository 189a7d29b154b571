-- ===== src/World/Revision.antt =====
-- The freezing of a revision, in the shape that `freeze_actor_state` and `freeze_world_state` of
-- runtime/src/human_cos/world/state.py and `freeze_causal_graph` of causal.py share. What differs is
-- the contract: the identity that a revision keeps, the checks of `assert_integrity` behind the one on
-- the hash, and the exceptions. The code builds the snapshot from the JSON document of the payload;
-- here it keeps the payload itself.
use human_cos_fft1_trial.Prelude.{
  nat_eq, string_eq, bool_eq, option_eq, list_eq, pair_eq, Eq, Option, Outcome, String, is_some,
  none, raise_if, returned, some, ℕ, ◌!=◌, ◌+◌, ◌>>◌, ◌||◌,
}

pub record RevisionContract (Payload Identity E : Type 0) : Type 0 where
  pub identity : Payload → Identity
  pub revision : Payload → ℕ
  pub parent_hash : Payload → Option String
  pub check : Payload → Outcome E (Unit {0})
  pub hash_mismatch : E
  pub orphan_revision : E
  pub foreign_parent : E
  pub not_incremented : E
  pub wrong_parent : E

pub record Frozen (Payload : Type 0) : Type 0 where
  pub payload : Payload
  pub hash : String

module _ {Payload Identity E : Type 0} ⦃e : Eq Identity⦄
    (contract : RevisionContract Payload Identity E)
    (canonical_document_sha256 : Payload → String) where
  open contract use {identity, revision, parent_hash, check}

  unfoldable pub assert_integrity : Frozen Payload → Outcome E (Unit {0})
  assert_integrity snapshot = do
    raise_if (snapshot.hash != canonical_document_sha256 snapshot.payload) contract.hash_mismatch
    check snapshot.payload

  unfoldable pub check_parent : Payload → Option (Frozen Payload) → Outcome E (Unit {0})
  unfolding assert_integrity
  check_parent payload none =
      raise_if (revision payload != 1 || is_some (parent_hash payload)) contract.orphan_revision
  check_parent payload (some parent) = do
    assert_integrity parent
    raise_if (identity payload != identity parent.payload) contract.foreign_parent
    raise_if (revision payload != revision parent.payload + 1) contract.not_incremented
    raise_if (parent_hash payload != some parent.hash) contract.wrong_parent

  unfoldable pub freeze : Payload → Option (Frozen Payload) → Outcome E (Frozen Payload)
  unfolding check_parent assert_integrity
  freeze payload parent = do
    check_parent payload parent
    let snapshot : Frozen Payload = record {
      payload = payload;
      hash = canonical_document_sha256 payload;
    }
    assert_integrity snapshot
    returned snapshot
