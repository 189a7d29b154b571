-- ===== src/World/State/Integrity.antt =====
-- Which actor and world states pass `assert_integrity` of state.py.
use human_cos_fft1_trial.Prelude.{
  nat_eq, string_eq, bool_eq, option_eq, list_eq, pair_eq, ==_iff, Distinct, Option, String, [],
  absent_iff, both_iff, filled_iff, implies_iff, is_some, less_iff, ltb, none, not, present_iff,
  raise_if, raises_iff, repeats_iff, returned, ℕ, ◌&&◌, ◌==◌, ◌>>◌, ◌↔◌, ◌≡◌, ◌≢◌, ◌≤◌,
}
use human_cos_fft1_trial.Runtime.States.{state_eq}
use human_cos_fft1_trial.World.State.{
  ActorStateSnapshotPayload, WorldStateSnapshotPayload, check_actor_state, check_world_state,
}

-- A first revision has no parent, and a later one has one.
abbrev pub NamesParent : ℕ → Option String → Type 0
NamesParent revision parent = (revision ≡ 1 → parent ≡ none) × (2 ≤ revision → parent ≢ none)

pub NamesParent-iff :
    {E : Type 0} (revision : ℕ) (parent : Option String) (first later : E)
    → ((raise_if (revision == 1 && is_some parent) first
          >> raise_if (ltb 1 revision && not (is_some parent)) later)
        ≡ returned tt)
      ↔ NamesParent revision parent
NamesParent-iff revision parent first later =
    both_iff (raises_iff first (implies_iff (==_iff revision 1) (absent_iff parent)))
      (raises_iff later (implies_iff (less_iff 1 revision) (present_iff parent)))

pub record ActorStateSound (state : ActorStateSnapshotPayload) : Type 0 where
  pub has_sources : state.source_refs ≢ []
  pub names_parent : NamesParent state.revision state.parent_state_hash

pub check_actor_state_iff :
    (state : ActorStateSnapshotPayload)
    → (check_actor_state state ≡ returned tt) ↔ ActorStateSound state
unfolding check_actor_state
check_actor_state_iff state =
    let all =
      both_iff (raises_iff _ (filled_iff state.source_refs))
        (NamesParent-iff state.revision state.parent_state_hash _ _) in
    (
      λ h. let (s, p) = all.0 h in record { has_sources = s; names_parent = p },
      λ s. all.1 (s.has_sources, s.names_parent),
    )

pub record WorldStateSound (state : WorldStateSnapshotPayload) : Type 0 where
  pub has_actors : state.actor_state_hashes ≢ []
  pub distinct_actors : Distinct state.actor_state_hashes
  pub has_sources : state.source_refs ≢ []
  pub names_parent : NamesParent state.revision state.parent_world_state_hash

pub check_world_state_iff :
    (state : WorldStateSnapshotPayload)
    → (check_world_state state ≡ returned tt) ↔ WorldStateSound state
unfolding check_world_state
check_world_state_iff state =
    let all = both_iff (raises_iff _ (filled_iff state.actor_state_hashes)) (
      both_iff (raises_iff _ (repeats_iff state.actor_state_hashes)) (
        both_iff (raises_iff _ (filled_iff state.source_refs))
          (NamesParent-iff state.revision state.parent_world_state_hash _ _))) in
    (
      λ h.
          let (a, (d, (s, p))) = all.0 h in
          record { has_actors = a; distinct_actors = d; has_sources = s; names_parent = p },
      λ s. all.1 (s.has_actors, (s.distinct_actors, (s.has_sources, s.names_parent))),
    )
