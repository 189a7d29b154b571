-- ===== src/World.antt =====
-- runtime/src/human_cos/world: the revisions of the frozen records (Revision, Lineage), the actor and
-- world states (State) and the causal graph (Causal).
pub mod Revision
pub mod Lineage
pub mod State
pub mod Causal
