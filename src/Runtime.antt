-- ===== src/Runtime.antt =====
-- runtime/src/human_cos/runtime: the control-plane state machine, the tool policy and the lifecycle
-- of a run.
pub mod States
pub mod Graph
pub mod Guards
pub mod Transition
pub mod Run
pub mod ToolPolicy
pub mod Journal
pub mod Scheduler
