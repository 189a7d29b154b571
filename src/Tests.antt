-- ===== src/Tests.antt =====
-- Concrete inputs of the modelled operations, and the theorems at them.
pub mod Transitions
pub mod Blind
pub mod Runs
pub mod Contexts
pub mod Tools
pub mod ModelRoles
pub mod Stops
pub mod Frozen
pub mod Terminal
pub mod Scheduling
pub mod Worlds
pub mod Reviews
