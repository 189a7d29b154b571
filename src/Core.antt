-- ===== src/Core.antt =====
-- runtime/src/human_cos/core: the frozen data contracts, visibility and time, and the construction of
-- a worker's context.
pub mod Contracts
pub mod Visibility
pub mod Context
