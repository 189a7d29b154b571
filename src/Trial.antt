-- ===== src/Trial.antt =====
-- The trial sandbox, runtime/src/human_cos/trial: the contracts, the resource meter, the ledger and its
-- terminal freeze.
pub mod Contracts
pub mod Limits
pub mod Steps
pub mod Meter
pub mod Stop
pub mod Ledger
pub mod Result
pub mod Environment
pub mod Terminal
pub mod Closing
