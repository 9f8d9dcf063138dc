-- ===== src/Market.antt =====
-- The indexer's log handlers and the market's tables: backend/internal/indexer/handlers.go,
-- governance.go and abis.go, with the statements of backend/internal/db that they run.
pub mod Abi
pub mod Tables
pub mod Queries
pub mod Bidding
pub mod Ownership
pub mod Handling
pub mod Trading
pub mod Auctioning
pub mod Offering
pub mod Transfers
pub mod Governing
pub mod Dispatch
pub mod Observe
pub mod Failing
pub mod Errors
pub mod Words
pub mod Batch
pub mod Frame
pub mod Effects
pub mod Relisting
pub mod Replay
pub mod Crediting
pub mod Reactivation
pub mod Leading
pub mod Once
mod Runs
mod Examples
