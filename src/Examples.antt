-- ===== src/Examples.antt =====
-- Concrete inputs, and what the theorems say of them.
pub mod Rows
pub mod Database
pub mod Cell
pub mod Access
pub mod Tokens
pub mod Paged
pub mod Tables
pub mod Queries
pub mod Caching
pub mod Grants
pub mod Batches
pub mod Scheduling
pub mod Upcoming
pub mod Capabilities
pub mod Leases
pub mod Queue
pub mod Sealed
pub mod Documents
pub mod Driver
pub mod Mongo
pub mod Triggered
pub mod Views
