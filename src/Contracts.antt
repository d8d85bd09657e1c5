-- ===== src/Contracts.antt =====
-- src/routers/contracts.py: the handlers of contracts.
pub mod Common
pub mod Register
pub mod Subtype
pub mod Endpoint
pub mod Deletion
pub mod History
pub mod Reads
pub mod Listing
pub mod Proposed
