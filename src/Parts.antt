-- ===== src/Parts.antt =====
-- src/routers/parts.py: the handlers of parts.
pub mod Common
pub mod Register
pub mod Update
pub mod Name
pub mod Subtype
pub mod Deletion
pub mod History
pub mod Listing
pub mod Proposed
