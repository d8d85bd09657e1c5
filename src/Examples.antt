-- ===== src/Examples.antt =====
-- Runs of the handlers on a small database, and the theorems at these runs.
pub mod Data
pub mod Shifts
pub mod Moves
pub mod Registrations
pub mod Parts
pub mod Access
pub mod Releases
pub mod Texts
pub mod Cursors
pub mod Listings
pub mod Agents
pub mod Sequences
pub mod Cors
pub mod Init
pub mod Bootstrap
