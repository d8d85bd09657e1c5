-- ===== src/Session.antt =====
-- What the handlers use of the database session: queries, primary-key reads, and the constraints of
-- src/models.py that PostgreSQL checks at a flush. A handler is a function from the database to a
-- reply and the database that it commits; a handler that raises commits nothing.
pub mod Queries
pub mod Live
pub mod Versions
pub mod Projects
pub mod Filters
pub mod Inversion
pub mod Keys
pub mod Order
pub mod Rows
pub mod Rewrites
