-- ===== src/Models.antt =====
-- src/models.py: the enumerations that the tables' CHECK constraints list, and a row type per table.
-- Identifiers and times are natural numbers: the code tests identifiers for equality and compares
-- times, and does nothing else with either.
pub mod Kinds
pub mod Rows
