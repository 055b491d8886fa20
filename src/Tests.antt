-- ===== src/Tests.antt =====
-- A concrete runtime that meets the laws, runs of the program on it, and the theorems at inputs
-- where their hypotheses hold.
mod Chain
mod Scenario
mod Endings
mod Fixtures
mod Witnesses
mod Examples
mod Panics
mod Fuzz
mod Ranges
mod Handover
