-- ===== src/Ingestion.antt =====
-- Ingestion: the jobs that load the tables, and the identity of players.
pub mod Job
pub mod Matching
pub mod Links
pub mod Rematch
pub mod SeasonStats
pub mod Csv
pub mod Values
pub mod Specs
pub mod Upload
pub mod Scope
pub mod Roster
