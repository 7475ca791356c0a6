-- ===== src/Ingestion/Specs.antt =====
-- The table specifications, and that every row that parses has its key.
pub mod Rename
pub mod Synthetic
pub mod Transfermarkt
pub mod Keys
mod Tests
