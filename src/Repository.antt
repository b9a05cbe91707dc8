-- ===== src/Repository.antt =====
-- internal/repository/db: the SQL repositories.
pub mod Indexer
pub mod Query
