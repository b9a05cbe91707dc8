-- ===== src/Services.antt =====
-- internal/core/services: the indexer's three fills and the query service.
pub mod Backfill
pub mod Balancefill
pub mod Query
pub mod Indexer
pub mod Forwardfill
