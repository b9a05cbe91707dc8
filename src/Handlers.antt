-- ===== src/Handlers.antt =====
-- internal/handlers: what the API makes of a request.
pub mod Rest
pub mod Ws
pub mod Graphql
