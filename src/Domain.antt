-- ===== src/Domain.antt =====
-- internal/core/domain: the models, the errors and the validation rules.
pub mod Errors
pub mod Models
pub mod Rules
