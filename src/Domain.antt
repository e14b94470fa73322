-- ===== src/Domain.antt =====
-- src/domain and src/shared/errors.py: status words, validated values, exceptions and the rules.
pub mod Status
pub mod Errors
pub mod Models
pub mod Rules
pub mod Decisions
