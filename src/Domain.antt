-- ===== src/Domain.antt =====
-- Value objects of crates/domain/src.
pub mod Hours
pub mod Freshness
pub mod Confidence
mod Tests
