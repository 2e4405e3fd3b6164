-- ===== src/Verification.antt =====
-- Verifications of businesses and their review.
pub mod Service
pub mod Review
