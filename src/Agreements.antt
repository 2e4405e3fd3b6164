-- ===== src/Agreements.antt =====
-- `AgreementsService` (src/agreements/agreements.service.ts): versions and signatures of a deal.
pub mod Service
pub mod Versions
pub mod Tests
