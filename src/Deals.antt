-- ===== src/Deals.antt =====
-- `DealsService` (src/deals/deals.service.ts): the deal room of a sale.
pub mod Service
pub mod Lifecycle
pub mod Tests
