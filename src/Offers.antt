-- ===== src/Offers.antt =====
-- `OffersService` (src/offers/offers.service.ts).
pub mod Queries
pub mod Create
pub mod Respond
pub mod Read
pub mod Accept
pub mod Acceptance
pub mod Exclusive
pub mod Guards
pub mod Settled
pub mod Countering
pub mod Currency
pub mod Reopened
pub mod Tests
