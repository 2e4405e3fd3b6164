-- ===== src/Businesses.antt =====
-- `BusinessesService` (src/businesses/businesses.service.ts) and the moderation methods of
-- `AdminService` (src/admin/admin.service.ts).
pub mod Rules
pub mod Service
pub mod Admin
pub mod Publishing
pub mod Suspension
pub mod Tests
pub mod Edit
pub mod Metrics
pub mod AdminLists
