-- ===== src/Organizations.antt =====
-- Organizations and the roles of their members.
pub mod Service
pub mod Roles
