-- ===== src/Notifications.antt =====
-- What users read of their notifications. `create` is in Common/Notify, since every service calls it.
pub mod Service
pub mod Gateway
pub mod Numbers
pub mod Reading
pub mod Tests
