-- ===== src/DueDiligence.antt =====
-- The requests for documents in a deal room, and their items.
pub mod Service
pub mod Items
pub mod Tests
