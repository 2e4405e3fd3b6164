-- ===== src/Conversations.antt =====
-- Conversations between users and their messages.
pub mod Service
pub mod Members
pub mod Reading
pub mod Senders
pub mod Tests
