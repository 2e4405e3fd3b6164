-- ===== src/Documents.antt =====
-- `DocumentsService` (src/documents/documents.service.ts): the files of a business and who may
-- read them.
pub mod Rules
pub mod Service
pub mod Reasons
pub mod Access
pub mod Tests
