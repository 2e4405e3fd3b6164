-- ===== src/Payments.antt =====
-- Payment records and their webhooks: `TransactionsService` (src/transactions/transactions.service.ts),
-- `WebhooksService` (src/webhooks/webhooks.service.ts) and the signature check
-- (src/webhooks/stripe-signature.util.ts).
pub mod Transactions
pub mod Signature
pub mod Webhooks
pub mod Effects
pub mod Header
pub mod Linking
pub mod Tests
