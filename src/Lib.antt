-- ===== src/Lib.antt =====
-- A verification library for the backend of the marketplace (NestJS services over Prisma): what the
-- services do to the database, and the theorems on it.
--
-- The parts and how they interact. A user registers and gets sessions in cookies (auth). A seller
-- puts up a business with a listing and metrics (businesses) and has it verified (verification); an
-- administrator reviews or suspends it (admin). Buyers search (listings), keep searches and watch
-- businesses (saved-searches, watchlists), write (conversations), report (reports), ask for an
-- analysis within the limit of their plan (ai, billing) and make offers inside negotiations
-- (offers). An accepted offer sells the business and opens a deal room (deals), where the parties
-- check the business (due-diligence), sign agreements (agreements), share documents (documents,
-- storage) and pay (transactions); the payment provider reports by webhook (webhooks). Workers
-- (jobs) take the jobs of the queues: analyses, alerts and mails. Every service notifies
-- (notifications) and audits (common/audit).
--
-- Which file models which part:
--   Schema (Enums, DealEnums, EvidenceEnums, PlanEnums, Rows, DealRows, CommunityRows, EvidenceRows,
--   PlanRows, Tables)       prisma/schema.prisma: the enums and the rows; `Db` holds the tables,
--                           some of them grouped in `community`, `evidence` and `billing`, and `outbox` the
--                           notifications, jobs, mails and logs.
--   Common                  src/common: errors, the monad of a service method, the transition tables,
--                           money, pages by cursor (Pages), Duration, Slugify, the guards, the filter
--                           and the interceptor (Http); Common/Prisma is the database client as an
--                           interface; Common/Notify is create of
--                           src/notifications/notifications.service.ts and src/common/audit.
--   Notifications           src/notifications: the other methods (Service) and the sockets (Gateway).
--   Offers                  src/offers/offers.service.ts: Queries, Create (create, counter), Respond
--                           (reject, withdraw), Read (listForUser, findOne), Accept (accept).
--   Deals                   src/deals/deals.service.ts.
--   Businesses              src/businesses/businesses.service.ts (Rules, Service, Edit, Metrics) and
--                           src/admin/admin.service.ts (Admin, AdminLists).
--   Agreements              src/agreements/agreements.service.ts.
--   DueDiligence            src/due-diligence/due-diligence.service.ts.
--   Verification            src/verification/verification.service.ts.
--   Payments                src/transactions/transactions.service.ts (Transactions),
--                           src/webhooks/stripe-signature.util.ts (Signature) and
--                           src/webhooks/webhooks.service.ts (Webhooks).
--   Auth                    src/auth/auth.service.ts and src/auth/token.service.ts: Tokens, Sessions,
--                           Accounts, Google; Controller is src/auth/auth.controller.ts.
--   Documents               src/documents/documents.service.ts (Rules, Service).
--   Search                  src/listings (Listings), src/saved-searches (SavedSearches),
--                           src/watchlists (Watchlists) and
--                           src/jobs/processors/saved-search.processor.ts (Alerts).
--   Ai                      src/ai/ai.service.ts (Service) and src/jobs/processors/ai.processor.ts
--                           (Processor).
--   Conversations           src/conversations/conversations.service.ts.
--   Organizations           src/organizations/organizations.service.ts.
--   Users, Billing, Reports, Categories, Storage, Jobs
--                           the services of these names; Jobs is the processor of mails.
--   Market                  the requests to the services and the workers' runs that write, as one
--                           step relation (`Request`, `handle`, `Reach`), and what holds after any
--                           sequence of them.
--   Samples, */Tests        a seller, two buyers and their rows, and the theorems applied to them.
--   Base                    lists of rows over the native numbers: search, count, conditional update,
--                           slices, and texts.
--
-- How state and operations correspond. A method is a function from its arguments to an `Action`,
-- from a database to an answer and a database. A throw keeps what was written before it, and
-- `$transaction` takes it back. A call of the database client is a query of the interface `Prisma`,
-- whose laws are what Prisma documents: `findUnique` gives a row that matches or none, `updateMany`
-- changes the rows that match and counts them, `create` meets the unique columns, `upsert` changes
-- or adds, `delete` throws without a row, `cursor`, `skip` and `take` cut a list that `orderBy` has
-- sorted. `list_prisma` meets the interface. In Market a request runs to its end before the next
-- one starts. The theorems on a transaction hold for every database that it starts from, so also
-- for what other requests did since the method read its rows.
--
-- Parameters. The clock, fresh identifiers and random bytes are arguments. `AuthEnv` (SHA-256,
-- argon2, JWT), `Crypto` (HMAC, hexadecimal digits, `Number`), `Numbers` (JavaScript numbers),
-- `AiProvider` (the provider of analyses and the check of its answer), `AiConfig` and
-- `CookieConfig` (configuration), `JSON.parse` (a body that is no JSON, a value that is no event,
-- or an event), `toLowerCase`, the random text of `nanoid`, Google's check of a credential, the
-- address that the object store signs, and which of two rows is the older where the column
-- `createdAt` is not modelled (`is_older`, `LatestFirst`) are parameters, without hypotheses but
-- those that a theorem names. Identifiers and the texts that the code only compares are natural
-- numbers.
--
-- Loops of the code are over lists and end. Fuel stands in two descriptions that theorems compare
-- the code with: `read_all` of Common/Pages/Walk, which follows the pages of a list, gets one page
-- more than the list has rows, and `decimal` of Common/Duration/Format, which writes a number, gets
-- more steps than the number.
--
-- Not modelled: the controllers but that of auth, which call one method each; the validation of
-- DTOs, decorators and middleware; what is joined to a row that is read; the texts of messages and
-- mails; listAuditLogs, since the rows of the audit have no identifier here; foreign keys, but that
-- of a signature to its version; failures of the database other than those of its constraints; the
-- client of the object store and of the mail transport; clients that leave the sockets;
-- configuration, database, health, modules, seeds and scripts.
pub mod Base
pub mod Schema
pub mod Search
pub mod Common
pub mod Offers
pub mod Deals
pub mod Businesses
pub mod Payments
pub mod Organizations
pub mod Verification
pub mod DueDiligence
pub mod Users
pub mod Storage
pub mod Jobs
pub mod Billing
pub mod Reports
pub mod Categories
pub mod Agreements
pub mod Conversations
pub mod Notifications
pub mod Ai
pub mod Auth
pub mod Documents
pub mod Market
pub mod Samples
