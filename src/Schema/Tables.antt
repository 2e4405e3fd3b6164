-- ===== src/Schema/Tables.antt =====
-- The database: the tables that the services read and write, those of one part of the program
-- together in a record.
use idea_project.Base.{ℕ, List}
use idea_project.Schema.Rows.{
  User, RefreshToken, OneTimeToken, Business, BusinessListing, Notification, NotificationPreference,
  AuditLog, AdminAction, EmailJob, OrganizationMember, Profile, Email, BusinessDocument,
  DocumentAccess, DocumentAccessLog,
}
use idea_project.Schema.DealRows.{
  Negotiation, Offer, OfferRevision, Deal, DealParticipant, DealTask, DealTimelineEvent, Agreement,
  AgreementVersion, AgreementSignature, Transaction, TransactionEvent, WebhookEvent,
}
use idea_project.Schema.CommunityRows.{
  Conversation, ConversationParticipant, Message, Watchlist, SavedSearch, Report, Organization,
  BusinessCategory,
}
use idea_project.Schema.EvidenceRows.{
  BusinessMetric, BusinessVerification, VerificationItem, VerificationEvent, DueDiligenceRequest,
  DueDiligenceItem,
}
use idea_project.Schema.PlanRows.{Plan, Subscription, AiAnalysis, AiJob}

-- What leaves a service besides its own tables: `next_notification_id` is the identifier that the database
-- gives to the next row of `notifications`, `emitted` holds what the gateway has pushed,
-- `email_queue` and `saved_search_queue` the jobs added, and the rest the tables of messages and logs.
pub record Outbox : Type 0 where
  pub notifications : List Notification
  pub next_notification_id : ℕ
  pub emitted : List Notification
  pub preferences : List NotificationPreference
  pub email_queue : List EmailJob
  pub saved_search_queue : List ℕ
  pub stored_objects : List ℕ
  pub sent_emails : List Email
  pub audit_logs : List AuditLog
  pub admin_actions : List AdminAction

-- Talk between users, what they watch, and their organizations.
pub record Community : Type 0 where
  pub conversations : List Conversation
  pub conversation_participants : List ConversationParticipant
  pub messages : List Message
  pub watchlists : List Watchlist
  pub saved_searches : List SavedSearch
  pub reports : List Report
  pub organizations : List Organization
  pub categories : List BusinessCategory

-- What is known and asked about a business.
pub record Evidence : Type 0 where
  pub metrics : List BusinessMetric
  pub verifications : List BusinessVerification
  pub verification_items : List VerificationItem
  pub verification_events : List VerificationEvent
  pub due_diligence_requests : List DueDiligenceRequest
  pub due_diligence_items : List DueDiligenceItem

-- Subscriptions and analyses, with the queue of the jobs to run.
pub record Plans : Type 0 where
  pub plans : List Plan
  pub subscriptions : List Subscription
  pub ai_jobs : List AiJob
  pub ai_analyses : List AiAnalysis
  pub ai_queue : List ℕ

-- The tables that the services read and write.
pub record Db : Type 0 where
  pub users : List User
  pub refresh_tokens : List RefreshToken
  pub email_verification_tokens : List OneTimeToken
  pub password_reset_tokens : List OneTimeToken
  pub businesses : List Business
  pub listings : List BusinessListing
  pub negotiations : List Negotiation
  pub offers : List Offer
  pub offer_revisions : List OfferRevision
  pub deals : List Deal
  pub participants : List DealParticipant
  pub tasks : List DealTask
  pub timeline : List DealTimelineEvent
  pub agreements : List Agreement
  pub agreement_versions : List AgreementVersion
  pub signatures : List AgreementSignature
  pub transactions : List Transaction
  pub transaction_events : List TransactionEvent
  pub webhook_events : List WebhookEvent
  pub organization_members : List OrganizationMember
  pub profiles : List Profile
  pub documents : List BusinessDocument
  pub access_grants : List DocumentAccess
  pub access_logs : List DocumentAccessLog
  pub community : Community
  pub evidence : Evidence
  pub billing : Plans
  pub outbox : Outbox
