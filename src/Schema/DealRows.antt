-- ===== src/Schema/DealRows.antt =====
-- The rows of prisma/schema.prisma for negotiations, deals, agreements and payments.
use idea_project.Base.{ℕ, Bool, Option, String}
use idea_project.Schema.Rows.{Metadata, TransactionEventType}
use idea_project.Schema.DealEnums.{
  OfferStatus, NegotiationStatus, DealStatus, DealParticipantRole, DealTaskStatus, AgreementStatus,
  TransactionStatus,
}

pub record Negotiation : Type 0 where
  pub id : ℕ
  pub business_id : ℕ
  pub buyer_id : ℕ
  pub seller_id : ℕ
  pub status : NegotiationStatus

pub record Offer : Type 0 where
  pub id : ℕ
  pub negotiation_id : ℕ
  pub business_id : ℕ
  pub buyer_id : ℕ
  pub seller_id : ℕ
  pub parent_offer_id : Option ℕ
  pub amount_minor : ℕ
  pub currency : String
  pub terms : Option String
  pub status : OfferStatus
  pub created_by_id : ℕ
  pub submitted_at : Option ℕ
  pub responded_at : Option ℕ

pub record OfferRevision : Type 0 where
  pub offer_id : ℕ
  pub amount_minor : ℕ
  pub currency : String
  pub terms : Option String
  pub status : OfferStatus
  pub submitted_by_id : ℕ

pub record Deal : Type 0 where
  pub id : ℕ
  pub business_id : ℕ
  pub negotiation_id : ℕ
  pub accepted_offer_id : ℕ
  pub buyer_id : ℕ
  pub seller_id : ℕ
  pub status : DealStatus

pub record DealParticipant : Type 0 where
  pub deal_id : ℕ
  pub user_id : ℕ
  pub role : DealParticipantRole

pub record DealTask : Type 0 where
  pub id : ℕ
  pub deal_id : ℕ
  pub title : String
  pub description : Option String
  pub owner_id : Option ℕ
  pub due_at : Option ℕ
  pub status : DealTaskStatus

pub record DealTimelineEvent : Type 0 where
  pub deal_id : ℕ
  pub type : String
  pub actor_id : Option ℕ
  pub metadata : Metadata

pub record Agreement : Type 0 where
  pub id : ℕ
  pub deal_id : ℕ
  pub title : String
  pub status : AgreementStatus
  pub generated_by_ai : Bool
  pub review_required : Bool

pub record AgreementVersion : Type 0 where
  pub id : ℕ
  pub agreement_id : ℕ
  pub version : ℕ
  pub content_url : Option String
  pub content_hash : Option String
  pub created_by_id : ℕ

pub record AgreementSignature : Type 0 where
  pub agreement_version_id : ℕ
  pub user_id : ℕ

pub record Transaction : Type 0 where
  pub id : ℕ
  pub deal_id : ℕ
  pub amount_minor : ℕ
  pub currency : String
  pub status : TransactionStatus
  pub provider : Option String
  pub provider_ref : Option ℕ

pub record TransactionEvent : Type 0 where
  pub transaction_id : ℕ
  pub type : TransactionEventType
  pub metadata : Metadata

pub record WebhookEvent : Type 0 where
  pub provider : String
  pub event_id : ℕ
