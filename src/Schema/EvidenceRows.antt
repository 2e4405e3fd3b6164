-- ===== src/Schema/EvidenceRows.antt =====
-- The rows of prisma/schema.prisma for metrics, verifications and due diligence.
use idea_project.Base.{ℕ, Option, String}
use idea_project.Schema.EvidenceEnums.{
  MetricType, MetricSource, MetricVerificationStatus, VerificationType, VerificationStatus,
  DueDiligenceCategory, DueDiligenceStatus,
}

pub record BusinessMetric : Type 0 where
  pub business_id : ℕ
  pub metric_type : MetricType
  pub value_minor : ℕ
  pub currency : String
  pub period : ℕ
  pub source : MetricSource
  pub verification_status : MetricVerificationStatus

pub record BusinessVerification : Type 0 where
  pub id : ℕ
  pub business_id : ℕ
  pub type : VerificationType
  pub status : VerificationStatus

pub record VerificationItem : Type 0 where
  pub verification_id : ℕ
  pub label : String
  pub value : Option String
  pub document_id : Option ℕ

-- The type of an event: `SUBMITTED`, or the status that a review sets.
pub data VerificationEventType : Type 0 where
  submitted : VerificationEventType
  reviewed : VerificationStatus → VerificationEventType

pub record VerificationEvent : Type 0 where
  pub verification_id : ℕ
  pub type : VerificationEventType
  pub note : Option String
  pub reviewer_id : Option ℕ

pub record DueDiligenceRequest : Type 0 where
  pub id : ℕ
  pub deal_id : ℕ
  pub category : DueDiligenceCategory
  pub title : String
  pub requested_by_id : ℕ

pub record DueDiligenceItem : Type 0 where
  pub id : ℕ
  pub request_id : ℕ
  pub description : String
  pub status : DueDiligenceStatus
  pub document_id : Option ℕ
