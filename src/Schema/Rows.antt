-- ===== src/Schema/Rows.antt =====
-- The rows of the tables of prisma/schema.prisma that the services read and write. Identifiers and
-- the other texts that the code only compares (e-mail addresses, hashes, provider references) are
-- numbers; a time is a number; a nullable column is an `Option`.
use idea_project.Base.{ℕ, Bool, Option, List, String}
use idea_project.Schema.Enums.{
  UserRole, OrgMemberRole, AccountStatus, BusinessStatus, ListingStatus, ListingVisibility,
  DocumentCategory, DocumentVisibility, DocumentAccessAction,
}
use idea_project.Schema.EvidenceEnums.{VerificationStatus, DueDiligenceStatus}
use idea_project.Schema.DealEnums.{
  DealStatus, DealParticipantRole, TransactionStatus, NotificationType,
}

-- A value in a JSON column: an identifier, a text, a status or a role, a missing text.
pub data Value : Type 0 where
  key : ℕ → Value
  text : String → Value
  maybe_text : Option String → Value
  deal_status : DealStatus → Value
  role : DealParticipantRole → Value
  verification_status : VerificationStatus → Value
  due_diligence_status : DueDiligenceStatus → Value

abbrev pub Metadata : Type 0
Metadata = List (String × Value)

-- `TRANSACTION_CREATED` and the templates `PROVIDER_${status}`.
pub data TransactionEventType : Type 0 where
  transaction_created : TransactionEventType
  provider : TransactionStatus → TransactionEventType

pub record User : Type 0 where
  pub id : ℕ
  pub email : ℕ
  pub password_hash : ℕ
  pub google_id : Option ℕ
  pub role : UserRole
  pub status : AccountStatus
  pub email_verified_at : Option ℕ
  pub last_login_at : Option ℕ
  pub deleted_at : Option ℕ

pub record RefreshToken : Type 0 where
  pub id : ℕ
  pub user_id : ℕ
  pub token_hash : ℕ
  pub family : ℕ
  pub revoked_at : Option ℕ
  pub replaced_by : Option ℕ
  pub user_agent : Option String
  pub ip_address : Option String
  pub expires_at : ℕ

pub record OneTimeToken : Type 0 where
  pub id : ℕ
  pub user_id : ℕ
  pub token_hash : ℕ
  pub expires_at : ℕ
  pub used_at : Option ℕ

pub record Business : Type 0 where
  pub id : ℕ
  pub owner_id : ℕ
  pub organization_id : Option ℕ
  pub category_id : Option ℕ
  pub name : String
  pub slug : String
  pub description : Option String
  pub business_model : Option String
  pub founded_at : Option ℕ
  pub country : Option String
  pub website : Option String
  pub status : BusinessStatus
  pub deleted_at : Option ℕ

pub record BusinessListing : Type 0 where
  pub business_id : ℕ
  pub status : ListingStatus
  pub visibility : ListingVisibility
  pub asking_price_minor : Option ℕ
  pub currency : String
  pub headline : Option String
  pub completeness_score : ℕ
  pub published_at : Option ℕ

pub record Notification : Type 0 where
  pub id : ℕ
  pub user_id : ℕ
  pub type : NotificationType
  pub title : String
  pub body : Option String
  pub metadata : Metadata
  pub read_at : Option ℕ

pub record NotificationPreference : Type 0 where
  pub user_id : ℕ
  pub email_enabled : Bool
  pub muted_types : List NotificationType

pub record AuditLog : Type 0 where
  pub user_id : Option ℕ
  pub action : String
  pub target_type : String
  pub target_id : ℕ
  pub ip_address : Option String
  pub metadata : Metadata

pub record AdminAction : Type 0 where
  pub actor_id : ℕ
  pub action : String
  pub target_type : String
  pub target_id : ℕ
  pub reason : Option String

pub record EmailJob : Type 0 where
  pub user_id : ℕ
  pub type : NotificationType
  pub title : String
  pub body : Option String

pub record OrganizationMember : Type 0 where
  pub organization_id : ℕ
  pub user_id : ℕ
  pub role : OrgMemberRole

pub record Profile : Type 0 where
  pub user_id : ℕ
  pub first_name : Option String
  pub last_name : Option String
  pub avatar_url : Option String
  pub company : Option String
  pub country : Option String

-- A mail that was sent: `token` is the one in its link.
pub record Email : Type 0 where
  pub to : ℕ
  pub template : String
  pub token : ℕ

pub record BusinessDocument : Type 0 where
  pub id : ℕ
  pub business_id : ℕ
  pub deal_id : Option ℕ
  pub uploaded_by_id : ℕ
  pub name : String
  pub mime_type : String
  pub size : ℕ
  pub storage_key : ℕ
  pub category : DocumentCategory
  pub visibility : DocumentVisibility
  pub deleted_at : Option ℕ

pub record DocumentAccess : Type 0 where
  pub document_id : ℕ
  pub grantee_id : ℕ
  pub granted_by_id : ℕ
  pub expires_at : Option ℕ
  pub revoked_at : Option ℕ

pub record DocumentAccessLog : Type 0 where
  pub document_id : ℕ
  pub user_id : ℕ
  pub action : DocumentAccessAction
