-- ===== src/Schema/CommunityRows.antt =====
-- The rows of prisma/schema.prisma for conversations, saved searches, reports and organizations.
use idea_project.Base.{ℕ, Bool, Option, String}
use idea_project.Schema.PlanEnums.{ReportTargetType, ReportStatus}

pub record Conversation : Type 0 where
  pub id : ℕ
  pub business_id : Option ℕ
  pub updated_at : ℕ

pub record ConversationParticipant : Type 0 where
  pub conversation_id : ℕ
  pub user_id : ℕ
  pub last_read_at : Option ℕ

pub record Message : Type 0 where
  pub id : ℕ
  pub conversation_id : ℕ
  pub sender_id : ℕ
  pub body : String
  pub created_at : ℕ
  pub deleted_at : Option ℕ

pub record Watchlist : Type 0 where
  pub user_id : ℕ
  pub business_id : ℕ

pub data SortableField : Type 0 where
  created_at price mrr : SortableField

pub data SortDir : Type 0 where
  asc desc : SortDir

-- src/listings/dto/search-listings.dto.ts: prices are whole, and `verified` is the test
-- `verified === 'true'`.
pub record SearchListingsDto : Type 0 where
  pub category_id : Option ℕ
  pub min_price : Option ℕ
  pub max_price : Option ℕ
  pub min_mrr : Option ℕ
  pub verified : Bool
  pub country : Option String
  pub sort_by : Option SortableField
  pub sort_dir : Option SortDir
  pub cursor : Option ℕ
  pub limit : Option ℕ

pub record SavedSearch : Type 0 where
  pub id : ℕ
  pub user_id : ℕ
  pub name : String
  pub filters : SearchListingsDto
  pub alerts_enabled : Bool
  pub last_notified_at : Option ℕ

pub record Report : Type 0 where
  pub id : ℕ
  pub reporter_id : ℕ
  pub target_type : ReportTargetType
  pub target_id : ℕ
  pub business_id : Option ℕ
  pub reason : String
  pub status : ReportStatus

pub record Organization : Type 0 where
  pub id : ℕ
  pub name : String
  pub slug : String
  pub logo_url : Option String

pub record BusinessCategory : Type 0 where
  pub id : ℕ
  pub name : String
  pub slug : String
