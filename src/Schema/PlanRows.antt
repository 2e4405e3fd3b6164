-- ===== src/Schema/PlanRows.antt =====
-- The rows of prisma/schema.prisma for plans, subscriptions and analyses.
use idea_project.Base.{ℕ, Bool, Option, String}
use idea_project.Schema.PlanEnums.{PlanCode, SubscriptionStatus, AiJobType, AiJobStatus}

pub record Plan : Type 0 where
  pub id : ℕ
  pub code : PlanCode
  pub name : String
  pub price_minor : ℕ
  pub currency : String
  pub active : Bool

pub record Subscription : Type 0 where
  pub id : ℕ
  pub user_id : ℕ
  pub plan_id : ℕ
  pub status : SubscriptionStatus
  pub current_period_end : Option ℕ
  pub created_at : ℕ

-- What the provider of analyses answers is kept as a number, like other texts that are not read; the
-- confidence is in tenths.
pub record AiAnalysis : Type 0 where
  pub business_id : ℕ
  pub job_id : ℕ
  pub type : AiJobType
  pub result : ℕ
  pub confidence : Option ℕ
  pub created_at : ℕ

pub record AiJob : Type 0 where
  pub id : ℕ
  pub user_id : ℕ
  pub business_id : Option ℕ
  pub type : AiJobType
  pub status : AiJobStatus
  pub provider : Option String
  pub duration_ms : Option ℕ
  pub error_message : Option String
  pub created_at : ℕ
