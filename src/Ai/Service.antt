-- ===== src/Ai/Service.antt =====
-- src/ai/ai.service.ts. The limits of the configuration and the start of the day, which depends on the
-- time zone, are parameters.
use idea_project.Base.{
  ℕ, Bool, not, ◌&&◌, Option, none, some, List, [], ◌∷◌, ◌==◌, nat_eq, is_some, leb,
}
use idea_project.Schema.{
  Db, Business, Subscription, SubscriptionStatus, subscription_status_eq, AiJob, AiJobType,
  AiJobStatus, AiAnalysis,
}
use idea_project.Common.{
  Action, AuthenticatedUser, ErrorCode, HttpStatus, app, not_found_exception, ◌>>=◌, ◌>>◌, pure,
  gets, or_raise, raise_if, modify, keep,
}
use idea_project.Common.Prisma.{Prisma}
use idea_project.Businesses.Service.{is_business}

-- `aiConfig`, and `setHours(0, 0, 0, 0)`.
pub record AiConfig : Type 0 where
  pub max_requests_per_day_free : ℕ
  pub max_requests_per_day_pro : ℕ
  pub start_of_day : ℕ → ℕ

abbrev pub is_active_of : ℕ → Subscription → Bool
is_active_of user_id x = x.user_id == user_id && x.status == SubscriptionStatus.active

-- `{ userId, createdAt: { gte: since } }`
abbrev pub is_used : ℕ → ℕ → AiJob → Bool
is_used since user_id j = j.user_id == user_id && leb since j.created_at

abbrev pub is_job : ℕ → AiJob → Bool
is_job id j = j.id == id

abbrev pub new_job : ℕ → ℕ → AiJobType → ℕ → ℕ → AiJob
new_job user_id business_id type id now = record {
  id = id;
  user_id = user_id;
  business_id = some business_id;
  type = type;
  status = AiJobStatus.pending;
  provider = none;
  duration_ms = none;
  error_message = none;
  created_at = now;
}

abbrev is_existing : Business → Bool
is_existing b = not (is_some b.deleted_at)

abbrev later : AiAnalysis → AiAnalysis → Bool
later a b = leb b.created_at a.created_at

abbrev first_of : {A : Type 0} → List A → Option A
first_of [] = none
first_of (a ∷ rest) = some a

abbrev pub limit_of : AiConfig → Option Subscription → ℕ
limit_of config none = config.max_requests_per_day_free
limit_of config (some x) = config.max_requests_per_day_pro

module _ (prisma : Prisma) (config : AiConfig) where
  -- `dailyLimit`
  abbrev pub daily_limit : ℕ → Db → ℕ
  daily_limit user_id s =
      limit_of config (prisma.find_first (is_active_of user_id) s.billing.subscriptions)

  unfoldable pub assert_within_daily_limit : ℕ → ℕ → Action (Unit {0})
  assert_within_daily_limit user_id now = do
    limit ← gets (daily_limit user_id)
    used ←
        gets λ s. prisma.count_where (is_used (config.start_of_day now) user_id) s.billing.ai_jobs
    raise_if (leb limit used) (app ErrorCode.ai_rate_limited HttpStatus.too_many_requests)

  unfoldable pub request_analysis : AuthenticatedUser → ℕ → AiJobType → ℕ → ℕ → Action AiJob
  request_analysis user business_id type id now = do
    found ← gets λ s. prisma.find_first (is_business business_id) s.businesses
    or_raise (keep is_existing found) (not_found_exception ErrorCode.business_not_found)
    assert_within_daily_limit user.id now
    modify λ s. record s {
      billing = record s.billing {
        ai_jobs = prisma.create (new_job user.id business_id type id now) s.billing.ai_jobs;
        ai_queue = id ∷ s.billing.ai_queue;
      };
    }
    pure (new_job user.id business_id type id now)

  unfoldable pub get_latest_analysis : ℕ → Action AiAnalysis
  get_latest_analysis business_id = do
    found ← gets λ s. first_of (
        prisma.order_by later
          (prisma.find_many (λ a. a.business_id == business_id) s.billing.ai_analyses))
    or_raise found (not_found_exception ErrorCode.ai_analysis_unavailable)

  -- The analysis that is joined is left out.
  unfoldable pub get_job : AuthenticatedUser → ℕ → Action AiJob
  get_job user job_id = do
    found ← gets λ s. prisma.find_first (is_job job_id) s.billing.ai_jobs
    or_raise (keep (λ j. j.user_id == user.id) found)
        (not_found_exception ErrorCode.not_found_error)
