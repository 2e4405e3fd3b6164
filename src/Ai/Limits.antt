-- ===== src/Ai/Limits.antt =====
-- How many analyses a user asks for in a day (src/ai/ai.service.ts).
use idea_project.Base.{ℕ, suc, ◌≤◌, ◌<◌, ◌≡◌, nat_eq, count, arith}
use idea_project.Schema.{Db, AiJob, AiJobType}
use idea_project.Common.{AuthenticatedUser, ok}
use idea_project.Common.Prisma.{Prisma}
use idea_project.Ai.Service.{
  AiConfig, request_analysis, assert_within_daily_limit, daily_limit, is_used, new_job,
}

module _ (prisma : Prisma) (config : AiConfig) where
  -- The requests of the user that count on the day of `now`.
  abbrev pub used_today : ℕ → ℕ → Db → ℕ
  used_today user_id now s = count (is_used (config.start_of_day now) user_id) s.billing.ai_jobs

  -- An analysis that is granted was within the daily limit of the user's plan and counts for that
  -- day, if the day has begun; the count of the day stays within the limit.
  pub request_analysis-within :
      (user : AuthenticatedUser) (business_id : ℕ) (type : AiJobType) (id now : ℕ) (s : Db)
      {j : AiJob} {s' : Db}
      → request_analysis prisma config user business_id type id now s ≡ (ok j, s')
      → config.start_of_day now ≤ now
      → (used_today user.id now s < daily_limit prisma config user.id s)
        × (used_today user.id now s' ≡ suc (used_today user.id now s))
        × (used_today user.id now s' ≤ daily_limit prisma config user.id s')
  unfolding request_analysis assert_within_daily_limit
  request_analysis-within user business_id type id now s e begun = ground (
    arith,
    prisma.count_where_lem (is_used (config.start_of_day now) user.id) s.billing.ai_jobs,
    prisma.create_lem (new_job user.id business_id type id now) s.billing.ai_jobs,
  )

  -- A request leaves every user within a bound that is no smaller than either limit.
  request_analysis-bounded :
      (user : AuthenticatedUser) (business_id : ℕ) (type : AiJobType) (id now : ℕ) (s : Db)
      (user_id bound : ℕ)
      → config.max_requests_per_day_free ≤ bound
      → config.max_requests_per_day_pro ≤ bound
      → used_today user_id now s ≤ bound
      → used_today user_id now (request_analysis prisma config user business_id type id now s).1
        ≤ bound
  unfolding request_analysis assert_within_daily_limit
  request_analysis-bounded user business_id type id now s user_id bound free pro h = ground (
    arith,
    prisma.count_where_lem (is_used (config.start_of_day now) user.id) s.billing.ai_jobs,
    prisma.create_lem (new_job user.id business_id type id now) s.billing.ai_jobs,
  )
