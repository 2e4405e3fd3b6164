-- ===== src/Ai/Processor.antt =====
-- src/jobs/processors/ai.processor.ts. The provider and the check of its answer (zod) are parameters;
-- an amount in major units stands as its minor units.
use idea_project.Base.{ℕ, ◌-◌, Bool, Option, none, some, List, [], ◌∷◌, String, ◌==◌, nat_eq, map}
use idea_project.Schema.{
  Db, Business, BusinessMetric, MetricType, MetricVerificationStatus, AiJob, AiJobStatus,
  AiAnalysis, NotificationType, key,
}
use idea_project.Common.{Action, Result, ok, err, Error, ◌>>=◌, ◌>>◌, pure, gets, or_raise, modify}
use idea_project.Common.Prisma.{Prisma}
use idea_project.Common.Notify.{CreateNotificationInput, notify}
use idea_project.Businesses.Service.{is_business}
use idea_project.Ai.Service.{is_job}

pub data Confidence : Type 0 where
  low medium high : Confidence

-- src/ai/providers/ai-provider.interface.ts
pub record BusinessMetricContext : Type 0 where
  pub type : MetricType
  pub value : ℕ
  pub currency : String
  pub period : ℕ
  pub verification_status : MetricVerificationStatus

pub record BusinessAnalysisContext : Type 0 where
  pub business_name : String
  pub business_model : Option String
  pub founded_at : Option ℕ
  pub description : Option String
  pub metrics : List BusinessMetricContext

-- An answer that passed the check: `confidence` is that of its valuation, when it has one.
pub record ParsedResult : Type 0 where
  pub result : ℕ
  pub confidence : Option Confidence

-- `analyze_business` may throw, and `safe_parse` may refuse: both are `none` then.
pub record AiProvider : Type 1 where
  pub Raw : Type 0
  pub name : String
  pub analyze_business : BusinessAnalysisContext → Option Raw
  pub safe_parse : Raw → Option ParsedResult
  pub message : Error → String

-- In tenths.
unfoldable pub confidence_to_score : Confidence → ℕ
confidence_to_score Confidence.low = 3
confidence_to_score Confidence.medium = 6
confidence_to_score Confidence.high = 9

abbrev score_of : Option Confidence → Option ℕ
score_of none = none
score_of (some c) = some (confidence_to_score c)

abbrev pub metric_context : BusinessMetric → BusinessMetricContext
metric_context m = record {
  type = m.metric_type;
  value = m.value_minor;
  currency = m.currency;
  period = m.period;
  verification_status = m.verification_status;
}

abbrev pub context_of : Business → List BusinessMetric → BusinessAnalysisContext
context_of b metrics = record {
  business_name = b.name;
  business_model = b.business_model;
  founded_at = b.founded_at;
  description = b.description;
  metrics = map metric_context metrics;
}

abbrev pub has_job : ℕ → AiAnalysis → Bool
has_job id a = a.job_id == id

abbrev pub new_analysis : AiJob → ℕ → ParsedResult → ℕ → AiAnalysis
new_analysis job business_id parsed now = record {
  business_id = business_id;
  job_id = job.id;
  type = job.type;
  result = parsed.result;
  confidence = score_of parsed.confidence;
  created_at = now;
}

abbrev pub ready_title : String
ready_title = "Your AI business analysis is ready"

abbrev pub unavailable_title : String
unavailable_title = "AI analysis unavailable — please try again later"

abbrev pub job_message : AiJob → ℕ → String → CreateNotificationInput
job_message job business_id title = record {
  user_id = job.user_id;
  type = NotificationType.system;
  title = title;
  body = none;
  metadata = ("businessId", key business_id) ∷ ("jobId", key job.id) ∷ [];
}

abbrev pub set_jobs : List AiJob → Db → Db
set_jobs t s = record s { billing = record s.billing { ai_jobs = t } }

abbrev pub save_jobs : Option (List AiJob) → Action (Unit {0})
save_jobs none s = (err Error.record_not_found, s)
save_jobs (some t) s = (ok tt, set_jobs t s)

abbrev save_analyses : Option (List AiAnalysis) → Action (Unit {0})
save_analyses none s = (err Error.unique_violation, s)
save_analyses (some t) s = (ok tt, record s { billing = record s.billing { ai_analyses = t } })

module _ (prisma : Prisma) (provider : AiProvider) where
  abbrev pub update_job : ℕ → (AiJob → AiJob) → Action (Unit {0})
  update_job id f s = save_jobs (prisma.update (is_job id) f s.billing.ai_jobs) s

  abbrev pub run : AiJob → AiJob
  run j = record j { status = AiJobStatus.running; provider = some provider.name }

  abbrev pub complete : ℕ → AiJob → AiJob
  complete duration j = record j { status = AiJobStatus.completed; duration_ms = some duration }

  abbrev pub fail : String → ℕ → AiJob → AiJob
  fail message duration j = record j {
    status = AiJobStatus.failed;
    error_message = some message;
    duration_ms = some duration;
  }

  -- What the `$transaction` does: `jobId` is unique among the analyses.
  abbrev pub complete_body : AiJob → ℕ → ParsedResult → ℕ → ℕ → Action (Unit {0})
  complete_body job business_id parsed started now = do
    λ s.
        save_analyses
          (prisma.create_unique (has_job job.id) (new_analysis job business_id parsed now)
            s.billing.ai_analyses)
          s
    update_job job.id (complete (now - started))

  -- The block of the `try`.
  unfoldable pub analyze : AiJob → ℕ → ℕ → ℕ → Action (Unit {0})
  analyze job business_id started now = do
    found ← gets λ s. prisma.find_first (is_business business_id) s.businesses
    business ← or_raise found Error.record_not_found
    metrics ← gets λ s. prisma.find_many (λ m. m.business_id == business.id) s.evidence.metrics
    raw ← or_raise (provider.analyze_business (context_of business metrics)) Error.failure
    parsed ← or_raise (provider.safe_parse raw) Error.failure
    prisma.transaction (complete_body job business_id parsed started now)
    modify (notify prisma (job_message job business_id ready_title))

  -- The `catch`, given how the block ended.
  abbrev pub catch_failure : AiJob → ℕ → ℕ → ℕ → Result (Unit {0}) × Db → Result (Unit {0}) × Db
  catch_failure job business_id started now (ok done, s) = (ok done, s)
  catch_failure job business_id started now (err e, s) =
      (update_job job.id (fail (provider.message e) (now - started))
          >> modify (notify prisma (job_message job business_id unavailable_title)))
        s

  abbrev run_job : Option AiJob → ℕ → ℕ → Action (Unit {0})
  run_job none started now = pure tt
  run_job (some job) started now = run_for job job.business_id
    where
      run_for : AiJob → Option ℕ → Action (Unit {0})
      run_for job none = pure tt
      run_for job (some business_id) = do
        update_job job.id run
        λ s. catch_failure job business_id started now (analyze job business_id started now s)

  -- Begun at `started` and over at `now`.
  unfoldable pub process : ℕ → ℕ → ℕ → Action (Unit {0})
  process job_id started now = do
    found ← gets λ s. prisma.find_first (is_job job_id) s.billing.ai_jobs
    run_job found started now
