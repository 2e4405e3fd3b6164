-- ===== src/Ai/Tests.antt =====
-- The theorems on analyses at a business with one analysis that was asked for.
use idea_project.Base.{◌==◌, nat_eq, suc, ◌≡◌, ◌≤◌, ◌<◌, refl, any, false, true, some, arith}
use idea_project.Schema.{Db, AiJob, AiJobType, AiJobStatus}
use idea_project.Common.{ok}
use idea_project.Common.Prisma.{list_prisma}
use idea_project.Ai.Service.{request_analysis, assert_within_daily_limit, new_job, daily_limit}
use idea_project.Ai.Processor.{process, analyze, has_job}
use idea_project.Ai.Limits.{request_analysis-within, used_today}
use idea_project.Ai.Outcome.{process-settles, process-again, IsSettled, is_completed}
use idea_project.Samples.{laboratory, job, plain_limits, plain_provider, other_buyer}

abbrev granted : Db
granted =
    (request_analysis list_prisma plain_limits other_buyer 10 AiJobType.summary 111 1010
      laboratory).1

grants :
    request_analysis list_prisma plain_limits other_buyer 10 AiJobType.summary 111 1010 laboratory
    ≡ (ok (new_job 3 10 AiJobType.summary 111 1010), granted)
unfolding request_analysis assert_within_daily_limit
grants = refl

request_analysis-within_example :
    (used_today list_prisma plain_limits 3 1010 laboratory
      < daily_limit list_prisma plain_limits 3 laboratory)
    × (used_today list_prisma plain_limits 3 1010 granted
        ≡ suc (used_today list_prisma plain_limits 3 1010 laboratory))
    × (used_today list_prisma plain_limits 3 1010 granted
        ≤ daily_limit list_prisma plain_limits 3 granted)
request_analysis-within_example =
    request_analysis-within list_prisma plain_limits other_buyer 10 AiJobType.summary 111 1010
      laboratory grants (omega arith)

process-settles_example :
    IsSettled 110 (process list_prisma plain_provider 110 1020 1030 laboratory)
process-settles_example =
    process-settles list_prisma plain_provider job 110 10 1020 1030 laboratory refl refl

abbrev done : Db
done = (process list_prisma plain_provider 110 1020 1030 laboratory).1

abbrev done_job : AiJob
done_job = record job {
  status = AiJobStatus.completed;
  provider = some "plain";
  duration_ms = some 10;
}

finds : list_prisma.find_first (λ j. j.id == 110) done.billing.ai_jobs ≡ some done_job
unfolding process analyze
finds = refl

analyzed : any (has_job 110) done.billing.ai_analyses ≡ true
unfolding process analyze
analyzed = refl

process-again_example :
    (any
        (is_completed 110)
        (process list_prisma plain_provider 110 1040 1050 done).1.billing.ai_jobs
      ≡ false)
    × ((process list_prisma plain_provider 110 1040 1050 done).1.billing.ai_analyses
        ≡ done.billing.ai_analyses)
process-again_example =
    process-again list_prisma plain_provider done_job 110 10 1040 1050 done finds refl analyzed
