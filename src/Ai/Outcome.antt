-- ===== src/Ai/Outcome.antt =====
-- How a job ends (src/jobs/processors/ai.processor.ts).
use idea_project.Base.{
  ℕ, ◌-◌, ◌≡◌, refl, Bool, true, false, not, ◌&&◌, ◌||◌, some, ◌∷◌, ◌==◌, nat_eq, any, update_where,
  arith, if◌then◌else◌, Option-cases, Bool-cases, inl, inr, ◌⊎◌, ◌∙◌,
}
use idea_project.Base.Updates.{any-of_Elem, any-update_where_same, any-update_where_all}
use idea_project.Schema.{Db, AiJob, AiJobStatus, ai_job_status_eq}
use idea_project.Common.{Result, ok, err, Error}
use idea_project.Common.Prisma.{Prisma}
use idea_project.Common.Notify.{notify}
use idea_project.Businesses.Service.{is_business}
use idea_project.Ai.Service.{is_job}
use idea_project.Ai.Processor.{
  AiProvider, ParsedResult, process, analyze, complete_body, catch_failure, complete, run, fail,
  has_job, new_analysis, set_jobs, context_of, job_message, ready_title,
}

-- A row of the job that is neither COMPLETED nor FAILED.
abbrev pub is_unsettled : ℕ → AiJob → Bool
is_unsettled id j =
    is_job id j && not (j.status == AiJobStatus.completed || j.status == AiJobStatus.failed)

abbrev pub is_completed : ℕ → AiJob → Bool
is_completed id j = is_job id j && j.status == AiJobStatus.completed

-- How a run of the worker leaves a job.
abbrev pub IsSettled : ℕ → Result (Unit {0}) × Db → Type 0
IsSettled id r =
    (r.0 ≡ ok tt)
    × (any (is_unsettled id) r.1.billing.ai_jobs ≡ false)
    × (not (any (is_completed id) r.1.billing.ai_jobs) || any (has_job id) r.1.billing.ai_analyses
        ≡ true)

module _ (prisma : Prisma) (provider : AiProvider) where
  -- The database after an analysis that succeeds.
  abbrev analyzed : AiJob → ℕ → ParsedResult → ℕ → ℕ → Db → Db
  analyzed job business_id parsed started now s =
      notify prisma (job_message job business_id ready_title) (record s {
        billing = record s.billing {
          ai_analyses = new_analysis job business_id parsed now ∷ s.billing.ai_analyses;
          ai_jobs =
              update_where (is_job job.id) (complete prisma provider (now - started))
                s.billing.ai_jobs;
        };
      })

  complete_body-cases :
      (job : AiJob) (business_id : ℕ) (parsed : ParsedResult) (started now : ℕ) (s : Db)
      → any (is_job job.id) s.billing.ai_jobs ≡ true
      → prisma.transaction (complete_body prisma provider job business_id parsed started now) s ≡ (
          if any (has_job job.id) s.billing.ai_analyses then (err Error.unique_violation, s) else (
            ok tt,
            record s {
              billing = record s.billing {
                ai_analyses = new_analysis job business_id parsed now ∷ s.billing.ai_analyses;
                ai_jobs =
                    update_where
                      (is_job job.id)
                      (complete prisma provider (now - started))
                      s.billing.ai_jobs;
              };
            },
          ))
  complete_body-cases job business_id parsed started now s h = ground (
    arith,
    prisma.transaction_lem (complete_body prisma provider job business_id parsed started now) s,
    prisma.create_unique_lem (has_job job.id) (new_analysis job business_id parsed now)
        s.billing.ai_analyses,
    prisma.update_lem (is_job job.id) (complete prisma provider (now - started)) s.billing.ai_jobs,
  )

  -- The block of the `try` throws and writes nothing, or it writes the analysis.
  analyze-cases :
      (job : AiJob) (business_id started now : ℕ) (s : Db)
      → any (is_job job.id) s.billing.ai_jobs ≡ true
      → ((e : Error) × (analyze prisma provider job business_id started now s ≡ (err e, s)))
        ⊎ ((parsed : ParsedResult) × (any (has_job job.id) s.billing.ai_analyses ≡ false)
            × (analyze prisma provider job business_id started now s
                ≡ (ok tt, analyzed job business_id parsed started now s)))
  unfolding analyze
  analyze-cases job business_id started now s h =
      elim (Option-cases (prisma.find_first (is_business business_id) s.businesses)) [
        | inl lost ↦ inl (Error.record_not_found, rw lost refl)
        | inr (b, found) ↦
            let context =
              context_of b (prisma.find_many (λ m. m.business_id == b.id) s.evidence.metrics) in
            elim (Option-cases (provider.analyze_business context)) [
              | inl thrown ↦ inl (Error.failure, rw (found, thrown) refl)
              | inr (raw, answered) ↦ elim (Option-cases (provider.safe_parse raw)) [
                | inl refused ↦ inl (Error.failure, rw (found, answered, refused) refl)
                | inr (parsed, valid) ↦
                    let written = complete_body-cases job business_id parsed started now s h in
                    elim (Bool-cases (any (has_job job.id) s.billing.ai_analyses)) [
                      | inl again ↦
                          inl (
                            Error.unique_violation,
                            rw (found, answered, valid, written, again) refl,
                          )
                      | inr new ↦ inr (parsed, new, rw (found, answered, valid, written, new) refl)
                    ]
              ]
            ]
      ]

  fail-settles :
      (job : AiJob) (id business_id started now : ℕ) (e : Error) (s : Db)
      → any (is_job job.id) s.billing.ai_jobs ≡ true
      → job.id ≡ id
      → IsSettled id (catch_failure prisma provider job business_id started now (err e, s))
  fail-settles job id business_id started now e s h same =
      let change = fail prisma provider (provider.message e) (now - started) in
      let t = s.billing.ai_jobs in
      ground (
        arith,
        prisma.update_lem (is_job job.id) change t,
        any-update_where_all (is_unsettled id) (is_job job.id) change t (λ a p. ground arith)
            (λ a p. ground arith),
        any-update_where_all (is_completed id) (is_job job.id) change t (λ a p. ground arith)
            (λ a p. ground arith),
      )

  fail-leaves :
      (job : AiJob) (id business_id started now : ℕ) (e : Error) (s : Db)
      → any (is_job job.id) s.billing.ai_jobs ≡ true
      → job.id ≡ id
      → (any
            (is_completed id)
            (catch_failure prisma provider job business_id started now (err e, s)).1.billing.ai_jobs
          ≡ false)
        × ((catch_failure prisma provider job business_id started now
              (err e, s)).1.billing.ai_analyses
            ≡ s.billing.ai_analyses)
  fail-leaves job id business_id started now e s h same =
      let change = fail prisma provider (provider.message e) (now - started) in
      let t = s.billing.ai_jobs in
      ground (
        arith,
        prisma.update_lem (is_job job.id) change t,
        any-update_where_all (is_completed id) (is_job job.id) change t (λ a p. ground arith)
            (λ a p. ground arith),
      )

  complete-settles :
      (job : AiJob) (id business_id : ℕ) (parsed : ParsedResult) (started now : ℕ) (s : Db)
      → job.id ≡ id
      → IsSettled id (ok tt, analyzed job business_id parsed started now s)
  complete-settles job id business_id parsed started now s same =
      let change = complete prisma provider (now - started) in
      let t = s.billing.ai_jobs in
      ground (
        arith,
        any-update_where_all (is_unsettled id) (is_job job.id) change t (λ a p. ground arith)
            (λ a p. ground arith),
      )

  -- The database in which the job is marked as RUNNING.
  abbrev running : ℕ → Db → Db
  running id s = set_jobs (update_where (is_job id) (run prisma provider) s.billing.ai_jobs) s

  -- A job that is found is run to its end.
  process-run :
      (job : AiJob) (id business_id started now : ℕ) (s : Db)
      → prisma.find_first (is_job id) s.billing.ai_jobs ≡ some job
      → job.business_id ≡ some business_id
      → (job.id ≡ id)
        × (any (is_job job.id) (running job.id s).billing.ai_jobs ≡ true)
        × (process prisma provider id started now s
            ≡ catch_failure prisma provider job business_id started now
                (analyze prisma provider job business_id started now (running job.id s)))
  unfolding process
  process-run job id business_id started now s found about =
      let t = s.billing.ai_jobs in
      let (is_it, at) = prisma.find_first-some (is_job id) t job found in
      let there : any (is_job job.id) t ≡ true =
        any-of_Elem (is_job job.id) job t at (ground arith) in
      (
        ground arith,
        any-update_where_same (is_job job.id) (is_job job.id) (run prisma provider) t
              (λ (a : AiJob). refl)
            ∙ there,
        rw (found, about, prisma.update_lem (is_job job.id) (run prisma provider) t, there) refl,
      )

  -- A job that is in the table with a business is always settled by one run of the worker, however
  -- the provider answers: the run does not throw, after it every row of the job is COMPLETED or FAILED,
  -- and if one is COMPLETED, there is an analysis of the job.
  pub process-settles :
      (job : AiJob) (id business_id started now : ℕ) (s : Db)
      → prisma.find_first (is_job id) s.billing.ai_jobs ≡ some job
      → job.business_id ≡ some business_id
      → IsSettled id (process prisma provider id started now s)
  process-settles job id business_id started now s found about =
      let (same, still, runs) = process-run job id business_id started now s found about in
      elim (analyze-cases job business_id started now (running job.id s) still) [
        | inl (e, thrown) ↦
            rw (runs, thrown)
              (fail-settles job id business_id started now e (running job.id s) still same)
        | inr (parsed, new, done) ↦
            rw (runs, done)
              (complete-settles job id business_id parsed started now (running job.id s) same)
      ]

  -- A job that was run to its end and is delivered again fails: when there is an analysis of it, a run
  -- of the worker leaves no row of the job COMPLETED, and adds no analysis.
  pub process-again :
      (job : AiJob) (id business_id started now : ℕ) (s : Db)
      → prisma.find_first (is_job id) s.billing.ai_jobs ≡ some job
      → job.business_id ≡ some business_id
      → any (has_job id) s.billing.ai_analyses ≡ true
      → (any (is_completed id) (process prisma provider id started now s).1.billing.ai_jobs ≡ false)
        × ((process prisma provider id started now s).1.billing.ai_analyses ≡ s.billing.ai_analyses)
  process-again job id business_id started now s found about analyzed_before =
      let (same, still, runs) = process-run job id business_id started now s found about in
      elim (analyze-cases job business_id started now (running job.id s) still) [
        | inl (e, thrown) ↦
            rw (runs, thrown)
              (fail-leaves job id business_id started now e (running job.id s) still same)
        | inr (parsed, new, done) ↦ absurd (ground arith)
      ]
