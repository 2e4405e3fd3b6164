-- ===== src/Market/Workers.antt =====
-- The workers of the queues, and the requests for analyses, leave the businesses and the deals alone.
use idea_project.Base.{ℕ, List, [], ◌∷◌, arith, refl, Option-cases, inl, inr, nat_eq, ◌==◌}
use idea_project.Schema.{Db, AiJob, AiJobType, SavedSearch}
use idea_project.Common.{AuthenticatedUser, Result, ok, err}
use idea_project.Common.Prisma.{Prisma}
use idea_project.Market.Frames.{Keeps}
use idea_project.Businesses.Service.{is_business}
use idea_project.Search.Alerts as Alerts
use idea_project.Search.Alerts.{AlertView}
use idea_project.Ai.Service as Ai
use idea_project.Ai.Service.{AiConfig, is_job}
use idea_project.Ai.Processor as Processor
use idea_project.Ai.Processor.{AiProvider, complete_body, context_of, set_jobs}

module _ (prisma : Prisma) where
  alert_each-Keeps :
      (business_id : ℕ) (view : AlertView) (now : ℕ) (xs : List SavedSearch) (s : Db)
      → Keeps s (Alerts.alert_each prisma business_id view now xs s).1
  unfolding Alerts.alert_each
  alert_each-Keeps business_id view now [] s = record { businesses = refl; deals = refl }
  alert_each-Keeps business_id view now (x ∷ xs) s = ground (
    arith,
    alert_each-Keeps business_id view now xs s,
    alert_each-Keeps business_id view now xs (Alerts.tell prisma business_id x now s).1,
  )

  pub alerts-Keeps :
      (business_id now : ℕ) (s : Db) → Keeps s (Alerts.process prisma business_id now s).1
  unfolding Alerts.process
  alerts-Keeps business_id now s =
      elim (Option-cases (prisma.find_first (is_business business_id) s.businesses)) [
        | inl e ↦ ground arith
        | inr (b, e) ↦ ground (
          arith,
          alert_each-Keeps b.id (Alerts.describe prisma b s) now
              (prisma.find_many Alerts.with_alerts s.community.saved_searches) s,
        )
      ]

  pub request_analysis-Keeps :
      (config : AiConfig) (user : AuthenticatedUser) (business_id : ℕ) (type : AiJobType)
      (id now : ℕ) (s : Db)
      → Keeps s (Ai.request_analysis prisma config user business_id type id now s).1
  unfolding Ai.request_analysis Ai.assert_within_daily_limit
  request_analysis-Keeps config user business_id type id now s = ground arith

module _ (prisma : Prisma) (provider : AiProvider) where
  analyze-Keeps :
      (job : AiJob) (business_id started now : ℕ) (s : Db)
      → Keeps s (Processor.analyze prisma provider job business_id started now s).1
  unfolding Processor.analyze
  analyze-Keeps job business_id started now s =
      elim (Option-cases (prisma.find_first (is_business business_id) s.businesses)) [
        | inl lost ↦ ground arith
        | inr (b, found) ↦
            let context =
              context_of b (prisma.find_many (λ m. m.business_id == b.id) s.evidence.metrics) in
            elim (Option-cases (provider.analyze_business context)) [
              | inl thrown ↦ ground arith
              | inr (raw, answered) ↦ elim (Option-cases (provider.safe_parse raw)) [
                | inl refused ↦ ground arith
                | inr (parsed, valid) ↦ ground (
                  arith,
                  prisma.transaction_lem
                      (complete_body prisma provider job business_id parsed started now) s,
                )
              ]
            ]
      ]

  catch-Keeps :
      (job : AiJob) (business_id started now : ℕ) (s : Db) (r : Result (Unit {0}) × Db)
      → Keeps s r.1
      → Keeps s (Processor.catch_failure prisma provider job business_id started now r).1
  catch-Keeps job business_id started now s (ok done, s') k = k
  catch-Keeps job business_id started now s (err e, s') k = record {
    businesses = ground (arith, k.businesses);
    deals = ground (arith, k.deals);
  }

  pub analysis-Keeps :
      (job_id started now : ℕ) (s : Db)
      → Keeps s (Processor.process prisma provider job_id started now s).1
  unfolding Processor.process Processor.analyze
  analysis-Keeps job_id started now s =
      elim (Option-cases (prisma.find_first (is_job job_id) s.billing.ai_jobs)) [
        | inl lost ↦ rw lost (record { businesses = refl; deals = refl })
        | inr (job, found) ↦ elim (Option-cases job.business_id) [
          | inl free ↦ rw (found, free) (record { businesses = refl; deals = refl })
          | inr (business_id, about) ↦
              elim (Option-cases
                (prisma.update (is_job job.id) (Processor.run prisma provider) s.billing.ai_jobs)) [
                  | inl gone ↦ rw (found, about, gone) (record { businesses = refl; deals = refl })
                  | inr (t, saved) ↦
                      let k = analyze-Keeps job business_id started now (set_jobs t s) in
                      rw (found, about, saved)
                        (catch-Keeps job business_id started now s
                          (Processor.analyze prisma provider job business_id started now
                            (set_jobs t s))
                          (record { businesses = k.businesses; deals = k.deals }))
                ]
        ]
      ]
