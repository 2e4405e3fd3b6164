-- ===== src/Schema/PlanEnums.antt =====
-- The enumerations of prisma/schema.prisma for plans, analyses and reports, each with the equality that
-- the services test.
use Prim.Native.Nat.{ℕ}
use mathlib.Core.Path.{◌≡◌}
use mathlib.Core.Logic.{◌↔◌}
use mathlib.Core.Bool.{true}
use native.Mathlib.Omega.{arith}
use idea_project.Base.Tests.{Compares, nat_beq}

pub data PlanCode : Type 0 where
  free buyer_pro seller_pro business : PlanCode

abbrev pub plan_code_rank : PlanCode → ℕ
plan_code_rank PlanCode.free = 0
plan_code_rank PlanCode.buyer_pro = 1
plan_code_rank PlanCode.seller_pro = 2
plan_code_rank PlanCode.business = 3

plan_code_rank_inj : (a b : PlanCode) → plan_code_rank a ≡ plan_code_rank b → a ≡ b
plan_code_rank_inj a b h = ground arith

pub plan_code_beq_iff :
    (a b : PlanCode) → (nat_beq (plan_code_rank a) (plan_code_rank b) ≡ true) ↔ (a ≡ b)
plan_code_beq_iff a b = ground (arith, plan_code_rank_inj a b)

instance abbrev pub plan_code_eq : Compares PlanCode
plan_code_eq = record {
  equals = λ a b. nat_beq (plan_code_rank a) (plan_code_rank b);
  equals_iff = plan_code_beq_iff;
}

pub data SubscriptionStatus : Type 0 where
  active past_due canceled trialing incomplete : SubscriptionStatus

abbrev pub subscription_status_rank : SubscriptionStatus → ℕ
subscription_status_rank SubscriptionStatus.active = 0
subscription_status_rank SubscriptionStatus.past_due = 1
subscription_status_rank SubscriptionStatus.canceled = 2
subscription_status_rank SubscriptionStatus.trialing = 3
subscription_status_rank SubscriptionStatus.incomplete = 4

subscription_status_rank_inj :
    (a b : SubscriptionStatus) → subscription_status_rank a ≡ subscription_status_rank b → a ≡ b
subscription_status_rank_inj a b h = ground arith

pub subscription_status_beq_iff :
    (a b : SubscriptionStatus)
    → (nat_beq (subscription_status_rank a) (subscription_status_rank b) ≡ true) ↔ (a ≡ b)
subscription_status_beq_iff a b = ground (arith, subscription_status_rank_inj a b)

instance abbrev pub subscription_status_eq : Compares SubscriptionStatus
subscription_status_eq = record {
  equals = λ a b. nat_beq (subscription_status_rank a) (subscription_status_rank b);
  equals_iff = subscription_status_beq_iff;
}

pub data AiJobType : Type 0 where
  business_analysis valuation risk_analysis summary financial_analysis : AiJobType

abbrev pub ai_job_type_rank : AiJobType → ℕ
ai_job_type_rank AiJobType.business_analysis = 0
ai_job_type_rank AiJobType.valuation = 1
ai_job_type_rank AiJobType.risk_analysis = 2
ai_job_type_rank AiJobType.summary = 3
ai_job_type_rank AiJobType.financial_analysis = 4

ai_job_type_rank_inj : (a b : AiJobType) → ai_job_type_rank a ≡ ai_job_type_rank b → a ≡ b
ai_job_type_rank_inj a b h = ground arith

pub ai_job_type_beq_iff :
    (a b : AiJobType) → (nat_beq (ai_job_type_rank a) (ai_job_type_rank b) ≡ true) ↔ (a ≡ b)
ai_job_type_beq_iff a b = ground (arith, ai_job_type_rank_inj a b)

instance abbrev pub ai_job_type_eq : Compares AiJobType
ai_job_type_eq = record {
  equals = λ a b. nat_beq (ai_job_type_rank a) (ai_job_type_rank b);
  equals_iff = ai_job_type_beq_iff;
}

pub data AiJobStatus : Type 0 where
  pending running completed failed : AiJobStatus

abbrev pub ai_job_status_rank : AiJobStatus → ℕ
ai_job_status_rank AiJobStatus.pending = 0
ai_job_status_rank AiJobStatus.running = 1
ai_job_status_rank AiJobStatus.completed = 2
ai_job_status_rank AiJobStatus.failed = 3

ai_job_status_rank_inj : (a b : AiJobStatus) → ai_job_status_rank a ≡ ai_job_status_rank b → a ≡ b
ai_job_status_rank_inj a b h = ground arith

pub ai_job_status_beq_iff :
    (a b : AiJobStatus) → (nat_beq (ai_job_status_rank a) (ai_job_status_rank b) ≡ true) ↔ (a ≡ b)
ai_job_status_beq_iff a b = ground (arith, ai_job_status_rank_inj a b)

instance abbrev pub ai_job_status_eq : Compares AiJobStatus
ai_job_status_eq = record {
  equals = λ a b. nat_beq (ai_job_status_rank a) (ai_job_status_rank b);
  equals_iff = ai_job_status_beq_iff;
}

pub data ReportTargetType : Type 0 where
  business user message listing : ReportTargetType

abbrev pub report_target_type_rank : ReportTargetType → ℕ
report_target_type_rank ReportTargetType.business = 0
report_target_type_rank ReportTargetType.user = 1
report_target_type_rank ReportTargetType.message = 2
report_target_type_rank ReportTargetType.listing = 3

report_target_type_rank_inj :
    (a b : ReportTargetType) → report_target_type_rank a ≡ report_target_type_rank b → a ≡ b
report_target_type_rank_inj a b h = ground arith

pub report_target_type_beq_iff :
    (a b : ReportTargetType)
    → (nat_beq (report_target_type_rank a) (report_target_type_rank b) ≡ true) ↔ (a ≡ b)
report_target_type_beq_iff a b = ground (arith, report_target_type_rank_inj a b)

instance abbrev pub report_target_type_eq : Compares ReportTargetType
report_target_type_eq = record {
  equals = λ a b. nat_beq (report_target_type_rank a) (report_target_type_rank b);
  equals_iff = report_target_type_beq_iff;
}

pub data ReportStatus : Type 0 where
  open_status under_review resolved rejected : ReportStatus

abbrev pub report_status_rank : ReportStatus → ℕ
report_status_rank ReportStatus.open_status = 0
report_status_rank ReportStatus.under_review = 1
report_status_rank ReportStatus.resolved = 2
report_status_rank ReportStatus.rejected = 3

report_status_rank_inj : (a b : ReportStatus) → report_status_rank a ≡ report_status_rank b → a ≡ b
report_status_rank_inj a b h = ground arith

pub report_status_beq_iff :
    (a b : ReportStatus) → (nat_beq (report_status_rank a) (report_status_rank b) ≡ true) ↔ (a ≡ b)
report_status_beq_iff a b = ground (arith, report_status_rank_inj a b)

instance abbrev pub report_status_eq : Compares ReportStatus
report_status_eq = record {
  equals = λ a b. nat_beq (report_status_rank a) (report_status_rank b);
  equals_iff = report_status_beq_iff;
}
