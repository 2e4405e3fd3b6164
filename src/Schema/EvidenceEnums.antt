-- ===== src/Schema/EvidenceEnums.antt =====
-- The enumerations of prisma/schema.prisma for metrics, verifications and due diligence, each with the
-- equality that the services test.
use Prim.Native.Nat.{ℕ}
use mathlib.Core.Path.{◌≡◌}
use mathlib.Core.Logic.{◌↔◌}
use mathlib.Core.Bool.{true}
use native.Mathlib.Omega.{arith}
use idea_project.Base.Tests.{Compares, nat_beq}

pub data MetricType : Type 0 where
  mrr arr revenue expenses profit customers churn growth traffic : MetricType

abbrev pub metric_type_rank : MetricType → ℕ
metric_type_rank MetricType.mrr = 0
metric_type_rank MetricType.arr = 1
metric_type_rank MetricType.revenue = 2
metric_type_rank MetricType.expenses = 3
metric_type_rank MetricType.profit = 4
metric_type_rank MetricType.customers = 5
metric_type_rank MetricType.churn = 6
metric_type_rank MetricType.growth = 7
metric_type_rank MetricType.traffic = 8

metric_type_rank_inj : (a b : MetricType) → metric_type_rank a ≡ metric_type_rank b → a ≡ b
metric_type_rank_inj a b h = ground arith

pub metric_type_beq_iff :
    (a b : MetricType) → (nat_beq (metric_type_rank a) (metric_type_rank b) ≡ true) ↔ (a ≡ b)
metric_type_beq_iff a b = ground (arith, metric_type_rank_inj a b)

instance abbrev pub metric_type_eq : Compares MetricType
metric_type_eq = record {
  equals = λ a b. nat_beq (metric_type_rank a) (metric_type_rank b);
  equals_iff = metric_type_beq_iff;
}

pub data MetricSource : Type 0 where
  seller_provided stripe paddle shopify accounting admin_verified : MetricSource

abbrev pub metric_source_rank : MetricSource → ℕ
metric_source_rank MetricSource.seller_provided = 0
metric_source_rank MetricSource.stripe = 1
metric_source_rank MetricSource.paddle = 2
metric_source_rank MetricSource.shopify = 3
metric_source_rank MetricSource.accounting = 4
metric_source_rank MetricSource.admin_verified = 5

metric_source_rank_inj : (a b : MetricSource) → metric_source_rank a ≡ metric_source_rank b → a ≡ b
metric_source_rank_inj a b h = ground arith

pub metric_source_beq_iff :
    (a b : MetricSource) → (nat_beq (metric_source_rank a) (metric_source_rank b) ≡ true) ↔ (a ≡ b)
metric_source_beq_iff a b = ground (arith, metric_source_rank_inj a b)

instance abbrev pub metric_source_eq : Compares MetricSource
metric_source_eq = record {
  equals = λ a b. nat_beq (metric_source_rank a) (metric_source_rank b);
  equals_iff = metric_source_beq_iff;
}

pub data MetricVerificationStatus : Type 0 where
  verified unverified partially_verified : MetricVerificationStatus

abbrev pub metric_verification_status_rank : MetricVerificationStatus → ℕ
metric_verification_status_rank MetricVerificationStatus.verified = 0
metric_verification_status_rank MetricVerificationStatus.unverified = 1
metric_verification_status_rank MetricVerificationStatus.partially_verified = 2

metric_verification_status_rank_inj :
    (a b : MetricVerificationStatus)
    → metric_verification_status_rank a ≡ metric_verification_status_rank b
    → a ≡ b
metric_verification_status_rank_inj a b h = ground arith

pub metric_verification_status_beq_iff :
    (a b : MetricVerificationStatus)
    → (nat_beq (metric_verification_status_rank a) (metric_verification_status_rank b) ≡ true)
      ↔ (a ≡ b)
metric_verification_status_beq_iff a b = ground (arith, metric_verification_status_rank_inj a b)

instance abbrev pub metric_verification_status_eq : Compares MetricVerificationStatus
metric_verification_status_eq = record {
  equals = λ a b. nat_beq (metric_verification_status_rank a) (metric_verification_status_rank b);
  equals_iff = metric_verification_status_beq_iff;
}

pub data VerificationType : Type 0 where
  identity business ownership revenue traffic financial domain : VerificationType

abbrev pub verification_type_rank : VerificationType → ℕ
verification_type_rank VerificationType.identity = 0
verification_type_rank VerificationType.business = 1
verification_type_rank VerificationType.ownership = 2
verification_type_rank VerificationType.revenue = 3
verification_type_rank VerificationType.traffic = 4
verification_type_rank VerificationType.financial = 5
verification_type_rank VerificationType.domain = 6

verification_type_rank_inj :
    (a b : VerificationType) → verification_type_rank a ≡ verification_type_rank b → a ≡ b
verification_type_rank_inj a b h = ground arith

pub verification_type_beq_iff :
    (a b : VerificationType)
    → (nat_beq (verification_type_rank a) (verification_type_rank b) ≡ true) ↔ (a ≡ b)
verification_type_beq_iff a b = ground (arith, verification_type_rank_inj a b)

instance abbrev pub verification_type_eq : Compares VerificationType
verification_type_eq = record {
  equals = λ a b. nat_beq (verification_type_rank a) (verification_type_rank b);
  equals_iff = verification_type_beq_iff;
}

pub data VerificationStatus : Type 0 where
  pending in_review verified rejected expired : VerificationStatus

abbrev pub verification_status_rank : VerificationStatus → ℕ
verification_status_rank VerificationStatus.pending = 0
verification_status_rank VerificationStatus.in_review = 1
verification_status_rank VerificationStatus.verified = 2
verification_status_rank VerificationStatus.rejected = 3
verification_status_rank VerificationStatus.expired = 4

verification_status_rank_inj :
    (a b : VerificationStatus) → verification_status_rank a ≡ verification_status_rank b → a ≡ b
verification_status_rank_inj a b h = ground arith

pub verification_status_beq_iff :
    (a b : VerificationStatus)
    → (nat_beq (verification_status_rank a) (verification_status_rank b) ≡ true) ↔ (a ≡ b)
verification_status_beq_iff a b = ground (arith, verification_status_rank_inj a b)

instance abbrev pub verification_status_eq : Compares VerificationStatus
verification_status_eq = record {
  equals = λ a b. nat_beq (verification_status_rank a) (verification_status_rank b);
  equals_iff = verification_status_beq_iff;
}

pub data DueDiligenceCategory : Type 0 where
  business financial customers technology legal ip operations : DueDiligenceCategory

abbrev pub due_diligence_category_rank : DueDiligenceCategory → ℕ
due_diligence_category_rank DueDiligenceCategory.business = 0
due_diligence_category_rank DueDiligenceCategory.financial = 1
due_diligence_category_rank DueDiligenceCategory.customers = 2
due_diligence_category_rank DueDiligenceCategory.technology = 3
due_diligence_category_rank DueDiligenceCategory.legal = 4
due_diligence_category_rank DueDiligenceCategory.ip = 5
due_diligence_category_rank DueDiligenceCategory.operations = 6

due_diligence_category_rank_inj :
    (a b : DueDiligenceCategory)
    → due_diligence_category_rank a ≡ due_diligence_category_rank b
    → a ≡ b
due_diligence_category_rank_inj a b h = ground arith

pub due_diligence_category_beq_iff :
    (a b : DueDiligenceCategory)
    → (nat_beq (due_diligence_category_rank a) (due_diligence_category_rank b) ≡ true) ↔ (a ≡ b)
due_diligence_category_beq_iff a b = ground (arith, due_diligence_category_rank_inj a b)

instance abbrev pub due_diligence_category_eq : Compares DueDiligenceCategory
due_diligence_category_eq = record {
  equals = λ a b. nat_beq (due_diligence_category_rank a) (due_diligence_category_rank b);
  equals_iff = due_diligence_category_beq_iff;
}

pub data DueDiligenceStatus : Type 0 where
  requested uploaded under_review approved needs_clarification rejected completed :
      DueDiligenceStatus

abbrev pub due_diligence_status_rank : DueDiligenceStatus → ℕ
due_diligence_status_rank DueDiligenceStatus.requested = 0
due_diligence_status_rank DueDiligenceStatus.uploaded = 1
due_diligence_status_rank DueDiligenceStatus.under_review = 2
due_diligence_status_rank DueDiligenceStatus.approved = 3
due_diligence_status_rank DueDiligenceStatus.needs_clarification = 4
due_diligence_status_rank DueDiligenceStatus.rejected = 5
due_diligence_status_rank DueDiligenceStatus.completed = 6

due_diligence_status_rank_inj :
    (a b : DueDiligenceStatus) → due_diligence_status_rank a ≡ due_diligence_status_rank b → a ≡ b
due_diligence_status_rank_inj a b h = ground arith

pub due_diligence_status_beq_iff :
    (a b : DueDiligenceStatus)
    → (nat_beq (due_diligence_status_rank a) (due_diligence_status_rank b) ≡ true) ↔ (a ≡ b)
due_diligence_status_beq_iff a b = ground (arith, due_diligence_status_rank_inj a b)

instance abbrev pub due_diligence_status_eq : Compares DueDiligenceStatus
due_diligence_status_eq = record {
  equals = λ a b. nat_beq (due_diligence_status_rank a) (due_diligence_status_rank b);
  equals_iff = due_diligence_status_beq_iff;
}
