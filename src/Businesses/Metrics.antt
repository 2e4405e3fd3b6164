-- ===== src/Businesses/Metrics.antt =====
-- `addMetric` of src/businesses/businesses.service.ts. Negative values are left out.
use idea_project.Base.{ℕ, Option, String, or_else}
use idea_project.Schema.{BusinessMetric, MetricType, MetricSource, MetricVerificationStatus}
use idea_project.Common.{Action, AuthenticatedUser, ◌>>=◌, ◌>>◌, pure, modify}
use idea_project.Common.Prisma.{Prisma}
use idea_project.Common.Money.{Numbers, to_minor_units, to_major_units}
use idea_project.Businesses.Service.{find_owned}

-- A metric for an answer, where `valueMinor` is `undefined`.
pub record SerializedMetric (Num : Type 0) : Type 0 where
  pub business_id : ℕ
  pub metric_type : MetricType
  pub value : Num
  pub currency : String
  pub period : ℕ
  pub source : MetricSource
  pub verification_status : MetricVerificationStatus

-- src/businesses/dto/create-metric.dto.ts
pub record CreateMetricDto (Num : Type 0) : Type 0 where
  pub metric_type : MetricType
  pub value : Num
  pub currency : Option String
  pub period : ℕ
  pub source : Option MetricSource

module _ (prisma : Prisma) (numbers : Numbers) where
  unfoldable pub serialize_metric : BusinessMetric → SerializedMetric numbers.Num
  serialize_metric m = record {
    business_id = m.business_id;
    metric_type = m.metric_type;
    value = to_major_units numbers m.value_minor;
    currency = m.currency;
    period = m.period;
    source = m.source;
    verification_status = m.verification_status;
  }

  abbrev pub new_metric : ℕ → CreateMetricDto numbers.Num → BusinessMetric
  new_metric business_id dto = record {
    business_id = business_id;
    metric_type = dto.metric_type;
    value_minor = to_minor_units numbers dto.value;
    currency = or_else dto.currency "USD";
    period = dto.period;
    source = or_else dto.source MetricSource.seller_provided;
    verification_status = MetricVerificationStatus.unverified;
  }

  unfoldable pub add_metric :
      AuthenticatedUser → ℕ → CreateMetricDto numbers.Num → Action (SerializedMetric numbers.Num)
  add_metric user business_id dto = do
    owned ← find_owned prisma user business_id
    modify λ s. record s {
      evidence = record s.evidence {
        metrics = prisma.create (new_metric owned.business.id dto) s.evidence.metrics;
      };
    }
    pure (serialize_metric (new_metric owned.business.id dto))
