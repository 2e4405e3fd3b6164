-- ===== src/Reports.antt =====
-- src/reports/reports.service.ts
use idea_project.Base.{ℕ, Option, none, some, List, [], String, ◌==◌, nat_eq}
use idea_project.Schema.{Report, ReportTargetType, ReportStatus}
use idea_project.Common.{Action, AuthenticatedUser, ◌>>◌, pure, gets, modify}
use idea_project.Common.Prisma.{Prisma}
use idea_project.Common.Notify.{record_event}

-- src/reports/dto/create-report.dto.ts
pub record CreateReportDto : Type 0 where
  pub target_type : ReportTargetType
  pub target_id : ℕ
  pub business_id : Option ℕ
  pub reason : String

unfoldable pub target_name : ReportTargetType → String
target_name ReportTargetType.business = "BUSINESS"
target_name ReportTargetType.user = "USER"
target_name ReportTargetType.message = "MESSAGE"
target_name ReportTargetType.listing = "LISTING"

module _ (prisma : Prisma) where
  unfoldable pub create : AuthenticatedUser → CreateReportDto → ℕ → Action Report
  create user dto id = do
    let report : Report = record {
      id = id;
      reporter_id = user.id;
      target_type = dto.target_type;
      target_id = dto.target_id;
      business_id = dto.business_id;
      reason = dto.reason;
      status = ReportStatus.open_status;
    }
    modify λ s. record s {
      community = record s.community { reports = prisma.create report s.community.reports };
    }
    modify (
        record_event prisma (record {
          user_id = some user.id;
          action = "REPORT_FILED";
          target_type = target_name dto.target_type;
          target_id = dto.target_id;
          ip_address = none;
          metadata = [];
        }))
    pure report

  -- The order of the answer is left out.
  unfoldable pub list_own : ℕ → Action (List Report)
  list_own user_id = gets λ s. prisma.find_many (λ r. r.reporter_id == user_id) s.community.reports
