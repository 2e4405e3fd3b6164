-- ===== src/Jobs.antt =====
-- src/jobs/processors/email.processor.ts. The mail that goes to the provider (src/integrations/email) is
-- what the run returns.
use idea_project.Base.{ℕ, Bool, not, Option, none, some, String, is_some, or_else}
use idea_project.Schema.{User, EmailJob}
use idea_project.Common.{Action, gets, keep}
use idea_project.Common.Prisma.{Prisma}
use idea_project.Users.{is_user}

-- `sendGenericNotificationEmail` of src/integrations/email/email.service.ts.
pub record NotificationMail : Type 0 where
  pub to : ℕ
  pub subject : String
  pub title : String
  pub body : String

abbrev is_existing : User → Bool
is_existing u = not (is_some u.deleted_at)

unfoldable pub send_generic_notification_email : ℕ → String → Option String → NotificationMail
send_generic_notification_email to title body = record {
  to = to;
  subject = title;
  title = title;
  body = or_else body "";
}

abbrev mail_to : EmailJob → Option User → Option NotificationMail
mail_to job none = none
mail_to job (some u) = some (send_generic_notification_email u.email job.title job.body)

module _ (prisma : Prisma) where
  unfoldable pub process : EmailJob → Action (Option NotificationMail)
  process job =
      gets λ s. mail_to job (keep is_existing (prisma.find_first (is_user job.user_id) s.users))
