-- ===== src/Common/Notify.antt =====
-- `NotificationsService.create` (src/notifications/notifications.service.ts) and
-- `AuditService.record` (src/common/audit/audit.service.ts).
use idea_project.Base.{
  ℕ, suc, Bool, true, false, Option, none, some, List, [], ◌∷◌, String, ◌==◌, nat_eq, includes,
  if◌then◌else◌,
}
use idea_project.Schema.{
  Db, Outbox, Metadata, Notification, NotificationPreference, NotificationType,
  notification_type_eq, EmailJob,
}
use idea_project.Common.Prisma.{Prisma}

pub record CreateNotificationInput : Type 0 where
  pub user_id : ℕ
  pub type : NotificationType
  pub title : String
  pub body : Option String
  pub metadata : Metadata

pub record AuditEventInput : Type 0 where
  pub user_id : Option ℕ
  pub action : String
  pub target_type : String
  pub target_id : ℕ
  pub ip_address : Option String
  pub metadata : Metadata

-- `preference?.mutedTypes.includes(input.type)`
abbrev pub is_muted : Option NotificationPreference → NotificationType → Bool
is_muted none type = false
is_muted (some p) type = includes p.muted_types type

-- `preference?.emailEnabled ?? true`
abbrev wants_email : Option NotificationPreference → Bool
wants_email none = true
wants_email (some p) = p.email_enabled

module _ (prisma : Prisma) where
  deliver : CreateNotificationInput → Bool → Outbox → Outbox
  deliver input email out = record out {
    notifications = prisma.create notification out.notifications;
    next_notification_id = suc out.next_notification_id;
    emitted = notification ∷ out.emitted;
    email_queue = if email then job ∷ out.email_queue else out.email_queue;
  }
    where
      notification : Notification
      notification = record {
        id = out.next_notification_id;
        user_id = input.user_id;
        type = input.type;
        title = input.title;
        body = input.body;
        metadata = input.metadata;
        read_at = none;
      }

      job : EmailJob
      job = record {
        user_id = input.user_id;
        type = input.type;
        title = input.title;
        body = input.body;
      }

  -- Nothing is created for a muted type.
  unfoldable pub notify_outbox : CreateNotificationInput → Outbox → Outbox
  unfolding deliver
  notify_outbox input out =
      let preference : Option NotificationPreference =
        prisma.find_first (λ p. p.user_id == input.user_id) out.preferences in
      if is_muted preference input.type then out else deliver input (wants_email preference) out

  abbrev pub notify : CreateNotificationInput → Db → Db
  notify input s = record s { outbox = notify_outbox input s.outbox }

  -- `for (const x of xs) { await notificationsService.notify(…) }`
  unfoldable pub notify_each :
      {A : Type 0} → List A → (A → CreateNotificationInput) → Outbox → Outbox
  notify_each [] f out = out
  notify_each (x ∷ xs) f out = notify_each xs f (notify_outbox (f x) out)

  abbrev pub notify_all : {A : Type 0} → List A → (A → CreateNotificationInput) → Db → Db
  notify_all xs f s = record s { outbox = notify_each xs f s.outbox }

  unfoldable pub record_outbox : AuditEventInput → Outbox → Outbox
  record_outbox event out = record out {
    audit_logs =
        prisma.create
          (record {
            user_id = event.user_id;
            action = event.action;
            target_type = event.target_type;
            target_id = event.target_id;
            ip_address = event.ip_address;
            metadata = event.metadata;
          })
          out.audit_logs;
  }

  abbrev pub record_event : AuditEventInput → Db → Db
  record_event event s = record s { outbox = record_outbox event s.outbox }
