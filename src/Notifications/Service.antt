-- ===== src/Notifications/Service.antt =====
-- src/notifications/notifications.service.ts, but for `create`. The identifiers that the database gives
-- grow, so that they order the rows by their time.
use idea_project.Base.{ℕ, Bool, not, ◌&&◌, some, List, ◌==◌, nat_eq, is_some, leb}
use idea_project.Schema.{Outbox, Notification}
use idea_project.Common.{Action, Error, ◌>>=◌, gets, or_raise}
use idea_project.Common.Prisma.{Prisma}
use idea_project.Common.Pages.{CursorPaginationQuery, PaginatedResult, list_page}

abbrev pub is_for : ℕ → Notification → Bool
is_for user_id n = n.user_id == user_id

-- `{ id, userId }`
abbrev pub is_named : ℕ → ℕ → Notification → Bool
is_named id user_id n = n.id == id && n.user_id == user_id

-- `{ userId, readAt: null }`
abbrev pub is_unread_for : ℕ → Notification → Bool
is_unread_for user_id n = n.user_id == user_id && not (is_some n.read_at)

abbrev pub read_at : ℕ → Notification → Notification
read_at now n = record n { read_at = some now }

abbrev pub is_later : Notification → Notification → Bool
is_later a b = leb b.id a.id

module _ (prisma : Prisma) where
  -- The rows that the pages of a user are cut from.
  abbrev pub rows_for : ℕ → Outbox → List Notification
  rows_for user_id out =
      prisma.order_by is_later (prisma.find_many (is_for user_id) out.notifications)

  unfoldable pub list : ℕ → CursorPaginationQuery → Action (PaginatedResult Notification)
  list user_id query = do
    page ← gets λ s. list_page prisma (λ n. n.id) 20 query (rows_for user_id s.outbox)
    or_raise page Error.failure

  unfoldable pub mark_read : ℕ → ℕ → ℕ → Outbox → Outbox
  mark_read user_id id now out = record out {
    notifications = (prisma.update_many (is_named id user_id) (read_at now) out.notifications).0;
  }

  unfoldable pub mark_all_read : ℕ → ℕ → Outbox → Outbox
  mark_all_read user_id now out = record out {
    notifications = (prisma.update_many (is_unread_for user_id) (read_at now) out.notifications).0;
  }
