-- ===== src/Notifications/Tests.antt =====
-- The theorems on notifications at what the buyer and the seller are told and mark as read.
use idea_project.Base.{
  List, Bool, some, ℕ, suc, ◌≡◌, refl, false, not, ◌&&◌, none, [], any, count, filter, length,
}
use idea_project.Schema.{Outbox, Notification, NotificationType}
use idea_project.Common.Prisma.{list_prisma}
use idea_project.Common.Notify.{CreateNotificationInput, notify_outbox}
use idea_project.Common.Pages.Walk.{read_all}
use idea_project.Samples.{empty_outbox}
use idea_project.Notifications.Service.{rows_for, is_for, is_unread_for, mark_read, mark_all_read}
use idea_project.Notifications.Numbers.{start, notified, marked}
use idea_project.Notifications.Reading.{read_all-own, mark_read-own}

abbrev news_for : ℕ → CreateNotificationInput
news_for user_id = record {
  user_id = user_id;
  type = NotificationType.new_message;
  title = "New message";
  body = none;
  metadata = [];
}

abbrev told : Outbox
told =
    notify_outbox list_prisma (news_for 2)
      (notify_outbox list_prisma (news_for 1) (notify_outbox list_prisma (news_for 2) empty_outbox))

-- The buyer marks the first, and tries the one of the seller.
abbrev told_and_read : Outbox
told_and_read = mark_read list_prisma 2 1 5 (mark_read list_prisma 2 0 4 told)

read_all-own_example :
    (all : List Notification) × (read_all
        (λ n. n.id)
        list_prisma
        (suc (length (rows_for list_prisma 2 told_and_read)))
        20
        none
        (rows_for list_prisma 2 told_and_read)
      ≡ some all)
    × ((q : Notification → Bool)
        → count q all ≡ count (λ n. is_for 2 n && q n) told_and_read.notifications)
read_all-own_example =
    read_all-own list_prisma 2
      (marked 2 1 5 (
        marked 2 0 4 (notified (news_for 2) (notified (news_for 1) (notified (news_for 2) start)))))
      (tt, tt)

-- One of the two notifications of the buyer is unread.
unread_left : count (λ n. is_for 2 n && is_unread_for 2 n) told_and_read.notifications ≡ 1
unfolding notify_outbox mark_read
unread_left = refl

mark_read-own_example :
    (any (is_unread_for 2) (mark_all_read list_prisma 2 6 told).notifications ≡ false)
    × (filter (λ n. not (is_for 2 n)) (mark_all_read list_prisma 2 6 told).notifications
        ≡ filter (λ n. not (is_for 2 n)) told.notifications)
    × (filter (λ n. not (is_for 2 n)) (mark_read list_prisma 2 1 6 told).notifications
        ≡ filter (λ n. not (is_for 2 n)) told.notifications)
mark_read-own_example = mark_read-own list_prisma 2 1 6 told
