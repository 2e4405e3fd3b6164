-- ===== src/Notifications/Reading.antt =====
-- What a user reads of the notifications, and marks as read
-- (src/notifications/notifications.service.ts).
use idea_project.Base.{
  ℕ, suc, ◌≡◌, ◌≤◌, ◌∙◌, refl, ap, Bool, false, not, ◌&&◌, none, some, List, [], ◌∷◌, any, count,
  filter, length, update_where, arith, ◌==◌, nat_eq, Bool-cases, inl, inr,
}
use idea_project.Base.Slices.{Distinct}
use idea_project.Base.Updates.{count-zero_of_any}
use idea_project.Schema.{Outbox, Notification}
use idea_project.Common.Prisma.{Prisma}
use idea_project.Common.Pages.Walk.{read_all, read_all-equals}
use idea_project.Common.Pages.Rows.{any-of_count_zero}
use idea_project.Notifications.Service.{
  rows_for, is_for, is_later, is_named, is_unread_for, read_at, mark_read, mark_all_read,
}
use idea_project.Notifications.Numbers.{News, AreNumbered, News-AreNumbered}

module _ {Row : Type 0} (id : Row → ℕ) where
  count-Distinct : (x : ℕ) (rows : List Row) → Distinct id rows → count (λ r. id r == x) rows ≤ 1
  count-Distinct x [] d = omega arith
  count-Distinct x (r ∷ rows) d =
      ground (arith, count-Distinct x rows d.1, count-zero_of_any (λ y. id y == id r) rows d.0)

  Distinct-count :
      (rows : List Row) → ((x : ℕ) → count (λ r. id r == x) rows ≤ 1) → Distinct id rows
  Distinct-count [] h = tt
  Distinct-count (r ∷ rows) h = (
    any-of_count_zero (λ y. id y == id r) rows (ground (arith, h (id r))),
    Distinct-count rows (λ x. ground (arith, h x)),
  )

count-filter :
    {Row : Type 0} (p q : Row → Bool) (rows : List Row)
    → count q (filter p rows) ≡ count (λ r. p r && q r) rows
count-filter p q [] = refl
count-filter p q (r ∷ rows) = ground (arith, count-filter p q rows)

count-filter_le :
    {Row : Type 0} (p q : Row → Bool) (rows : List Row) → count q (filter p rows) ≤ count q rows
count-filter_le p q [] = omega arith
count-filter_le p q (r ∷ rows) = ground (arith, count-filter_le p q rows)

module _ (prisma : Prisma) where
  count-rows_for :
      (user_id : ℕ) (out : Outbox) (q : Notification → Bool)
      → count q (rows_for prisma user_id out)
        ≡ count (λ n. is_for user_id n && q n) out.notifications
  count-rows_for user_id out q =
      prisma.count-order_by is_later (prisma.find_many (is_for user_id) out.notifications) q
      ∙ rw (prisma.find_many_lem (is_for user_id) out.notifications)
          (count-filter (is_for user_id) q out.notifications)

  rows_for-Distinct :
      (user_id : ℕ) (out : Outbox)
      → Distinct (λ n. n.id) out.notifications
      → Distinct (λ n. n.id) (rows_for prisma user_id out)
  rows_for-Distinct user_id out d =
      Distinct-count (λ n. n.id) (rows_for prisma user_id out)
        (λ x. ground (
          arith,
          prisma.count-order_by is_later (prisma.find_many (is_for user_id) out.notifications)
              (λ n. n.id == x),
          prisma.find_many_lem (is_for user_id) out.notifications,
          count-filter_le (is_for user_id) (λ n. n.id == x) out.notifications,
          count-Distinct (λ n. n.id) x out.notifications d,
        ))

  -- From notifications with different identifiers that were given already, whatever is created and
  -- marked as read, one after another: who asks for page after page of the own list, with 20 to a page,
  -- comes to a page without a cursor after no more pages than there are rows and one, and has then each
  -- notification of the user, as often as it is there, and no other, as every test counts them.
  pub read_all-own :
      {out now : Outbox} (user_id : ℕ)
      → News prisma out now
      → AreNumbered out
      → (all : List Notification) × (read_all
            (λ n. n.id)
            prisma
            (suc (length (rows_for prisma user_id now)))
            20
            none
            (rows_for prisma user_id now)
          ≡ some all)
        × ((q : Notification → Bool)
            → count q all ≡ count (λ n. is_for user_id n && q n) now.notifications)
  read_all-own {out} {now} user_id path h = (
    rows_for prisma user_id now,
    read_all-equals (λ n. n.id) prisma 20 (rows_for prisma user_id now)
        (rows_for-Distinct user_id now (News-AreNumbered prisma path h).1) (omega arith),
    count-rows_for user_id now,
  )

-- A read of rows of one user, by whatever further test, leaves the rows of the others as they are.
others-read :
    (user_id time : ℕ) (p : Notification → Bool) (ns : List Notification)
    → ((n : Notification) → is_for user_id n ≡ false → p n ≡ false)
    → filter (λ n. not (is_for user_id n)) (update_where p (read_at time) ns)
      ≡ filter (λ n. not (is_for user_id n)) ns
others-read user_id time p [] own = refl
others-read user_id time p (n ∷ ns) own = elim (Bool-cases (is_for user_id n)) [
  | inl mine ↦ ground (arith, others-read user_id time p ns own)
  | inr foreign ↦ rw (own n foreign, foreign) (ap (λ t. n ∷ t) (others-read user_id time p ns own))
]

none_unread :
    (user_id time : ℕ) (ns : List Notification)
    → any (is_unread_for user_id) (update_where (is_unread_for user_id) (read_at time) ns) ≡ false
none_unread user_id time [] = refl
none_unread user_id time (n ∷ ns) = ground (arith, none_unread user_id time ns)

module _ (prisma : Prisma) where
  -- Marking all as read leaves the user no unread notification, and neither it nor marking one as read,
  -- whatever identifier is asked for, changes a notification of another user.
  pub mark_read-own :
      (user_id id time : ℕ) (out : Outbox)
      → let others = filter (λ n. not (is_for user_id n)) in
        (any (is_unread_for user_id) (mark_all_read prisma user_id time out).notifications ≡ false)
        × (others (mark_all_read prisma user_id time out).notifications ≡ others out.notifications)
        × (others (mark_read prisma user_id id time out).notifications ≡ others out.notifications)
  unfolding mark_read mark_all_read
  mark_read-own user_id id time out =
      rw
        (
          prisma.update_many_lem (is_unread_for user_id) (read_at time) out.notifications,
          prisma.update_many_lem (is_named id user_id) (read_at time) out.notifications,
        )
        (
          none_unread user_id time out.notifications,
          others-read user_id time (is_unread_for user_id) out.notifications (λ n h. ground arith),
          others-read user_id time (is_named id user_id) out.notifications (λ n h. ground arith),
        )
