-- ===== src/Notifications/Numbers.antt =====
-- The identifiers of the notifications (src/notifications/notifications.service.ts), whatever is created
-- and marked as read, one after another.
use idea_project.Base.{
  ℕ, suc, ◌≡◌, ◌<◌, refl, ◌∙◌, Bool, Bool-cases, inl, inr, false, List, [], ◌∷◌, any, All,
  update_where, arith, ◌==◌, nat_eq,
}
use idea_project.Base.Slices.{Distinct}
use idea_project.Base.Updates.{any-update_where_same}
use idea_project.Schema.{Outbox, Notification}
use idea_project.Common.Prisma.{Prisma}
use idea_project.Common.Notify.{CreateNotificationInput, notify_outbox, is_muted}
use idea_project.Notifications.Service.{mark_read, mark_all_read, read_at, is_named, is_unread_for}

-- The notifications that requests lead to.
pub data News (prisma : Prisma) (out : Outbox) : Outbox → Type 0 where
  start : News prisma out out
  notified :
      {now : Outbox} (input : CreateNotificationInput)
      → News prisma out now
      → News prisma out (notify_outbox prisma input now)
  marked :
      {now : Outbox} (user_id id time : ℕ)
      → News prisma out now
      → News prisma out (mark_read prisma user_id id time now)
  all_marked :
      {now : Outbox} (user_id time : ℕ)
      → News prisma out now
      → News prisma out (mark_all_read prisma user_id time now)

abbrev pub AreBelow : ℕ → List Notification → Type 0
AreBelow k ns = All (λ n. n.id < k) ns

-- Different identifiers, all of them given already.
abbrev pub AreNumbered : Outbox → Type 0
AreNumbered out =
    AreBelow out.next_notification_id out.notifications × Distinct (λ n. n.id) out.notifications

below-fresh : (k : ℕ) (ns : List Notification) → AreBelow k ns → any (λ n. n.id == k) ns ≡ false
below-fresh k [] h = refl
below-fresh k (n ∷ ns) h = ground (arith, below-fresh k ns h.1)

below-suc : (k : ℕ) (ns : List Notification) → AreBelow k ns → AreBelow (suc k) ns
below-suc k [] h = tt
below-suc k (n ∷ ns) h = (omega arith, below-suc k ns h.1)

module _ (p : Notification → Bool) (time : ℕ) where
  read-below :
      (k : ℕ) (ns : List Notification)
      → AreBelow k ns
      → AreBelow k (update_where p (read_at time) ns)
  read-below k [] h = tt
  read-below k (n ∷ ns) h = elim (Bool-cases (p n)) [
    | inl hit ↦ rw hit (h.0, read-below k ns h.1)
    | inr miss ↦ rw miss (h.0, read-below k ns h.1)
  ]

  read-any :
      (k : ℕ) (ns : List Notification)
      → any (λ n. n.id == k) (update_where p (read_at time) ns) ≡ any (λ n. n.id == k) ns
  read-any k ns =
      any-update_where_same (λ n. n.id == k) p (read_at time) ns (λ (n : Notification). refl)

  read-Distinct :
      (ns : List Notification)
      → Distinct (λ n. n.id) ns
      → Distinct (λ n. n.id) (update_where p (read_at time) ns)
  read-Distinct [] h = tt
  read-Distinct (n ∷ ns) h = elim (Bool-cases (p n)) [
    | inl hit ↦ rw hit (read-any n.id ns ∙ h.0, read-Distinct ns h.1)
    | inr miss ↦ rw miss (read-any n.id ns ∙ h.0, read-Distinct ns h.1)
  ]

module _ (prisma : Prisma) where
  notify-AreNumbered :
      (input : CreateNotificationInput) (out : Outbox)
      → AreNumbered out
      → AreNumbered (notify_outbox prisma input out)
  unfolding notify_outbox
  notify-AreNumbered input out h =
      elim (Bool-cases (
        is_muted (prisma.find_first (λ p. p.user_id == input.user_id) out.preferences)
          input.type)) [
            | inl muted ↦ rw muted h
            | inr heard ↦
                rw (heard, prisma.create_lem)
                  (
                    (omega arith, below-suc out.next_notification_id out.notifications h.0),
                    (below-fresh out.next_notification_id out.notifications h.0, h.1),
                  )
          ]

  mark_read-AreNumbered :
      (user_id id time : ℕ) (out : Outbox)
      → AreNumbered out
      → AreNumbered (mark_read prisma user_id id time out)
  unfolding mark_read
  mark_read-AreNumbered user_id id time out h =
      let p = is_named id user_id in
      rw (prisma.update_many_lem p (read_at time) out.notifications) (
        read-below p time out.next_notification_id out.notifications h.0,
        read-Distinct p time out.notifications h.1,
      )

  mark_all_read-AreNumbered :
      (user_id time : ℕ) (out : Outbox)
      → AreNumbered out
      → AreNumbered (mark_all_read prisma user_id time out)
  unfolding mark_all_read
  mark_all_read-AreNumbered user_id time out h =
      let p = is_unread_for user_id in
      rw (prisma.update_many_lem p (read_at time) out.notifications) (
        read-below p time out.next_notification_id out.notifications h.0,
        read-Distinct p time out.notifications h.1,
      )

  pub News-AreNumbered :
      {out now : Outbox} → News prisma out now → AreNumbered out → AreNumbered now
  News-AreNumbered start h = h
  News-AreNumbered (notified {now} input path) h =
      notify-AreNumbered input now (News-AreNumbered path h)
  News-AreNumbered (marked {now} user_id id time path) h =
      mark_read-AreNumbered user_id id time now (News-AreNumbered path h)
  News-AreNumbered (all_marked {now} user_id time path) h =
      mark_all_read-AreNumbered user_id time now (News-AreNumbered path h)
