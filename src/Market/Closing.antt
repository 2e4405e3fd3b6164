-- ===== src/Market/Closing.antt =====
-- A business that is sold, suspended or archived is put up for sale again by no method: the part of
-- each method that changes businesses.
use idea_project.Base.{
  ℕ, ◌≡◌, ap, refl, Bool, true, false, not, ◌&&◌, Option, List, ◌==◌, nat_eq, any, count,
  update_where, Elem, arith, Option-cases, inl, inr, String,
}
use idea_project.Base.Updates.{
  any-update_where_le, any-update_where_same, any-of_Elem, count-update_where_same,
}
use idea_project.Schema.{Db, Business, BusinessStatus}
use idea_project.Common.{keep-some, AuthenticatedUser, keep}
use idea_project.Common.Prisma.{Prisma}
use idea_project.Common.Money.{Numbers}
use idea_project.Common.StateMachine.{assert_transition}
use idea_project.Businesses.Service.{
  is_business, is_manageable, set_status, publish, unpublish, soft_delete, find_owned,
  serialize_business, mark_deleted, set_both, unpublish_listing, update_listing, UpdateListingDto,
}
use idea_project.Businesses.Edit.{UpdateBusinessDto, change_business, update}
use idea_project.Businesses.Publishing.{publish-never_succeeds}
use idea_project.Businesses.Admin.{
  is_in_status, approve_business, reject_business, suspend_business,
}
use idea_project.Market.Frames.{Keeps}

abbrev pub is_closed : BusinessStatus → Bool
is_closed BusinessStatus.sold = true
is_closed BusinessStatus.suspended = true
is_closed BusinessStatus.archived = true
is_closed _ = false

-- A row of this business that is for sale or may still be put up.
abbrev pub is_openable : ℕ → Business → Bool
is_openable id b = b.id == id && not (is_closed b.status)

-- What a method does to the rows of the business `k` and to the deals: a business that was closed
-- stays closed, and no identifier comes or goes.
abbrev pub ShutsAt : Db → Db → ℕ → Type 0
ShutsAt s s' k =
    (any (is_openable k) s.businesses ≡ false → any (is_openable k) s'.businesses ≡ false)
    × (count (is_business k) s'.businesses ≡ count (is_business k) s.businesses)
    × (s'.deals ≡ s.deals)

pub record Shuts (s s' : Db) : Type 0 where
  pub at : (k : ℕ) → ShutsAt s s' k

pub Keeps-Shuts : {s s' : Db} → Keeps s s' → Shuts s s'
Keeps-Shuts {s} {s'} k = record { at = λ id. (λ h. rw k.businesses h, rw k.businesses, k.deals) }

status_ids :
    (p : Business → Bool) (status : BusinessStatus) (bs : List Business) (k : ℕ)
    → count (is_business k) (update_where p (set_status status) bs) ≡ count (is_business k) bs
status_ids p status bs k =
    count-update_where_same (is_business k) p (set_status status) bs (λ a at. refl)

-- A business that was open moves to another status.
move_shut :
    (b : Business) (status : BusinessStatus) (bs : List Business) (id : ℕ)
    → Elem b bs
    → is_closed b.status ≡ false
    → any (is_openable id) bs ≡ false
    → any (is_openable id) (update_where (is_business b.id) (set_status status) bs) ≡ false
move_shut b status bs id m open_status h =
    any-update_where_le (is_openable id) (is_business b.id) (set_status status) bs
      (λ a at _. ground (arith, any-of_Elem (is_openable id) b bs m)) h

-- Only a business under review is approved or rejected.
review_shut :
    (id : ℕ) (status : BusinessStatus) (bs : List Business) (k : ℕ)
    → any (is_openable k) bs ≡ false
    → any
        (is_openable k)
        (update_where (is_in_status id BusinessStatus.pending_review) (set_status status) bs)
      ≡ false
review_shut id status bs k h =
    any-update_where_le (is_openable k) (is_in_status id BusinessStatus.pending_review)
      (set_status status) bs (λ a at off. ground arith) h

suspend_shut :
    (id : ℕ) (bs : List Business) (k : ℕ)
    → any (is_openable k) bs ≡ false
    → any (is_openable k) (update_where (is_business id) (set_status BusinessStatus.suspended) bs)
      ≡ false
suspend_shut id bs k h =
    any-update_where_le (is_openable k) (is_business id) (set_status BusinessStatus.suspended) bs
      (λ a at off. ground arith) h

module _ (prisma : Prisma) where
  unpublish-ShutsAt :
      (user : AuthenticatedUser) (id : ℕ) (s : Db) (k : ℕ)
      → ShutsAt s (unpublish prisma user id s).1 k
  unfolding unpublish find_owned serialize_business assert_transition
  unpublish-ShutsAt user id s k =
      elim (Option-cases
        (keep (is_manageable user) (prisma.find_first (is_business id) s.businesses))) [
          | inl e ↦ ground arith
          | inr (b, e) ↦ ground (
            arith,
            prisma.find_first-some (is_business id) s.businesses b
                (keep-some (is_manageable user) _ b e).0,
            move_shut b BusinessStatus.paused s.businesses k,
            status_ids (is_business b.id) BusinessStatus.paused s.businesses k,
            prisma.transaction_lem
                (set_both prisma b.id (set_status BusinessStatus.paused) unpublish_listing) s,
            prisma.update_lem (is_business b.id) (set_status BusinessStatus.paused) s.businesses,
          )
        ]

  update-ShutsAt :
      (user : AuthenticatedUser) (id : ℕ) (dto : UpdateBusinessDto) (s : Db) (k : ℕ)
      → ShutsAt s (update prisma user id dto s).1 k
  unfolding update find_owned serialize_business
  update-ShutsAt user id dto s k =
      elim (Option-cases
        (keep (is_manageable user) (prisma.find_first (is_business id) s.businesses))) [
          | inl e ↦ ground arith
          | inr (b, e) ↦ ground (
            arith,
            prisma.update_lem (is_business b.id) (change_business dto) s.businesses,
            any-update_where_same (is_openable k) (is_business b.id) (change_business dto)
                s.businesses (λ (a : Business). refl),
            count-update_where_same (is_business k) (is_business b.id) (change_business dto)
                s.businesses (λ (a : Business) (at : is_business b.id a ≡ true). refl),
          )
        ]

  soft_delete-ShutsAt :
      (user : AuthenticatedUser) (id now : ℕ) (s : Db) (k : ℕ)
      → ShutsAt s (soft_delete prisma user id now s).1 k
  unfolding soft_delete find_owned serialize_business
  soft_delete-ShutsAt user id now s k =
      elim (Option-cases
        (keep (is_manageable user) (prisma.find_first (is_business id) s.businesses))) [
          | inl e ↦ ground arith
          | inr (b, e) ↦ ground (
            arith,
            prisma.update_lem (is_business b.id) (mark_deleted now) s.businesses,
            any-update_where_same (is_openable k) (is_business b.id) (mark_deleted now) s.businesses
                (λ (a : Business). refl),
            count-update_where_same (is_business k) (is_business b.id) (mark_deleted now)
                s.businesses (λ (a : Business) (at : is_business b.id a ≡ true). refl),
          )
        ]

  approve_business-ShutsAt :
      (admin : AuthenticatedUser) (id : ℕ) (reason : Option String) (now : ℕ) (s : Db) (k : ℕ)
      → ShutsAt s (approve_business prisma admin id reason now s).1 k
  unfolding approve_business
  approve_business-ShutsAt admin id reason now s k = ground (
    arith,
    prisma.update_many_lem (is_in_status id BusinessStatus.pending_review)
        (set_status BusinessStatus.published) s.businesses,
    review_shut id BusinessStatus.published s.businesses k,
    status_ids (is_in_status id BusinessStatus.pending_review) BusinessStatus.published s.businesses
        k,
  )

  reject_business-ShutsAt :
      (admin : AuthenticatedUser) (id : ℕ) (reason : Option String) (s : Db) (k : ℕ)
      → ShutsAt s (reject_business prisma admin id reason s).1 k
  unfolding reject_business
  reject_business-ShutsAt admin id reason s k = ground (
    arith,
    prisma.update_many_lem (is_in_status id BusinessStatus.pending_review)
        (set_status BusinessStatus.rejected) s.businesses,
    review_shut id BusinessStatus.rejected s.businesses k,
    status_ids (is_in_status id BusinessStatus.pending_review) BusinessStatus.rejected s.businesses
        k,
  )

  suspend_business-ShutsAt :
      (admin : AuthenticatedUser) (id : ℕ) (reason : Option String) (s : Db) (k : ℕ)
      → ShutsAt s (suspend_business prisma admin id reason s).1 k
  unfolding suspend_business
  suspend_business-ShutsAt admin id reason s k = ground (
    arith,
    prisma.update_lem (is_business id) (set_status BusinessStatus.suspended) s.businesses,
    suspend_shut id s.businesses k,
    status_ids (is_business id) BusinessStatus.suspended s.businesses k,
  )

  pub publish-Shuts :
      (user : AuthenticatedUser) (id now : ℕ) (s : Db) → Shuts s (publish prisma user id now s).1
  publish-Shuts user id now s =
      let (e, same) = publish-never_succeeds prisma user id now s in
      Keeps-Shuts
        (record { businesses = ap (λ r. r.1.businesses) same; deals = ap (λ r. r.1.deals) same })

  pub unpublish-Shuts :
      (user : AuthenticatedUser) (id : ℕ) (s : Db) → Shuts s (unpublish prisma user id s).1
  unpublish-Shuts user id s = record { at = unpublish-ShutsAt user id s }

  pub update-Shuts :
      (user : AuthenticatedUser) (id : ℕ) (dto : UpdateBusinessDto) (s : Db)
      → Shuts s (update prisma user id dto s).1
  update-Shuts user id dto s = record { at = update-ShutsAt user id dto s }

  pub soft_delete-Shuts :
      (user : AuthenticatedUser) (id now : ℕ) (s : Db)
      → Shuts s (soft_delete prisma user id now s).1
  soft_delete-Shuts user id now s = record { at = soft_delete-ShutsAt user id now s }

  pub approve_business-Shuts :
      (admin : AuthenticatedUser) (id : ℕ) (reason : Option String) (now : ℕ) (s : Db)
      → Shuts s (approve_business prisma admin id reason now s).1
  approve_business-Shuts admin id reason now s = record {
    at = approve_business-ShutsAt admin id reason now s;
  }

  pub reject_business-Shuts :
      (admin : AuthenticatedUser) (id : ℕ) (reason : Option String) (s : Db)
      → Shuts s (reject_business prisma admin id reason s).1
  reject_business-Shuts admin id reason s = record {
    at = reject_business-ShutsAt admin id reason s;
  }

  pub suspend_business-Shuts :
      (admin : AuthenticatedUser) (id : ℕ) (reason : Option String) (s : Db)
      → Shuts s (suspend_business prisma admin id reason s).1
  suspend_business-Shuts admin id reason s = record {
    at = suspend_business-ShutsAt admin id reason s;
  }

module _ (prisma : Prisma) (numbers : Numbers) where
  pub update_listing-Keeps :
      (user : AuthenticatedUser) (id : ℕ) (dto : UpdateListingDto numbers.Num) (s : Db)
      → Keeps s (update_listing prisma numbers user id dto s).1
  unfolding update_listing find_owned serialize_business
  update_listing-Keeps user id dto s = ground arith
