-- ===== src/Businesses/Suspension.antt =====
-- Suspension by an administrator (`suspendBusiness` of src/admin/admin.service.ts) beside the
-- transition table (src/businesses/businesses.service.ts).
use idea_project.Base.{ℕ, ◌≡◌, true, false, nat_eq, any, some, Option, arith, update_where, String}
use idea_project.Base.Updates.{any-of_Elem, count-zero_of_any, update_where-none}
use idea_project.Schema.{
  Db, Business, BusinessListing, BusinessStatus, business_status_eq, ListingStatus,
}
use idea_project.Common.{AuthenticatedUser, ok, err, not_found_exception, ErrorCode}
use idea_project.Common.Prisma.{Prisma}
use idea_project.Businesses.Service.{is_business, listing_of, set_status}
use idea_project.Businesses.Admin.{
  suspend_business, approve_business, reject_business, transition_business, is_in_status,
  record_admin_action,
}

abbrev pub suspend_listing : BusinessListing → BusinessListing
suspend_listing l = record l { status = ListingStatus.suspended }

module _ (prisma : Prisma) where
  -- An administrator suspends every business that is found with its listing, whatever its status:
  -- also a business that is SOLD, ARCHIVED, DRAFT or SUSPENDED already, which the transition table
  -- does not allow.
  suspend_business-any_status :
      (admin : AuthenticatedUser) (id : ℕ) (reason : Option String) (b : Business) (s : Db)
      → prisma.find_first (is_business id) s.businesses ≡ some b
      → any (listing_of id) s.listings ≡ true
      → ((suspend_business prisma admin id reason s).0 ≡ ok tt)
        × ((suspend_business prisma admin id reason s).1.businesses
            ≡ update_where (is_business id) (set_status BusinessStatus.suspended) s.businesses)
        × ((suspend_business prisma admin id reason s).1.listings
            ≡ update_where (listing_of id) suspend_listing s.listings)
  unfolding suspend_business record_admin_action
  suspend_business-any_status admin id reason b s found listed =
      let (here, at) = prisma.find_first-some (is_business id) s.businesses b found in
      let there = any-of_Elem (is_business id) b s.businesses at here in
      let change =
        prisma.update_lem (is_business id) (set_status BusinessStatus.suspended) s.businesses in
      let close = prisma.update_lem (listing_of id) suspend_listing s.listings in
      (
        ground (arith, there, change, close),
        ground (arith, there, change, close),
        ground (arith, there, change, close),
      )

  not_in_status :
      (id : ℕ) (from to : BusinessStatus) (s : Db)
      → any (is_in_status id from) s.businesses ≡ false
      → transition_business prisma id from to s
        ≡ (err (not_found_exception ErrorCode.business_not_found), s)
  unfolding transition_business
  not_in_status id from to s h = ground (
    arith,
    prisma.update_many_lem (is_in_status id from) (set_status to) s.businesses,
    count-zero_of_any (is_in_status id from) s.businesses h,
    update_where-none (is_in_status id from) (set_status to) s.businesses h,
  )

  -- A business is approved or rejected only under review: when no row of the identifier is in
  -- PENDING_REVIEW, both answer BUSINESS_NOT_FOUND, and neither the businesses, the listings nor
  -- the messages change.
  review-pending_only :
      (admin : AuthenticatedUser) (id : ℕ) (reason : Option String) (now : ℕ) (s : Db)
      → any (is_in_status id BusinessStatus.pending_review) s.businesses ≡ false
      → (approve_business prisma admin id reason now s
          ≡ (err (not_found_exception ErrorCode.business_not_found), s))
        × (reject_business prisma admin id reason s
            ≡ (err (not_found_exception ErrorCode.business_not_found), s))
  unfolding approve_business reject_business
  review-pending_only admin id reason now s none_pending =
      let published =
        not_in_status id BusinessStatus.pending_review BusinessStatus.published s none_pending in
      let rejected =
        not_in_status id BusinessStatus.pending_review BusinessStatus.rejected s none_pending in
      (ground (arith, published), ground (arith, rejected))
