-- ===== src/Businesses/Publishing.antt =====
-- Why `publish` (src/businesses/businesses.service.ts) refuses every business.
use idea_project.Base.{
  ℕ, ◌≡◌, ◌≤◌, ◌↔◌, true, some, none, Option, [], arith, ltb, includes, Option-cases, Bool-cases,
  inl, inr, nat_eq,
}
use idea_project.Schema.{Db, Business, BusinessListing, BusinessStatus, business_status_eq}
use idea_project.Common.{
  AuthenticatedUser, err, Error, keep, conflict_exception, not_found_exception, ErrorCode,
}
use idea_project.Common.Prisma.{Prisma}
use idea_project.Common.StateMachine.{assert_transition, can_transition}
use idea_project.Businesses.Service.{
  publish, find_owned, is_business, is_manageable, listing_of, missing_fields, completeness_score,
  serialize_business, serialize_joined, serialize_listing, business_transitions,
}

-- The score is 100 exactly when no required field is missing, and it is never more.
completeness_score-full :
    (b : Business) (l : Option BusinessListing)
    → ((completeness_score (missing_fields b l) ≡ 100) ↔ (missing_fields b l ≡ []))
      × (completeness_score (missing_fields b l) ≤ 100)
unfolding completeness_score missing_fields
completeness_score-full b l = ground arith

-- The listing that `findOwned` returns has no price to count.
serialized_incomplete :
    (b : Business) (l : Option BusinessListing)
    → ltb (completeness_score (missing_fields b (serialize_joined l))) 100 ≡ true
unfolding completeness_score missing_fields serialize_listing
serialized_incomplete b none = ground arith
serialized_incomplete b (some l) = ground arith

module _ (prisma : Prisma) where
  -- Publishing never succeeds: for every caller, business and database it throws and changes
  -- nothing.
  pub publish-never_succeeds :
      (user : AuthenticatedUser) (id now : ℕ) (s : Db)
      → (e : Error) × (publish prisma user id now s ≡ (err e, s))
  unfolding publish find_owned serialize_business assert_transition can_transition
  publish-never_succeeds user id now s =
      elim (Option-cases
        (keep (is_manageable user) (prisma.find_first (is_business id) s.businesses))) [
          | inl none_found ↦ (not_found_exception ErrorCode.business_not_found, ground arith)
          | inr (b, found) ↦
              let incomplete =
                serialized_incomplete b (prisma.find_first (listing_of b.id) s.listings) in
              elim (Bool-cases
                (includes (business_transitions b.status) BusinessStatus.pending_review)) [
                  | inr illegal ↦ (Error.failure, ground arith)
                  | inl legal ↦
                      (conflict_exception ErrorCode.listing_incomplete, ground (arith, incomplete))
                ]
        ]

  -- A draft whose row and listing lack no required field in the database is refused all the same, as
  -- LISTING_INCOMPLETE: what the check reads is the answer's form of the listing, without its price.
  publish-refuses_complete :
      (user : AuthenticatedUser) (id now : ℕ) (b : Business) (s : Db)
      → keep (is_manageable user) (prisma.find_first (is_business id) s.businesses) ≡ some b
      → b.status ≡ BusinessStatus.draft
      → missing_fields b (prisma.find_first (listing_of b.id) s.listings) ≡ []
      → publish prisma user id now s ≡ (err (conflict_exception ErrorCode.listing_incomplete), s)
  unfolding publish find_owned serialize_business assert_transition can_transition
  publish-refuses_complete user id now b s found draft complete =
      ground (arith, serialized_incomplete b (prisma.find_first (listing_of b.id) s.listings))
