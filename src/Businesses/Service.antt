-- ===== src/Businesses/Service.antt =====
-- src/businesses/businesses.service.ts: the methods that change a business or its listing.
use idea_project.Base.{
  ℕ, Bool, not, ◌&&◌, Option, none, some, List, [], ◌∷◌, String, ◌==◌, nat_eq, is_some, ltb,
  or_maybe, or_else,
}
use idea_project.Schema.{
  Db, Business, BusinessStatus, business_status_eq, BusinessListing, ListingStatus,
  ListingVisibility, OrganizationMember, user_role_eq,
}
use idea_project.Common.{
  Action, ok, err, Error, AuthenticatedUser, ErrorCode, not_found_exception, forbidden_exception,
  conflict_exception, ◌>>=◌, ◌>>◌, pure, raise_if, modify, keep,
}
use idea_project.Common.Prisma.{Prisma}
use idea_project.Common.Money.{Numbers, to_minor_units}
use idea_project.Common.Notify.{record_event}
use idea_project.Common.StateMachine.{assert_transition}
pub use idea_project.Businesses.Rules.{
  business_transitions, business_state_machine, CreateBusinessDto, UpdateListingDto, is_business,
  listing_of, is_manageable, set_status, mark_deleted, publish_listing, unpublish_listing,
  new_business,
}
unfoldable pub use idea_project.Businesses.Rules.{missing_fields, completeness_score}

abbrev draft_listing : ℕ → BusinessListing
draft_listing id = record {
  business_id = id;
  status = ListingStatus.draft;
  visibility = ListingVisibility.private;
  asking_price_minor = none;
  currency = "USD";
  headline = none;
  completeness_score = 0;
  published_at = none;
}

-- What `serializeBusiness` returns, as far as a method reads it: the business and its listing.
pub record OwnedBusiness : Type 0 where
  pub business : Business
  pub listing : Option BusinessListing

-- The listing for an answer, where `askingPriceMinor` is `undefined`. `askingPrice`, the same amount
-- in major units, is left out, since no method reads it.
unfoldable pub serialize_listing : BusinessListing → BusinessListing
serialize_listing l = record l { asking_price_minor = none }

abbrev pub serialize_joined : Option BusinessListing → Option BusinessListing
serialize_joined none = none
serialize_joined (some l) = some (serialize_listing l)

-- Without its metrics, which no method reads.
unfoldable pub serialize_business : Business → Option BusinessListing → OwnedBusiness
serialize_business b listing = record { business = b; listing = serialize_joined listing }

module _ (prisma : Prisma) where
  abbrev save_businesses : Option (List Business) → Action (Unit {0})
  save_businesses none s = (err Error.record_not_found, s)
  save_businesses (some t) s = (ok tt, record s { businesses = t })

  abbrev save_listings : Option (List BusinessListing) → Action (Unit {0})
  save_listings none s = (err Error.record_not_found, s)
  save_listings (some t) s = (ok tt, record s { listings = t })

  abbrev pub update_business : ℕ → (Business → Business) → Action (Unit {0})
  update_business id f s = save_businesses (prisma.update (is_business id) f s.businesses) s

  abbrev pub update_listing_of : ℕ → (BusinessListing → BusinessListing) → Action (Unit {0})
  update_listing_of id f s = save_listings (prisma.update (listing_of id) f s.listings) s

  found_owned : Option Business → Action OwnedBusiness
  found_owned none s = (err (not_found_exception ErrorCode.business_not_found), s)
  found_owned (some b) s =
      (ok (serialize_business b (prisma.find_first (listing_of b.id) s.listings)), s)

  unfoldable pub find_owned : AuthenticatedUser → ℕ → Action OwnedBusiness
  unfolding found_owned
  find_owned user id s =
      found_owned (keep (is_manageable user) (prisma.find_first (is_business id) s.businesses)) s

  abbrev audit : AuthenticatedUser → String → ℕ → Db → Db
  audit user action id = record_event prisma (record {
    user_id = some user.id;
    action = action;
    target_type = "Business";
    target_id = id;
    ip_address = none;
    metadata = [];
  })

  abbrev is_member : ℕ → ℕ → OrganizationMember → Bool
  is_member organization_id user_id m = m.organization_id == organization_id && m.user_id == user_id

  assert_member : Option ℕ → ℕ → Action (Unit {0})
  assert_member none user_id s = (ok tt, s)
  assert_member (some organization_id) user_id s =
      raise_if
        (not
          (is_some (prisma.find_first (is_member organization_id user_id) s.organization_members)))
        (forbidden_exception ErrorCode.auth_forbidden) s

  -- `slug` is what `uniqueSlug` made of the name.
  unfoldable pub create : AuthenticatedUser → CreateBusinessDto → String → ℕ → Action Business
  unfolding assert_member
  create user dto slug id = do
    assert_member dto.organization_id user.id
    let business = new_business user dto slug id
    modify λ s. record s {
      businesses = prisma.create business s.businesses;
      listings = prisma.create (draft_listing id) s.listings;
    }
    modify (audit user "BUSINESS_CREATED" id)
    pure business

  unfoldable pub soft_delete : AuthenticatedUser → ℕ → ℕ → Action (Unit {0})
  soft_delete user id now = do
    owned ← find_owned user id
    let business = owned.business
    update_business business.id (mark_deleted now)
    modify (audit user "BUSINESS_DELETED" business.id)

  -- What runs inside `$transaction` when a business is put up or taken down.
  unfoldable pub set_both :
      ℕ → (Business → Business) → (BusinessListing → BusinessListing) → Action (Unit {0})
  set_both id f g = do update_business id f; update_listing_of id g

  unfoldable pub publish : AuthenticatedUser → ℕ → ℕ → Action (Unit {0})
  unfolding set_both
  publish user business_id now = do
    owned ← find_owned user business_id
    let business = owned.business
    assert_transition business_state_machine business.status BusinessStatus.pending_review
    let missing = missing_fields business owned.listing
    raise_if (ltb (completeness_score missing) 100)
        (conflict_exception ErrorCode.listing_incomplete)
    prisma.transaction (
        set_both business.id (set_status BusinessStatus.published)
          (publish_listing (completeness_score missing) now))
    modify (audit user "BUSINESS_PUBLISHED" business.id)
    modify λ s. record s {
      outbox = record s.outbox { saved_search_queue = business.id ∷ s.outbox.saved_search_queue };
    }

  unfoldable pub unpublish : AuthenticatedUser → ℕ → Action (Unit {0})
  unfolding set_both
  unpublish user business_id = do
    owned ← find_owned user business_id
    let business = owned.business
    assert_transition business_state_machine business.status BusinessStatus.paused
    prisma.transaction (set_both business.id (set_status BusinessStatus.paused) unpublish_listing)
    modify (audit user "BUSINESS_UNPUBLISHED" business.id)

module _ (prisma : Prisma) (numbers : Numbers) where
  -- `dto.askingPrice !== undefined ? toMinorUnits(dto.askingPrice) : undefined`
  asking_price_minor : Option numbers.Num → Option ℕ
  asking_price_minor none = none
  asking_price_minor (some price) = some (to_minor_units numbers price)

  -- An undefined field of an update leaves the column alone.
  unfoldable pub change_listing : UpdateListingDto numbers.Num → BusinessListing → BusinessListing
  unfolding asking_price_minor
  change_listing dto l = record l {
    asking_price_minor = or_maybe (asking_price_minor dto.asking_price) l.asking_price_minor;
    currency = or_else dto.currency l.currency;
    headline = or_maybe dto.headline l.headline;
    visibility = or_else dto.visibility l.visibility;
  }

  unfoldable pub update_listing :
      AuthenticatedUser → ℕ → UpdateListingDto numbers.Num → Action (Unit {0})
  update_listing user business_id dto = do
    owned ← find_owned prisma user business_id
    let business = owned.business
    update_listing_of prisma business.id (change_listing dto)
