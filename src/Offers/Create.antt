-- ===== src/Offers/Create.antt =====
-- `create` and `counter` of `OffersService` (src/offers/offers.service.ts).
use Prim.Native.String.{◌++◌}
use idea_project.Base.{
  ℕ, Bool, not, ◌&&◌, Option, none, some, [], ◌∷◌, String, ◌==◌, nat_eq, includes, is_some, or_else,
  or_maybe,
}
use idea_project.Schema.{
  Db, Offer, OfferStatus, offer_status_eq, OfferRevision, Business, BusinessStatus,
  business_status_eq, BusinessListing, Negotiation, NegotiationStatus, negotiation_status_eq,
  NotificationType, key,
}
use idea_project.Common.{
  Action, ok, AuthenticatedUser, ErrorCode, not_found_exception, forbidden_exception,
  conflict_exception, ◌>>=◌, ◌>>◌, pure, gets, raise_if, modify, or_raise, keep,
}
use idea_project.Common.Prisma.{Prisma}
use idea_project.Common.Money.{Numbers, to_minor_units}
use idea_project.Common.Notify.{notify, record_event}
use idea_project.Offers.Read.{SerializedOffer, serialize_offer}
use idea_project.Offers.Queries.{
  CreateOfferDto, open_offer_statuses, respond, counterparty_id, get_participant_offer, save_offers,
}

-- `!business || business.deletedAt || business.status !== PUBLISHED`, negated.
abbrev pub is_on_offer : Business → Bool
is_on_offer b = not (is_some b.deleted_at) && b.status == BusinessStatus.published

-- `business.listing?.currency`
abbrev pub listing_currency : Option BusinessListing → Option String
listing_currency none = none
listing_currency (some l) = some l.currency

abbrev pub is_open_between : ℕ → ℕ → Negotiation → Bool
is_open_between business_id buyer_id n =
    n.business_id == business_id
    && n.buyer_id == buyer_id
    && n.status == NegotiationStatus.open_status

abbrev pub is_offer : ℕ → Offer → Bool
is_offer id o = o.id == id

module _ (prisma : Prisma) (numbers : Numbers) where
  add_negotiation : Negotiation → Action Negotiation
  add_negotiation n s = (ok n, record s { negotiations = prisma.create n s.negotiations })

  use_negotiation : Option Negotiation → Negotiation → Action Negotiation
  unfolding add_negotiation
  use_negotiation none fresh s = add_negotiation fresh s
  use_negotiation (some n) fresh s = (ok n, s)

  abbrev pub first_offer :
      AuthenticatedUser → Business → ℕ → CreateOfferDto numbers.Num → Option String → ℕ → ℕ → Offer
  first_offer user business negotiation_id dto listed id now = record {
    id = id;
    negotiation_id = negotiation_id;
    business_id = business.id;
    buyer_id = user.id;
    seller_id = business.owner_id;
    parent_offer_id = none;
    amount_minor = to_minor_units numbers dto.amount;
    currency = or_else (or_maybe dto.currency listed) "USD";
    terms = dto.terms;
    status = OfferStatus.submitted;
    created_by_id = user.id;
    submitted_at = some now;
    responded_at = none;
  }

  abbrev pub revision : Offer → String → OfferRevision
  revision offer currency = record {
    offer_id = offer.id;
    amount_minor = offer.amount_minor;
    currency = currency;
    terms = offer.terms;
    status = OfferStatus.submitted;
    submitted_by_id = offer.created_by_id;
  }

  -- `offer.create` with its nested revision.
  abbrev add_offer : Offer → OfferRevision → Db → Db
  add_offer offer rev s = record s {
    offers = prisma.create offer s.offers;
    offer_revisions = prisma.create rev s.offer_revisions;
  }

  unfoldable pub create :
      AuthenticatedUser
      → ℕ
      → CreateOfferDto numbers.Num
      → ℕ
      → ℕ
      → ℕ
      → Action (SerializedOffer numbers.Num)
  unfolding use_negotiation
  create user business_id dto negotiation_id offer_id now = do
    found ← gets λ s. keep is_on_offer (prisma.find_first (λ b. b.id == business_id) s.businesses)
    business ← or_raise found (not_found_exception ErrorCode.business_not_found)
    raise_if (business.owner_id == user.id) (forbidden_exception ErrorCode.offer_not_allowed)
    listing ← gets λ s. prisma.find_first (λ l. l.business_id == business_id) s.listings
    existing ← gets λ s. prisma.find_first (is_open_between business_id user.id) s.negotiations
    negotiation ← use_negotiation existing (record {
      id = negotiation_id;
      business_id = business_id;
      buyer_id = user.id;
      seller_id = business.owner_id;
      status = NegotiationStatus.open_status;
    })
    let offer = first_offer user business negotiation.id dto (listing_currency listing) offer_id now
    modify (add_offer offer (revision offer (or_else dto.currency "USD")))
    modify (
        notify prisma (record {
          user_id = business.owner_id;
          type = NotificationType.new_offer;
          title = "New offer on " ++ business.name;
          body = none;
          metadata = ("businessId", key business_id) ∷ ("offerId", key offer_id) ∷ [];
        }))
    modify (
        record_event prisma (record {
          user_id = some user.id;
          action = "OFFER_CREATED";
          target_type = "Offer";
          target_id = offer_id;
          ip_address = none;
          metadata = [];
        }))
    pure (serialize_offer numbers offer none)

  abbrev pub counter_offer : AuthenticatedUser → Offer → CreateOfferDto numbers.Num → ℕ → ℕ → Offer
  counter_offer user parent dto id now = record {
    id = id;
    negotiation_id = parent.negotiation_id;
    business_id = parent.business_id;
    buyer_id = parent.buyer_id;
    seller_id = parent.seller_id;
    parent_offer_id = some parent.id;
    amount_minor = to_minor_units numbers dto.amount;
    currency = or_else dto.currency parent.currency;
    terms = dto.terms;
    status = OfferStatus.submitted;
    created_by_id = user.id;
    submitted_at = some now;
    responded_at = none;
  }

  -- What runs inside `$transaction`.
  unfoldable pub counter_body :
      AuthenticatedUser → Offer → CreateOfferDto numbers.Num → ℕ → ℕ → Action Offer
  counter_body user parent dto id now = do
    λ s.
        save_offers prisma
          (prisma.update (is_offer parent.id) (respond OfferStatus.countered now) s.offers) s
    let offer = counter_offer user parent dto id now
    modify (add_offer offer (revision offer offer.currency))
    pure offer

  unfoldable pub counter :
      AuthenticatedUser
      → ℕ
      → CreateOfferDto numbers.Num
      → ℕ
      → ℕ
      → Action (SerializedOffer numbers.Num)
  counter user offer_id dto id now = do
    parent ← get_participant_offer prisma user offer_id
    raise_if (not (includes open_offer_statuses parent.status))
        (conflict_exception ErrorCode.offer_invalid_state_transition)
    raise_if (parent.created_by_id == user.id) (forbidden_exception ErrorCode.offer_not_allowed)
    offer ← prisma.transaction (counter_body user parent dto id now)
    modify (
        notify prisma (record {
          user_id = counterparty_id user parent;
          type = NotificationType.counter_offer;
          title = "You received a counter-offer";
          body = none;
          metadata = ("offerId", key offer.id) ∷ [];
        }))
    pure (serialize_offer numbers offer none)
