-- ===== src/Offers/Accept.antt =====
-- `OffersService.accept` (src/offers/offers.service.ts).
use idea_project.Base.{
  ℕ, Bool, not, ◌&&◌, ◌||◌, Option, none, some, List, [], ◌∷◌, ◌==◌, nat_eq, includes,
}
use idea_project.Schema.{
  Db, Offer, OfferStatus, offer_status_eq, Business, BusinessStatus, business_status_eq,
  BusinessListing, ListingStatus, Negotiation, NegotiationStatus, negotiation_status_eq, Deal,
  DealStatus, DealParticipant, DealParticipantRole, DealTimelineEvent, key,
}
use idea_project.Common.{
  Action, ok, err, Error, AuthenticatedUser, ErrorCode, conflict_exception, forbidden_exception,
  ◌>>=◌, ◌>>◌, pure, raise_if, modify,
}
use idea_project.Common.Prisma.{Prisma}
use idea_project.Common.Notify.{notify, record_event}
use idea_project.Schema.{NotificationType}
use idea_project.Offers.Queries.{
  open_offer_statuses, respond, counterparty_id, get_participant_offer, change_offers,
  change_businesses, update_negotiation,
}

-- An offer with this id that may be accepted.
abbrev pub is_claimable : Offer → Offer → Bool
is_claimable offer o =
    o.id == offer.id && includes (OfferStatus.submitted ∷ OfferStatus.viewed ∷ []) o.status

abbrev pub is_for_sale : ℕ → Business → Bool
is_for_sale id b = b.id == id && b.status == BusinessStatus.published

abbrev pub is_rival_offer : Offer → Offer → Bool
is_rival_offer offer o =
    o.business_id == offer.business_id
    && includes open_offer_statuses o.status
    && not (o.id == offer.id)

abbrev pub is_rival_negotiation : Offer → Negotiation → Bool
is_rival_negotiation offer n =
    n.business_id == offer.business_id
    && n.status == NegotiationStatus.open_status
    && not (n.id == offer.negotiation_id)

abbrev pub is_deal_of : ℕ → Offer → Deal → Bool
is_deal_of deal_id offer d =
    d.id == deal_id || d.negotiation_id == offer.negotiation_id || d.accepted_offer_id == offer.id

-- The `data` of the updates.
abbrev pub sell_business : Business → Business
sell_business b = record b { status = BusinessStatus.sold }

abbrev pub sell_listing : BusinessListing → BusinessListing
sell_listing l = record l { status = ListingStatus.sold }

abbrev pub accept_negotiation : Negotiation → Negotiation
accept_negotiation n = record n { status = NegotiationStatus.accepted }

abbrev pub expire_negotiation : Negotiation → Negotiation
expire_negotiation n = record n { status = NegotiationStatus.expired }

abbrev pub is_listing_of : ℕ → BusinessListing → Bool
is_listing_of id l = l.business_id == id

abbrev pub new_buyer : Offer → ℕ → DealParticipant
new_buyer offer deal_id = record {
  deal_id = deal_id;
  user_id = offer.buyer_id;
  role = DealParticipantRole.buyer;
}

abbrev pub new_seller : Offer → ℕ → DealParticipant
new_seller offer deal_id = record {
  deal_id = deal_id;
  user_id = offer.seller_id;
  role = DealParticipantRole.seller;
}

abbrev pub acceptance_event : AuthenticatedUser → Offer → ℕ → DealTimelineEvent
acceptance_event user offer deal_id = record {
  deal_id = deal_id;
  type = "OFFER_ACCEPTED";
  actor_id = some user.id;
  metadata = ("offerId", key offer.id) ∷ [];
}

abbrev pub new_deal : Offer → ℕ → Deal
new_deal offer deal_id = record {
  id = deal_id;
  business_id = offer.business_id;
  negotiation_id = offer.negotiation_id;
  accepted_offer_id = offer.id;
  buyer_id = offer.buyer_id;
  seller_id = offer.seller_id;
  status = DealStatus.initiated;
}

module _ (prisma : Prisma) where
  -- The conditional update that lets one acceptance through.
  unfoldable pub claim_offer : Offer → ℕ → Action (Unit {0})
  claim_offer offer now = do
    n ← change_offers prisma (is_claimable offer) (respond OfferStatus.accepted now)
    raise_if (n == 0) (conflict_exception ErrorCode.offer_already_accepted)

  claim_business : Offer → Action (Unit {0})
  claim_business offer = do
    n ← change_businesses prisma (is_for_sale offer.business_id) sell_business
    raise_if (n == 0) (conflict_exception ErrorCode.offer_already_accepted)

  save_listings : Option (List BusinessListing) → Action (Unit {0})
  save_listings none s = (err Error.record_not_found, s)
  save_listings (some t) s = (ok tt, record s { listings = t })

  close_listing : Offer → Action (Unit {0})
  unfolding save_listings
  close_listing offer s =
      save_listings (prisma.update (is_listing_of offer.business_id) sell_listing s.listings) s

  -- Any other open negotiation and offer for the business expires.
  expire_rivals : Offer → ℕ → Db → Db
  expire_rivals offer now s = record s {
    negotiations =
        (prisma.update_many (is_rival_negotiation offer) expire_negotiation s.negotiations).0;
    offers =
        (prisma.update_many (is_rival_offer offer) (respond OfferStatus.expired now) s.offers).0;
  }

  save_deals : Option (List Deal) → Action (Unit {0})
  save_deals none s = (err Error.unique_violation, s)
  save_deals (some t) s = (ok tt, record s { deals = t })

  -- The deal with its two participants and its first timeline event.
  open_deal : AuthenticatedUser → Offer → ℕ → Action Deal
  unfolding save_deals
  open_deal user offer deal_id = do
    λ s.
        save_deals
          (prisma.create_unique (is_deal_of deal_id offer) (new_deal offer deal_id) s.deals) s
    modify λ s. record s {
      participants =
          prisma.create (new_seller offer deal_id)
            (prisma.create (new_buyer offer deal_id) s.participants);
      timeline = prisma.create (acceptance_event user offer deal_id) s.timeline;
    }
    pure (new_deal offer deal_id)

  -- What runs inside `$transaction`.
  unfoldable pub accept_body : AuthenticatedUser → Offer → ℕ → ℕ → Action Deal
  unfolding claim_offer claim_business close_listing expire_rivals open_deal
  accept_body user offer deal_id now = do
    claim_offer offer now
    claim_business offer
    close_listing offer
    update_negotiation prisma offer.negotiation_id accept_negotiation
    modify (expire_rivals offer now)
    open_deal user offer deal_id

  unfoldable pub accept_transaction : AuthenticatedUser → Offer → ℕ → ℕ → Action Deal
  accept_transaction user offer deal_id now =
      prisma.transaction (accept_body user offer deal_id now)

  unfoldable pub accept : AuthenticatedUser → ℕ → ℕ → ℕ → Action Deal
  accept user offer_id deal_id now = do
    offer ← get_participant_offer prisma user offer_id
    raise_if (offer.created_by_id == user.id) (forbidden_exception ErrorCode.offer_not_allowed)
    deal ← accept_transaction user offer deal_id now
    modify (
        notify prisma (record {
          user_id = counterparty_id user offer;
          type = NotificationType.offer_accepted;
          title = "Your offer was accepted! A deal room has been created.";
          body = none;
          metadata = ("offerId", key offer.id) ∷ ("dealId", key deal.id) ∷ [];
        }))
    modify (
        record_event prisma (record {
          user_id = some user.id;
          action = "OFFER_ACCEPTED";
          target_type = "Offer";
          target_id = offer.id;
          ip_address = none;
          metadata = ("dealId", key deal.id) ∷ [];
        }))
    pure deal
