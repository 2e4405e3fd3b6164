-- ===== src/Offers/Acceptance.antt =====
-- What the transaction of `OffersService.accept` does, as one equation.
use idea_project.Base.{
  ℕ, ◌≡◌, not, ◌∷◌, ◌==◌, nat_eq, if◌then◌else◌, any, count, update_where, arith, ◌∙◌,
}
use idea_project.Schema.{Db, Offer, OfferStatus, Deal}
use idea_project.Common.{
  Result, ok, err, Error, AuthenticatedUser, ErrorCode, conflict_exception, settle,
}
use idea_project.Common.Prisma.{Prisma}
use idea_project.Offers.Queries.{respond, has_id}
use idea_project.Offers.Accept.{
  accept_body, accept_transaction, new_deal, is_claimable, is_for_sale, is_listing_of,
  is_rival_offer, is_rival_negotiation, is_deal_of, sell_business, sell_listing, accept_negotiation,
  expire_negotiation, new_buyer, new_seller, acceptance_event,
}

-- The database after an acceptance.
unfoldable pub accepted : AuthenticatedUser → Offer → ℕ → ℕ → Db → Db
accepted user offer deal_id now s = record s {
  offers =
      update_where (is_rival_offer offer) (respond OfferStatus.expired now)
        (update_where (is_claimable offer) (respond OfferStatus.accepted now) s.offers);
  businesses = update_where (is_for_sale offer.business_id) sell_business s.businesses;
  listings = update_where (is_listing_of offer.business_id) sell_listing s.listings;
  negotiations =
      update_where (is_rival_negotiation offer) expire_negotiation
        (update_where (has_id offer.negotiation_id) accept_negotiation s.negotiations);
  deals = new_deal offer deal_id ∷ s.deals;
  participants = new_seller offer deal_id ∷ new_buyer offer deal_id ∷ s.participants;
  timeline = acceptance_event user offer deal_id ∷ s.timeline;
}

abbrev pub already_accepted : Error
already_accepted = conflict_exception ErrorCode.offer_already_accepted

-- Which check fails, if one does.
unfoldable pub acceptance : AuthenticatedUser → Offer → ℕ → ℕ → Db → Result Deal × Db
unfolding accepted
acceptance user offer deal_id now s =
    if count (is_claimable offer) s.offers == 0
    then (err already_accepted, s)
    else if count (is_for_sale offer.business_id) s.businesses == 0
    then (err already_accepted, s)
    else if not (any (is_listing_of offer.business_id) s.listings)
    then (err Error.record_not_found, s)
    else if not (any (has_id offer.negotiation_id) s.negotiations)
    then (err Error.record_not_found, s)
    else if any (is_deal_of deal_id offer) s.deals
    then (err Error.unique_violation, s)
    else (ok (new_deal offer deal_id), accepted user offer deal_id now s)

module _ (prisma : Prisma) where
  accept_body-settles :
      (user : AuthenticatedUser) (offer : Offer) (deal_id now : ℕ) (s : Db)
      → settle s (accept_body prisma user offer deal_id now s) ≡ acceptance user offer deal_id now s
  unfolding accept_body acceptance
  accept_body-settles user offer deal_id now s = ground (
    arith,
    prisma.update_many_lem (is_claimable offer) (respond OfferStatus.accepted now) s.offers,
    prisma.update_many_lem (is_for_sale offer.business_id) sell_business s.businesses,
    prisma.update_lem (is_listing_of offer.business_id) sell_listing s.listings,
    prisma.update_lem (has_id offer.negotiation_id) accept_negotiation s.negotiations,
    prisma.update_many_lem (is_rival_offer offer) (respond OfferStatus.expired now)
        (update_where (is_claimable offer) (respond OfferStatus.accepted now) s.offers),
    prisma.update_many_lem (is_rival_negotiation offer) expire_negotiation
        (update_where (has_id offer.negotiation_id) accept_negotiation s.negotiations),
    prisma.create_unique_lem (is_deal_of deal_id offer) (new_deal offer deal_id) s.deals,
    prisma.create_lem (new_buyer offer deal_id) s.participants,
    prisma.create_lem (new_seller offer deal_id) (new_buyer offer deal_id ∷ s.participants),
    prisma.create_lem (acceptance_event user offer deal_id) s.timeline,
  )

  -- The transaction of `accept` succeeds exactly when each of its five checks does, leaves the
  -- database of `accepted` then, and otherwise throws the first error and changes nothing.
  pub accept_transaction-acceptance :
      (user : AuthenticatedUser) (offer : Offer) (deal_id now : ℕ) (s : Db)
      → accept_transaction prisma user offer deal_id now s ≡ acceptance user offer deal_id now s
  unfolding accept_transaction
  accept_transaction-acceptance user offer deal_id now s =
      prisma.transaction_lem (accept_body prisma user offer deal_id now) s
      ∙ accept_body-settles user offer deal_id now s
