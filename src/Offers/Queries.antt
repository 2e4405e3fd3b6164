-- ===== src/Offers/Queries.antt =====
-- src/offers/offers.service.ts: the requests, the guards and the writes that the methods share.
use idea_project.Base.{
  ℕ, Bool, not, ◌&&◌, Option, none, some, List, [], ◌∷◌, String, ◌==◌, nat_eq, includes,
  if◌then◌else◌,
}
use idea_project.Schema.{Offer, OfferStatus, offer_status_eq, Business, Negotiation}
use idea_project.Common.{
  Action, Error, AuthenticatedUser, ErrorCode, not_found_exception, ok, err, or_raise, keep,
}
use idea_project.Common.Prisma.{Prisma}

-- src/offers/dto/create-offer.dto.ts; a counter-offer has the same fields.
pub record CreateOfferDto (Num : Type 0) : Type 0 where
  pub amount : Num
  pub currency : Option String
  pub terms : Option String

abbrev pub open_offer_statuses : List OfferStatus
open_offer_statuses = OfferStatus.submitted ∷ OfferStatus.viewed ∷ OfferStatus.countered ∷ []

-- `{ id: offer.id, status: { in: OPEN_OFFER_STATUSES } }`
abbrev pub is_open_with_id : ℕ → Offer → Bool
is_open_with_id id o = o.id == id && includes open_offer_statuses o.status

-- `{ id: … }` on the negotiations.
abbrev pub has_id : ℕ → Negotiation → Bool
has_id id n = n.id == id

-- `{ status, respondedAt: new Date() }`
abbrev pub respond : OfferStatus → ℕ → Offer → Offer
respond status now o = record o { status = status; responded_at = some now }

-- `user.id === offer.buyerId ? offer.sellerId : offer.buyerId`
abbrev pub counterparty_id : AuthenticatedUser → Offer → ℕ
counterparty_id user offer = if user.id == offer.buyer_id then offer.seller_id else offer.buyer_id

abbrev pub is_party : AuthenticatedUser → Offer → Bool
is_party user offer = not (not (offer.buyer_id == user.id) && not (offer.seller_id == user.id))

module _ (prisma : Prisma) where
  -- `getParticipantOffer`
  unfoldable pub get_participant_offer : AuthenticatedUser → ℕ → Action Offer
  get_participant_offer user offer_id s =
      or_raise (keep (is_party user) (prisma.find_first (λ o. o.id == offer_id) s.offers))
        (not_found_exception ErrorCode.offer_not_found) s

  -- `updateMany` on the offers, with its count.
  abbrev pub change_offers : (Offer → Bool) → (Offer → Offer) → Action ℕ
  change_offers p f s =
      let r : List Offer × ℕ = prisma.update_many p f s.offers in
      (ok r.1, record s { offers = r.0 })

  abbrev pub change_businesses : (Business → Bool) → (Business → Business) → Action ℕ
  change_businesses p f s =
      let r : List Business × ℕ = prisma.update_many p f s.businesses in
      (ok r.1, record s { businesses = r.0 })

  abbrev pub save_offers : Option (List Offer) → Action (Unit {0})
  save_offers none s = (err Error.record_not_found, s)
  save_offers (some t) s = (ok tt, record s { offers = t })

  abbrev save_negotiations : Option (List Negotiation) → Action (Unit {0})
  save_negotiations none s = (err Error.record_not_found, s)
  save_negotiations (some t) s = (ok tt, record s { negotiations = t })

  -- `update` of the negotiation with an id.
  abbrev pub update_negotiation : ℕ → (Negotiation → Negotiation) → Action (Unit {0})
  update_negotiation id f s = save_negotiations (prisma.update (has_id id) f s.negotiations) s
