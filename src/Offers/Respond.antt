-- ===== src/Offers/Respond.antt =====
-- `reject` and `withdraw` of `OffersService` (src/offers/offers.service.ts).
use idea_project.Base.{ℕ, not, none, [], ◌∷◌, ◌==◌, nat_eq}
use idea_project.Schema.{OfferStatus, Negotiation, NegotiationStatus, NotificationType, key}
use idea_project.Common.{
  Action, AuthenticatedUser, ErrorCode, forbidden_exception, conflict_exception, ◌>>=◌, ◌>>◌,
  raise_if, modify,
}
use idea_project.Common.Prisma.{Prisma}
use idea_project.Common.Notify.{notify}
use idea_project.Offers.Queries.{
  respond, is_open_with_id, counterparty_id, get_participant_offer, change_offers,
  update_negotiation,
}

abbrev pub reject_negotiation : Negotiation → Negotiation
reject_negotiation n = record n { status = NegotiationStatus.rejected }

abbrev pub withdraw_negotiation : Negotiation → Negotiation
withdraw_negotiation n = record n { status = NegotiationStatus.withdrawn }

module _ (prisma : Prisma) where
  unfoldable pub reject : AuthenticatedUser → ℕ → ℕ → Action (Unit {0})
  reject user offer_id now = do
    offer ← get_participant_offer prisma user offer_id
    raise_if (offer.created_by_id == user.id) (forbidden_exception ErrorCode.offer_not_allowed)
    n ← change_offers prisma (is_open_with_id offer.id) (respond OfferStatus.rejected now)
    raise_if (n == 0) (conflict_exception ErrorCode.offer_invalid_state_transition)
    update_negotiation prisma offer.negotiation_id reject_negotiation
    modify (
        notify prisma (record {
          user_id = counterparty_id user offer;
          type = NotificationType.offer_rejected;
          title = "Your offer was rejected";
          body = none;
          metadata = ("offerId", key offer.id) ∷ [];
        }))

  unfoldable pub withdraw : AuthenticatedUser → ℕ → ℕ → Action (Unit {0})
  withdraw user offer_id now = do
    offer ← get_participant_offer prisma user offer_id
    raise_if (not (offer.created_by_id == user.id))
        (forbidden_exception ErrorCode.offer_not_allowed)
    n ← change_offers prisma (is_open_with_id offer.id) (respond OfferStatus.withdrawn now)
    raise_if (n == 0) (conflict_exception ErrorCode.offer_invalid_state_transition)
    update_negotiation prisma offer.negotiation_id withdraw_negotiation
