-- ===== src/Offers/Guards.antt =====
-- Who may answer an offer: the guards of `accept`, `reject`, `withdraw` and `counter`
-- (src/offers/offers.service.ts).
use idea_project.Base.{ℕ, ◌≡◌, true, false, none, some, ◌==◌, nat_eq, arith, includes, update_where}
use idea_project.Schema.{Db, Offer, OfferStatus, offer_status_eq}
use idea_project.Common.{
  AuthenticatedUser, ErrorCode, err, keep, not_found_exception, forbidden_exception,
}
use idea_project.Common.Prisma.{Prisma}
use idea_project.Common.Money.{Numbers}
use idea_project.Offers.Queries.{
  CreateOfferDto, is_party, get_participant_offer, open_offer_statuses, respond, is_open_with_id,
}
use idea_project.Offers.Accept.{accept}
use idea_project.Offers.Respond.{reject, withdraw}
use idea_project.Offers.Create.{counter}

module _ (prisma : Prisma) (numbers : Numbers) where
  -- For a user who is neither the buyer nor the seller of the offer that is found, or when none is
  -- found, accepting, rejecting, withdrawing and countering all answer OFFER_NOT_FOUND and change
  -- nothing.
  outsider-refused :
      (user : AuthenticatedUser) (offer_id : ℕ) (dto : CreateOfferDto numbers.Num) (id now : ℕ)
      (s : Db)
      → keep (is_party user) (prisma.find_first (λ o. o.id == offer_id) s.offers) ≡ none
      → (accept prisma user offer_id id now s
          ≡ (err (not_found_exception ErrorCode.offer_not_found), s))
        × (reject prisma user offer_id now s
            ≡ (err (not_found_exception ErrorCode.offer_not_found), s))
        × (withdraw prisma user offer_id now s
            ≡ (err (not_found_exception ErrorCode.offer_not_found), s))
        × (counter prisma numbers user offer_id dto id now s
            ≡ (err (not_found_exception ErrorCode.offer_not_found), s))
  unfolding accept reject withdraw counter get_participant_offer
  outsider-refused user offer_id dto id now s e =
      (ground arith, ground arith, ground arith, ground arith)

  -- An open offer is answered by the other party: whoever made it gets OFFER_NOT_ALLOWED from
  -- accepting, rejecting and countering it, and the database stays as it was.
  author-refused :
      (user : AuthenticatedUser) (offer_id : ℕ) (offer : Offer) (dto : CreateOfferDto numbers.Num)
      (id now : ℕ) (s : Db)
      → keep (is_party user) (prisma.find_first (λ o. o.id == offer_id) s.offers) ≡ some offer
      → (offer.created_by_id == user.id) ≡ true
      → includes open_offer_statuses offer.status ≡ true
      → (accept prisma user offer_id id now s
          ≡ (err (forbidden_exception ErrorCode.offer_not_allowed), s))
        × (reject prisma user offer_id now s
            ≡ (err (forbidden_exception ErrorCode.offer_not_allowed), s))
        × (counter prisma numbers user offer_id dto id now s
            ≡ (err (forbidden_exception ErrorCode.offer_not_allowed), s))
  unfolding accept reject counter get_participant_offer
  author-refused user offer_id offer dto id now s e own open_offer =
      (ground arith, ground arith, ground arith)

  -- The other party may not withdraw an offer, which changes nothing, but may reject it: the rows with
  -- its identifier that are open become REJECTED, and no other offer changes.
  reject-open :
      (user : AuthenticatedUser) (offer_id : ℕ) (offer : Offer) (now : ℕ) (s : Db)
      → keep (is_party user) (prisma.find_first (λ o. o.id == offer_id) s.offers) ≡ some offer
      → (offer.created_by_id == user.id) ≡ false
      → (withdraw prisma user offer_id now s
          ≡ (err (forbidden_exception ErrorCode.offer_not_allowed), s))
        × ((reject prisma user offer_id now s).1.offers
            ≡ update_where (is_open_with_id offer.id) (respond OfferStatus.rejected now) s.offers)
  unfolding reject withdraw get_participant_offer
  reject-open user offer_id offer now s e other = (
    ground arith,
    ground (
      arith,
      prisma.update_many_lem (is_open_with_id offer.id) (respond OfferStatus.rejected now) s.offers,
    ),
  )
