-- ===== src/Offers/Settled.antt =====
-- What an acceptance leaves behind for the other buyers of the business.
use idea_project.Base.{
  ℕ, ◌≡◌, ◌≤◌, sym, ◌∙◌, refl, Bool, false, ◌==◌, nat_eq, ◌&&◌, includes, any, count, List, [], ◌∷◌,
  arith, update_where,
}
use idea_project.Schema.{Db, Offer, OfferStatus, offer_status_eq, Deal}
use idea_project.Common.{ok, AuthenticatedUser}
use idea_project.Common.Prisma.{Prisma}
use idea_project.Offers.Queries.{open_offer_statuses, respond}
use idea_project.Offers.Create.{is_offer}
use idea_project.Offers.Accept.{accept_transaction, is_claimable, is_rival_offer}
use idea_project.Offers.Acceptance.{accepted, accept_transaction-acceptance}
use idea_project.Offers.Exclusive.{acceptance-ok}

-- An offer on the business that can still be answered.
abbrev pub is_open_on : ℕ → Offer → Bool
is_open_on business_id o = o.business_id == business_id && includes open_offer_statuses o.status

-- Without a row of the accepted offer's id, every open offer is a rival.
rivals_expire :
    (offer : Offer) (now : ℕ) (os : List Offer)
    → count (is_offer offer.id) os ≡ 0
    → any (is_open_on offer.business_id) (
        update_where
          (is_rival_offer offer)
          (respond OfferStatus.expired now)
          (update_where (is_claimable offer) (respond OfferStatus.accepted now) os))
      ≡ false
rivals_expire offer now [] h = refl
rivals_expire offer now (o ∷ os) h = ground (arith, rivals_expire offer now os)

not_claimable :
    (offer : Offer) (os : List Offer)
    → count (is_offer offer.id) os ≡ 0
    → count (is_claimable offer) os ≡ 0
not_claimable offer [] h = refl
not_claimable offer (o ∷ os) h = ground (arith, not_claimable offer os)

all_answered :
    (offer : Offer) (now : ℕ) (os : List Offer)
    → count (is_offer offer.id) os ≤ 1
    → (count (is_claimable offer) os == 0) ≡ false
    → any (is_open_on offer.business_id) (
        update_where
          (is_rival_offer offer)
          (respond OfferStatus.expired now)
          (update_where (is_claimable offer) (respond OfferStatus.accepted now) os))
      ≡ false
all_answered offer now [] unique h = refl
all_answered offer now (o ∷ os) unique h =
    ground (arith, all_answered offer now os, rivals_expire offer now os, not_claimable offer os)

module _ (prisma : Prisma) where
  -- When the identifier of the offer is unique, a successful acceptance leaves no offer on its
  -- business in a state that can still be answered: SUBMITTED, VIEWED or COUNTERED.
  pub accept_transaction-answers_all :
      (user : AuthenticatedUser) (offer : Offer) (deal_id now : ℕ) (s : Db) {d : Deal} {s' : Db}
      → count (is_offer offer.id) s.offers ≤ 1
      → accept_transaction prisma user offer deal_id now s ≡ (ok d, s')
      → any (is_open_on offer.business_id) s'.offers ≡ false
  unfolding accepted
  accept_transaction-answers_all user offer deal_id now s {d} {s'} unique e =
      let first =
        acceptance-ok user offer deal_id now s
          (sym (accept_transaction-acceptance prisma user offer deal_id now s) ∙ e) in
      ground (arith, first, all_answered offer now s.offers unique first.0.claimable)
