-- ===== src/Offers/Reopened.antt =====
-- A counter-offer that comes after the acceptance of its parent (`accept` and the transaction of
-- `counter` in src/offers/offers.service.ts).
use idea_project.Base.{
  ℕ, ◌≡◌, ◌≤◌, true, false, ◌==◌, nat_eq, any, count, arith, update_where, List, [], ◌∷◌, refl,
  ◌&&◌,
}
use idea_project.Schema.{Db, Offer, OfferStatus, offer_status_eq, Deal}
use idea_project.Common.{AuthenticatedUser, ok}
use idea_project.Common.Prisma.{Prisma}
use idea_project.Common.Money.{Numbers}
use idea_project.Offers.Queries.{CreateOfferDto, respond}
use idea_project.Offers.Create.{counter_body, counter_offer, is_offer}
use idea_project.Offers.Accept.{accept_transaction}
use idea_project.Offers.Settled.{is_open_on, accept_transaction-answers_all}

none_accepted :
    (id later : ℕ) (os : List Offer)
    → any
        (λ p. p.id == id && p.status == OfferStatus.accepted)
        (update_where (is_offer id) (respond OfferStatus.countered later) os)
      ≡ false
none_accepted id later [] = refl
none_accepted id later (o ∷ os) = ground (arith, none_accepted id later os)

module _ (prisma : Prisma) (numbers : Numbers) where
  -- When an offer with a unique identifier is accepted and a counter-offer to it, which had read the
  -- offer before, runs its transaction afterwards, the transaction succeeds: the business had no offer
  -- left that can be answered, and now has one again, and no offer with the accepted one's identifier
  -- is ACCEPTED any more. The deal stays.
  pub counter_body-reopens :
      (seller user : AuthenticatedUser) (parent : Offer) (dto : CreateOfferDto numbers.Num)
      (deal_id id now later : ℕ) (s : Db) {d : Deal} {s' : Db}
      → count (is_offer parent.id) s.offers ≤ 1
      → accept_transaction prisma seller parent deal_id now s ≡ (ok d, s')
      → any (is_offer parent.id) s'.offers ≡ true
      → (o : Offer) × ((counter_body prisma numbers user parent dto id later s').0 ≡ ok o)
        × (any (is_open_on parent.business_id) s'.offers ≡ false)
        × (any
              (is_open_on parent.business_id)
              (counter_body prisma numbers user parent dto id later s').1.offers
            ≡ true)
        × (any
              (λ p. p.id == parent.id && p.status == OfferStatus.accepted)
              (counter_body prisma numbers user parent dto id later s').1.offers
            ≡ false)
        × ((counter_body prisma numbers user parent dto id later s').1.deals ≡ s'.deals)
  unfolding counter_body
  counter_body-reopens seller user parent dto deal_id id now later s {d} {s'} unique e there =
      let o = counter_offer prisma numbers user parent dto id later in
      let change =
        prisma.update_lem (is_offer parent.id) (respond OfferStatus.countered later) s'.offers in
      let add =
        prisma.create_lem o
          (update_where (is_offer parent.id) (respond OfferStatus.countered later) s'.offers) in
      (
        o,
        ground (arith, change),
        accept_transaction-answers_all prisma seller parent deal_id now s unique e,
        ground (arith, change, add),
        ground (arith, change, add, none_accepted parent.id later s'.offers),
        ground (arith, change),
      )
