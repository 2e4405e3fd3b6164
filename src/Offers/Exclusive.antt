-- ===== src/Offers/Exclusive.antt =====
-- Two acceptances of offers for one business never both succeed.
use idea_project.Base.{ℕ, ◌≡◌, sym, ◌∙◌, true, false, ◌==◌, nat_eq, any, count, arith}
use idea_project.Base.Updates.{any-update_where_self, count-zero_of_any}
use idea_project.Schema.{Db, Offer, offer_status_eq, Deal}
use idea_project.Common.{ok, err, AuthenticatedUser}
use idea_project.Common.Prisma.{Prisma}
use idea_project.Offers.Accept.{
  accept_transaction, new_deal, is_for_sale, sell_business, is_claimable, is_listing_of, is_deal_of,
}
use idea_project.Offers.Queries.{has_id}
use idea_project.Offers.Acceptance.{
  accepted, acceptance, already_accepted, accept_transaction-acceptance,
}

-- What a successful acceptance had found.
pub record Accepts (user : AuthenticatedUser) (offer : Offer) (deal_id now : ℕ) (s : Db)
    : Type 0 where
  pub claimable : (count (is_claimable offer) s.offers == 0) ≡ false
  pub for_sale : (count (is_for_sale offer.business_id) s.businesses == 0) ≡ false
  pub listed : any (is_listing_of offer.business_id) s.listings ≡ true
  pub negotiated : any (has_id offer.negotiation_id) s.negotiations ≡ true
  pub fresh_deal : any (is_deal_of deal_id offer) s.deals ≡ false

pub acceptance-ok :
    (user : AuthenticatedUser) (offer : Offer) (deal_id now : ℕ) (s : Db) {d : Deal} {s' : Db}
    → acceptance user offer deal_id now s ≡ (ok d, s')
    → Accepts user offer deal_id now s
      × (d ≡ new_deal offer deal_id)
      × (s' ≡ accepted user offer deal_id now s)
unfolding acceptance
acceptance-ok user offer deal_id now s e = ground arith

-- After an acceptance nothing of the business is for sale.
pub for_sale-accepted :
    (user : AuthenticatedUser) (offer : Offer) (deal_id now : ℕ) (s : Db)
    → count (is_for_sale offer.business_id) (accepted user offer deal_id now s).businesses ≡ 0
unfolding accepted
for_sale-accepted user offer deal_id now s = count-zero_of_any (is_for_sale offer.business_id) _ (
    any-update_where_self (is_for_sale offer.business_id) sell_business s.businesses
      (λ b h. ground arith))

-- Whoever asks, and whatever the second offer was when it was read.
unsold_fails :
    (user : AuthenticatedUser) (offer : Offer) (deal_id now : ℕ) (s : Db)
    → count (is_for_sale offer.business_id) s.businesses ≡ 0
    → acceptance user offer deal_id now s ≡ (err already_accepted, s)
unfolding acceptance
unsold_fails user offer deal_id now s h = ground arith

module _ (prisma : Prisma) where
  -- Once the transaction of `accept` has succeeded for an offer, the transaction of `accept` for
  -- any offer on the same business, by any user and however that offer was read before, throws
  -- OFFER_ALREADY_ACCEPTED and changes nothing.
  pub accept_transaction-exclusive :
      (user other : AuthenticatedUser) (offer rival : Offer) (deal_id now deal_id' now' : ℕ)
      (s : Db) {d : Deal} {s' : Db}
      → accept_transaction prisma user offer deal_id now s ≡ (ok d, s')
      → rival.business_id ≡ offer.business_id
      → accept_transaction prisma other rival deal_id' now' s' ≡ (err already_accepted, s')
  accept_transaction-exclusive user other offer rival deal_id now deal_id' now' s {d} {s'} e same =
      let first =
        acceptance-ok user offer deal_id now s
          (sym (accept_transaction-acceptance prisma user offer deal_id now s) ∙ e) in
      accept_transaction-acceptance prisma other rival deal_id' now' s'
      ∙ unsold_fails other rival deal_id' now' s'
          (rw (same, first.2) (for_sale-accepted user offer deal_id now s))
