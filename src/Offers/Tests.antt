-- ===== src/Offers/Tests.antt =====
-- The theorems on offers at a market with two offers on one business.
use idea_project.Base.{none, true, ◌&&◌, ◌≡◌, refl, arith, any, false, [], ◌∷◌, some, ◌==◌, nat_eq}
use idea_project.Schema.{
  Db, BusinessStatus, Business, Offer, OfferStatus, business_status_eq, offer_status_eq,
}
use idea_project.Common.{ok, err}
use idea_project.Common.Prisma.{list_prisma}
use idea_project.Common.Money.{whole_numbers, to_minor_units}
use idea_project.Offers.Create as Create
use idea_project.Offers.Create.{
  counter_offer, is_offer, is_on_offer, counter_body, first_offer, revision,
}
use idea_project.Offers.Accept.{accept_transaction, accept_body, new_deal}
use idea_project.Offers.Acceptance.{acceptance, already_accepted, accept_transaction-acceptance}
use idea_project.Offers.Exclusive.{accept_transaction-exclusive}
use idea_project.Offers.Settled.{is_open_on, accept_transaction-answers_all}
use idea_project.Offers.Currency.{create-writes}
use idea_project.Offers.Reopened.{counter_body-reopens}
use idea_project.Offers.Read.{serialize_offer}
use idea_project.Samples.{seller, other_buyer, first, second, market, shop, offer_dto}

-- The market after the first offer was accepted as the deal 40 at the time 5.
abbrev sold : Db
sold = (accept_transaction list_prisma seller first 40 5 market).1

accepts_first :
    accept_transaction list_prisma seller first 40 5 market ≡ (ok (new_deal first 40), sold)
unfolding accept_transaction accept_body
accepts_first = refl

accept_transaction-exclusive_example :
    accept_transaction list_prisma seller second 41 6 sold ≡ (err already_accepted, sold)
accept_transaction-exclusive_example =
    accept_transaction-exclusive list_prisma seller seller first second 40 5 41 6 market
      accepts_first refl

accept_transaction-acceptance_example :
    accept_transaction list_prisma seller first 40 5 market ≡ acceptance seller first 40 5 market
accept_transaction-acceptance_example =
    accept_transaction-acceptance list_prisma seller first 40 5 market

accept_transaction-answers_all_example : any (is_open_on 10) sold.offers ≡ false
accept_transaction-answers_all_example =
    accept_transaction-answers_all list_prisma seller first 40 5 market (ground arith) accepts_first

-- The market after one more offer that names no currency.
abbrev offered : Db
offered = (Create.create list_prisma whole_numbers other_buyer 10 offer_dto 32 23 5 market).1

abbrev third : Offer
third =
    first_offer list_prisma whole_numbers other_buyer (shop BusinessStatus.published) 31 offer_dto
      (some "EUR") 23 5

offered_offer :
    Create.create list_prisma whole_numbers other_buyer 10 offer_dto 32 23 5 market
    ≡ (ok (serialize_offer whole_numbers third none), offered)
unfolding Create.create
offered_offer = refl

still_there : any (is_offer 20) sold.offers ≡ true
unfolding accept_transaction accept_body
still_there = refl

counter_body-reopens_example :
    (o : Offer) × ((counter_body list_prisma whole_numbers seller first offer_dto 22 6 sold).0
      ≡ ok o)
    × (any (is_open_on 10) sold.offers ≡ false)
    × (any
          (is_open_on 10)
          (counter_body list_prisma whole_numbers seller first offer_dto 22 6 sold).1.offers
        ≡ true)
    × (any
          (λ p. p.id == 20 && p.status == OfferStatus.accepted)
          (counter_body list_prisma whole_numbers seller first offer_dto 22 6 sold).1.offers
        ≡ false)
    × ((counter_body list_prisma whole_numbers seller first offer_dto 22 6 sold).1.deals
        ≡ sold.deals)
counter_body-reopens_example =
    counter_body-reopens list_prisma whole_numbers seller seller first offer_dto 40 22 5 6 market
      (ground arith) accepts_first still_there

create-writes_example :
    (b : Business) × (o : Offer) × (some (shop BusinessStatus.published) ≡ some b)
    × (b.deleted_at ≡ none)
    × ((b.status == BusinessStatus.published) ≡ true)
    × ((b.owner_id == other_buyer.id) ≡ false)
    × (serialize_offer whole_numbers third none ≡ serialize_offer whole_numbers o none)
    × (o.amount_minor ≡ to_minor_units whole_numbers 450)
    × (o.currency ≡ "EUR")
    × (offered.offers ≡ o ∷ market.offers)
    × (offered.offer_revisions
        ≡ (record {
          offer_id = 23;
          amount_minor = to_minor_units whole_numbers 450;
          currency = "USD";
          terms = offer_dto.terms;
          status = OfferStatus.submitted;
          submitted_by_id = 3;
        })
          ∷ [])
create-writes_example =
    create-writes list_prisma whole_numbers other_buyer 10 offer_dto 32 23 5 market offered_offer
