-- ===== src/Offers/Currency.antt =====
-- The rows that a first offer writes (`create` in src/offers/offers.service.ts).
use idea_project.Base.{
  ℕ, ◌≡◌, true, false, ◌==◌, nat_eq, some, ◌∷◌, arith, or_else, or_maybe, Option-cases, inl, inr,
  refl, none, Option,
}
use idea_project.Schema.{Db, Offer, OfferStatus, Business, BusinessStatus, business_status_eq}
use idea_project.Common.{AuthenticatedUser, ok, keep, keep-some}
use idea_project.Common.Prisma.{Prisma}
use idea_project.Common.Money.{Numbers, to_minor_units}
use idea_project.Offers.Queries.{CreateOfferDto}
use idea_project.Offers.Read.{SerializedOffer, serialize_offer}
use idea_project.Offers.Create.{
  create, first_offer, revision, is_on_offer, is_open_between, listing_currency,
}

kept_on_offer :
    (found : Option Business) (b : Business)
    → keep is_on_offer found ≡ some b
    → (found ≡ some b) × (b.deleted_at ≡ none) × ((b.status == BusinessStatus.published) ≡ true)
kept_on_offer found b e =
    let (same, passes) = keep-some is_on_offer found b e in
    elim (Option-cases b.deleted_at) [
      | inl alive ↦ (same, alive, ground arith)
      | inr (t, gone) ↦ absurd (ground arith)
    ]

module _ (prisma : Prisma) (numbers : Numbers) where
  -- An offer is made only on a business that is published, not deleted and not the caller's own; the
  -- answer is the new row, serialized. The row and its one revision both hold the rounded amount, but
  -- their currencies are chosen apart: the offer takes the currency of the listing where the request
  -- names none, the revision USD.
  pub create-writes :
      (user : AuthenticatedUser) (business_id : ℕ) (dto : CreateOfferDto numbers.Num)
      (negotiation_id offer_id now : ℕ) (s : Db) {a : SerializedOffer numbers.Num} {s' : Db}
      → create prisma numbers user business_id dto negotiation_id offer_id now s ≡ (ok a, s')
      → (b : Business) × (o : Offer) × (prisma.find_first (λ b. b.id == business_id) s.businesses
          ≡ some b)
        × (b.deleted_at ≡ none)
        × ((b.status == BusinessStatus.published) ≡ true)
        × ((b.owner_id == user.id) ≡ false)
        × (a ≡ serialize_offer numbers o none)
        × (o.amount_minor ≡ to_minor_units numbers dto.amount)
        × (o.currency
            ≡ or_else
                (or_maybe dto.currency (
                  listing_currency
                    (prisma.find_first (λ l. l.business_id == business_id) s.listings)))
                "USD")
        × (s'.offers ≡ o ∷ s.offers)
        × (s'.offer_revisions
            ≡ (record {
              offer_id = offer_id;
              amount_minor = to_minor_units numbers dto.amount;
              currency = or_else dto.currency "USD";
              terms = dto.terms;
              status = OfferStatus.submitted;
              submitted_by_id = user.id;
            })
              ∷ s.offer_revisions)
  unfolding create
  create-writes user business_id dto negotiation_id offer_id now s e =
      elim (Option-cases
        (keep is_on_offer (prisma.find_first (λ b. b.id == business_id) s.businesses))) [
          | inl none_found ↦ ground arith
          | inr (b, found) ↦
              let (there, alive, published) =
                kept_on_offer (prisma.find_first (λ b. b.id == business_id) s.businesses) b found in
              elim (Option-cases
                (prisma.find_first (is_open_between business_id user.id) s.negotiations)) [
                  | inl fresh ↦
                      let o =
                        first_offer prisma numbers user b negotiation_id dto
                          (listing_currency
                            (prisma.find_first (λ l. l.business_id == business_id) s.listings))
                          offer_id now in
                      let add = prisma.create_lem o s.offers in
                      let rev =
                        prisma.create_lem (revision prisma numbers o (or_else dto.currency "USD"))
                          s.offer_revisions in
                      (
                        b,
                        o,
                        there,
                        alive,
                        published,
                        ground arith,
                        ground arith,
                        refl,
                        refl,
                        ground (arith, add),
                        ground (arith, rev),
                      )
                  | inr (n, old) ↦
                      let o =
                        first_offer prisma numbers user b n.id dto
                          (listing_currency
                            (prisma.find_first (λ l. l.business_id == business_id) s.listings))
                          offer_id now in
                      let add = prisma.create_lem o s.offers in
                      let rev =
                        prisma.create_lem (revision prisma numbers o (or_else dto.currency "USD"))
                          s.offer_revisions in
                      (
                        b,
                        o,
                        there,
                        alive,
                        published,
                        ground arith,
                        ground arith,
                        refl,
                        refl,
                        ground (arith, add),
                        ground (arith, rev),
                      )
                ]
        ]
