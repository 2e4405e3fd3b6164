-- ===== src/Offers/Read.antt =====
-- `listForUser`, `findOne` and `serializeOffer` of `OffersService` (src/offers/offers.service.ts).
-- The orders of the answers (`orderBy`) are left out, and so is the business that is joined to them.
use idea_project.Base.{ℕ, ◌||◌, Option, none, some, List, String, ◌==◌, nat_eq, map}
use idea_project.Schema.{Db, Offer, OfferStatus, OfferRevision}
use idea_project.Common.{Action, AuthenticatedUser, ◌>>=◌, gets}
use idea_project.Common.Prisma.{Prisma}
use idea_project.Common.Money.{Numbers, to_major_units}
use idea_project.Offers.Queries.{get_participant_offer}

-- A row as it is returned: `amount` in place of `amountMinor`.
pub record SerializedRevision (Num : Type 0) : Type 0 where
  pub offer_id : ℕ
  pub amount : Num
  pub currency : String
  pub terms : Option String
  pub status : OfferStatus
  pub submitted_by_id : ℕ

pub record SerializedOffer (Num : Type 0) : Type 0 where
  pub id : ℕ
  pub negotiation_id : ℕ
  pub business_id : ℕ
  pub buyer_id : ℕ
  pub seller_id : ℕ
  pub parent_offer_id : Option ℕ
  pub amount : Num
  pub currency : String
  pub terms : Option String
  pub status : OfferStatus
  pub created_by_id : ℕ
  pub submitted_at : Option ℕ
  pub responded_at : Option ℕ
  pub revisions : Option (List (SerializedRevision Num))

module _ (numbers : Numbers) where
  unfoldable pub serialize_revision : OfferRevision → SerializedRevision numbers.Num
  serialize_revision r = record {
    offer_id = r.offer_id;
    amount = to_major_units numbers r.amount_minor;
    currency = r.currency;
    terms = r.terms;
    status = r.status;
    submitted_by_id = r.submitted_by_id;
  }

  serialize_revisions : Option (List OfferRevision) → Option (List (SerializedRevision numbers.Num))
  serialize_revisions none = none
  serialize_revisions (some rs) = some (map serialize_revision rs)

  unfoldable pub serialize_offer : Offer → Option (List OfferRevision) → SerializedOffer numbers.Num
  unfolding serialize_revisions
  serialize_offer o revisions = record {
    id = o.id;
    negotiation_id = o.negotiation_id;
    business_id = o.business_id;
    buyer_id = o.buyer_id;
    seller_id = o.seller_id;
    parent_offer_id = o.parent_offer_id;
    amount = to_major_units numbers o.amount_minor;
    currency = o.currency;
    terms = o.terms;
    status = o.status;
    created_by_id = o.created_by_id;
    submitted_at = o.submitted_at;
    responded_at = o.responded_at;
    revisions = serialize_revisions revisions;
  }

module _ (prisma : Prisma) (numbers : Numbers) where
  unfoldable pub list_for_user : AuthenticatedUser → Action (List (SerializedOffer numbers.Num))
  list_for_user user = gets λ s.
      map (λ o. serialize_offer numbers o none)
        (prisma.find_many (λ o. o.buyer_id == user.id || o.seller_id == user.id) s.offers)

  serialize_found : Db → Option Offer → Option (SerializedOffer numbers.Num)
  serialize_found s none = none
  serialize_found s (some o) = some (
      serialize_offer numbers o
        (some (prisma.find_many (λ r. r.offer_id == o.id) s.offer_revisions)))

  unfoldable pub find_one : AuthenticatedUser → ℕ → Action (Option (SerializedOffer numbers.Num))
  unfolding serialize_found
  find_one user id = do
    offer ← get_participant_offer prisma user id
    gets λ s. serialize_found s (prisma.find_first (λ o. o.id == offer.id) s.offers)
