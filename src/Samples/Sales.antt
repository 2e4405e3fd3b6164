-- ===== src/Samples/Sales.antt =====
-- A seller with one business on sale, two buyers' offers on it, and a deal.
use idea_project.Base.{ℕ, true, false, none, some, [], ◌∷◌, nat_eq}
use idea_project.Schema.{
  Db, Business, BusinessStatus, BusinessListing, ListingStatus, ListingVisibility, Negotiation,
  NegotiationStatus, Offer, OfferStatus, Deal, DealStatus, DealParticipant, DealParticipantRole,
  Agreement, AgreementStatus,
}
use idea_project.Offers.Queries.{CreateOfferDto}
use idea_project.Samples.Empty.{empty_db}

abbrev pub shop : BusinessStatus → Business
shop status = record {
  id = 10;
  owner_id = 1;
  organization_id = none;
  category_id = some 5;
  name = "Shop";
  slug = "shop";
  description = some "A shop";
  business_model = some "retail";
  founded_at = none;
  country = none;
  website = none;
  status = status;
  deleted_at = none;
}

abbrev pub shop_listing : ListingStatus → BusinessListing
shop_listing status = record {
  business_id = 10;
  status = status;
  visibility = ListingVisibility.private;
  asking_price_minor = some 50000;
  currency = "EUR";
  headline = none;
  completeness_score = 100;
  published_at = some 1;
}

abbrev pub negotiation : ℕ → ℕ → Negotiation
negotiation id buyer_id = record {
  id = id;
  business_id = 10;
  buyer_id = buyer_id;
  seller_id = 1;
  status = NegotiationStatus.open_status;
}

abbrev pub offer_of : ℕ → ℕ → ℕ → Offer
offer_of id negotiation_id buyer_id = record {
  id = id;
  negotiation_id = negotiation_id;
  business_id = 10;
  buyer_id = buyer_id;
  seller_id = 1;
  parent_offer_id = none;
  amount_minor = 40000;
  currency = "EUR";
  terms = none;
  status = OfferStatus.submitted;
  created_by_id = buyer_id;
  submitted_at = some 1;
  responded_at = none;
}

abbrev pub first : Offer
first = offer_of 20 30 2

abbrev pub second : Offer
second = offer_of 21 31 3

-- The business is on sale with two offers.
abbrev pub market : Db
market = record empty_db {
  businesses = shop BusinessStatus.published ∷ [];
  listings = shop_listing ListingStatus.published ∷ [];
  negotiations = negotiation 30 2 ∷ negotiation 31 3 ∷ [];
  offers = first ∷ second ∷ [];
}

-- The business is a complete draft.
abbrev pub workshop : BusinessStatus → Db
workshop status = record empty_db {
  businesses = shop status ∷ [];
  listings = shop_listing ListingStatus.draft ∷ [];
}

abbrev pub offer_dto : CreateOfferDto ℕ
offer_dto = record { amount = 450; currency = none; terms = none }

abbrev pub deal_in : DealStatus → Deal
deal_in status = record {
  id = 40;
  business_id = 10;
  negotiation_id = 30;
  accepted_offer_id = 20;
  buyer_id = 2;
  seller_id = 1;
  status = status;
}

abbrev pub buyer_participant : DealParticipant
buyer_participant = record { deal_id = 40; user_id = 2; role = DealParticipantRole.buyer }

abbrev pub contract : Agreement
contract = record {
  id = 50;
  deal_id = 40;
  title = "Sale";
  status = AgreementStatus.draft;
  generated_by_ai = false;
  review_required = true;
}

-- A deal room with its buyer and an agreement.
abbrev pub deal_room : DealStatus → Db
deal_room status = record market {
  deals = deal_in status ∷ [];
  participants = buyer_participant ∷ [];
  agreements = contract ∷ [];
}
