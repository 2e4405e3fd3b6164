-- ===== src/Market/OneDeal.antt =====
-- A business is sold once: the invariant of the requests, by the methods that change businesses and
-- deals.
use idea_project.Base.{
  List, ◌≢◌, ℕ, ◌≤◌, ◌≡◌, refl, true, false, String, ◌==◌, nat_eq, any, count, update_where, arith,
  Option-cases, inl, inr, [], ◌∷◌,
}
use idea_project.Base.Updates.{
  any_mono, count-update_where_same, any-update_where_same, any-update_where_le, any-of_count,
  count-zero_of_any,
}
use idea_project.Schema.{Db, Deal, DealStatus, Offer, Business}
use idea_project.Common.{AuthenticatedUser, keep}
use idea_project.Common.Prisma.{Prisma}
use idea_project.Offers.Queries.{get_participant_offer, is_party}
use idea_project.Offers.Accept.{accept, is_for_sale, sell_business}
use idea_project.Offers.Acceptance.{acceptance, accept_transaction-acceptance}
use idea_project.Deals.Service.{update_status, assert_participant, set_deal_status, is_deal}
use idea_project.Businesses.Service.{create, CreateBusinessDto, is_business, new_business}
use idea_project.Market.Closing.{Shuts, is_openable}
use idea_project.Market.Requests.{is_deal_for}

-- A business with a deal has one deal, and is neither for sale nor to be put up again.
pub record IsSoldOnce (s : Db) : Type 0 where
  pub unique : (id : ℕ) → count (is_business id) s.businesses ≤ 1
  pub single : (id : ℕ) → count (is_deal_for id) s.deals ≤ 1
  pub closed :
      (id : ℕ) → any (is_deal_for id) s.deals ≡ true → any (is_openable id) s.businesses ≡ false

pub Shuts-IsSoldOnce : {s s' : Db} → Shuts s s' → IsSoldOnce s → IsSoldOnce s'
Shuts-IsSoldOnce k v = record {
  unique = λ id. rw (k.at id).1 (v.unique id);
  single = λ id. rw (k.at id).2 (v.single id);
  closed = λ id h. (k.at id).0 (v.closed id (rw (k.at id).2 at h));
}

-- What is for sale can be opened, so it has no deal.
no_deal_for_sale :
    (s : Db) (id : ℕ)
    → IsSoldOnce s
    → count (is_for_sale id) s.businesses ≢ 0
    → any (is_deal_for id) s.deals ≡ false
no_deal_for_sale s id v h =
    let openable =
      any_mono (is_for_sale id) (is_openable id) s.businesses (λ b at. ground arith)
        (any-of_count (is_for_sale id) s.businesses h) in
    ground (arith, v.closed id)

-- A sale opens no other business.
sell_shut :
    (id k : ℕ) (bs : List Business)
    → any (is_openable k) bs ≡ false
    → any (is_openable k) (update_where (is_for_sale id) sell_business bs) ≡ false
sell_shut id k bs h =
    any-update_where_le (is_openable k) (is_for_sale id) sell_business bs (λ a at off. ground arith)
      h

not_openable :
    (id : ℕ) (bs : List Business) → count (is_business id) bs ≡ 0 → any (is_openable id) bs ≡ false
not_openable id [] h = refl
not_openable id (b ∷ bs) h = ground (arith, not_openable id bs)

not_for_sale :
    (id : ℕ) (bs : List Business) → count (is_business id) bs ≡ 0 → any (is_for_sale id) bs ≡ false
not_for_sale id [] h = refl
not_for_sale id (b ∷ bs) h = ground (arith, not_for_sale id bs)

-- A business for sale is closed by its sale, since its identifier is unique.
sell_closes :
    (id : ℕ) (bs : List Business)
    → count (is_business id) bs ≤ 1
    → any (is_for_sale id) bs ≡ true
    → any (is_openable id) (update_where (is_for_sale id) sell_business bs) ≡ false
sell_closes id [] unique h = cc
sell_closes id (b ∷ bs) unique h =
    ground (arith, sell_closes id bs, not_for_sale id bs, not_openable id bs, sell_shut id id bs)

acceptance-IsSoldOnce :
    (user : AuthenticatedUser) (offer : Offer) (deal_id now : ℕ) (s : Db)
    → IsSoldOnce s
    → IsSoldOnce (acceptance user offer deal_id now s).1
unfolding acceptance
acceptance-IsSoldOnce user offer deal_id now s v = record {
  unique = λ k. ground (
    arith,
    v.unique k,
    count-update_where_same (is_business k) (is_for_sale offer.business_id) sell_business
        s.businesses (λ (a : Business) (at : is_for_sale offer.business_id a ≡ true). refl),
  );
  single = λ k.
      ground (arith, v.single k, no_deal_for_sale s k v, count-zero_of_any (is_deal_for k) s.deals);
  closed = λ k h. ground (
    arith,
    v.closed k,
    v.unique k,
    sell_shut offer.business_id k s.businesses,
    sell_closes k s.businesses,
    any-of_count (is_for_sale offer.business_id) s.businesses,
  );
}

module _ (prisma : Prisma) where
  pub accept-IsSoldOnce :
      (user : AuthenticatedUser) (offer_id deal_id now : ℕ) (s : Db)
      → IsSoldOnce s
      → IsSoldOnce (accept prisma user offer_id deal_id now s).1
  unfolding accept get_participant_offer
  accept-IsSoldOnce user offer_id deal_id now s v =
      elim (Option-cases
        (keep (is_party user) (prisma.find_first (λ o. o.id == offer_id) s.offers))) [
          | inl e ↦ record {
            unique = λ k. ground (arith, v.unique k);
            single = λ k. ground (arith, v.single k);
            closed = λ k h. ground (arith, v.closed k);
          }
          | inr (offer, e) ↦
              let w = acceptance-IsSoldOnce user offer deal_id now s v in
              let run = accept_transaction-acceptance prisma user offer deal_id now s in
              record {
                unique = λ k. ground (arith, run, v.unique k, w.unique k);
                single = λ k. ground (arith, run, v.single k, w.single k);
                closed = λ k h. ground (arith, run, v.closed k, w.closed k);
              }
        ]

  pub update_status-IsSoldOnce :
      (user : AuthenticatedUser) (deal_id : ℕ) (status : DealStatus) (s : Db)
      → IsSoldOnce s
      → IsSoldOnce (update_status prisma user deal_id status s).1
  unfolding update_status assert_participant
  update_status-IsSoldOnce user deal_id status s v = record {
    unique = λ k. ground (arith, v.unique k);
    single = λ k. ground (
      arith,
      v.single k,
      prisma.update_lem (is_deal deal_id) (set_deal_status status) s.deals,
      count-update_where_same (is_deal_for k) (is_deal deal_id) (set_deal_status status) s.deals
          (λ (a : Deal) (at : is_deal deal_id a ≡ true). refl),
    );
    closed = λ k h. ground (
      arith,
      v.closed k,
      prisma.update_lem (is_deal deal_id) (set_deal_status status) s.deals,
      any-update_where_same (is_deal_for k) (is_deal deal_id) (set_deal_status status) s.deals
          (λ (a : Deal). refl),
    );
  }

  pub create-IsSoldOnce :
      (user : AuthenticatedUser) (dto : CreateBusinessDto) (slug : String) (id : ℕ) (s : Db)
      → any (is_deal_for id) s.deals ≡ false
      → any (is_business id) s.businesses ≡ false
      → IsSoldOnce s
      → IsSoldOnce (create prisma user dto slug id s).1
  unfolding create
  create-IsSoldOnce user dto slug id s fresh new v = record {
    unique = λ k. ground (
      arith,
      v.unique k,
      prisma.create_lem (new_business user dto slug id) s.businesses,
      count-zero_of_any (is_business k) s.businesses,
    );
    single = λ k. ground (arith, v.single k);
    closed = λ k h.
        ground (arith, v.closed k, prisma.create_lem (new_business user dto slug id) s.businesses);
  }
