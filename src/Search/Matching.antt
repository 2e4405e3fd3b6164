-- ===== src/Search/Matching.antt =====
-- An alert matches as a search finds (src/jobs/processors/saved-search.processor.ts and
-- src/listings/listings.service.ts).
use idea_project.Base.{
  ℕ, suc, ◌≤◌, ◌≡◌, ◌≢◌, refl, Bool, true, false, not, ◌&&◌, ◌||◌, Option, none, some, List, [],
  ◌∷◌, String, nat_eq, leb, any, count, arith, if◌then◌else◌, Elem, Option-cases, inl, inr,
}
use idea_project.Base.Updates.{count-zero_of_any, count-of_Elem}
use idea_project.Schema.{
  Db, Business, BusinessStatus, business_status_eq, BusinessListing, listing_status_eq,
  listing_visibility_eq, BusinessMetric, SearchListingsDto,
}
use idea_project.Common.Prisma.{Prisma}
use idea_project.Common.Money.{to_minor_units, Numbers}
use idea_project.Search.Listings.{
  is_found, has_price, has_category, has_country, set_text, is_verified, has_mrr, is_public,
  is_mrr_of, bound_minor, joined_listing,
}
use idea_project.Search.Alerts.{
  matches, describe, other_category, other_country, is_below, is_above, value_of, set_price,
}

any-and_none :
    {A : Type 0} (p q : A → Bool) (xs : List A) → count p xs ≡ 0 → any (λ x. p x && q x) xs ≡ false
any-and_none p q [] c = refl
any-and_none p q (x ∷ xs) c = ground (arith, any-and_none p q xs)

-- At most one row passes `p`: whether one passes `q` too is up to that row.
any_unique :
    {A : Type 0} (p q : A → Bool) (a : A) (xs : List A)
    → count p xs ≤ 1
    → Elem a xs
    → p a ≡ true
    → any (λ x. p x && q x) xs ≡ q a
any_unique p q a [] c m e = absurd m
any_unique p q a (x ∷ xs) c (inl m) e = ground (arith, any-and_none p q xs (ground arith))
any_unique p q a (x ∷ xs) c (inr m) e =
    ground (arith, count-of_Elem p a xs m e, any_unique p q a xs (ground arith) m e)

has_mrr_unique :
    (min id : ℕ) (m : BusinessMetric) (ms : List BusinessMetric)
    → count (is_mrr_of id) ms ≤ 1
    → Elem m ms
    → is_mrr_of id m ≡ true
    → has_mrr (some min) id ms ≡ leb (bound_minor min) m.value_minor
unfolding has_mrr
has_mrr_unique min id m ms c at e =
    any_unique (is_mrr_of id) (λ x. leb (bound_minor min) x.value_minor) m ms c at e

category_same :
    (asked column : Option ℕ) → other_category asked column ≡ not (has_category asked column)
category_same none column = refl
category_same (some id) none = refl
category_same (some id) (some c) = refl

country_same :
    (asked column : Option String) → other_country asked column ≡ not (has_country asked column)
country_same none column = refl
country_same (some t) none = refl
country_same (some t) (some c) = refl

price_same :
    (query : SearchListingsDto) (price : ℕ)
    → is_below query.min_price (some price) || is_above query.max_price (some price)
      ≡ not (has_price query (some price))
unfolding has_price to_minor_units
price_same query price = ground arith

mrr_same :
    (prisma : Prisma) (asked : Option ℕ) (id : ℕ) (ms : List BusinessMetric)
    → count (is_mrr_of id) ms ≤ 1
    → asked ≢ some 0
    → is_below asked (value_of (prisma.find_first (is_mrr_of id) ms)) ≡ not (has_mrr asked id ms)
unfolding has_mrr to_minor_units
mrr_same prisma none id ms one positive = refl
mrr_same prisma (some min) id ms one positive =
    elim (Option-cases (prisma.find_first (is_mrr_of id) ms)) [
      | inl missing ↦ ground (
        arith,
        any-and_none (is_mrr_of id) (λ x. leb (bound_minor min) x.value_minor) ms
            (count-zero_of_any (is_mrr_of id) ms
              (prisma.find_first-none (is_mrr_of id) ms missing)),
        positive,
      )
      | inr (m, found) ↦
          let (is_mrr, at) = prisma.find_first-some (is_mrr_of id) ms m found in
          ground (arith, has_mrr_unique min id m ms one at is_mrr)
    ]

-- The negation of the reasons against is the conjunction of the reasons for.
reasons :
    (oc hc od hd b a hp om hm asked v : Bool)
    → oc ≡ not hc
    → od ≡ not hd
    → b || a ≡ not hp
    → om ≡ not hm
    → not (oc || od || b || a || om || (asked && not v))
      ≡ (hp && hc && hd && hm && (if asked then v else true))
reasons oc hc od hd b a hp om hm asked v c d p m = ground arith

set_price-suc : (price : ℕ) → set_price (some (suc price)) ≡ some (suc price)
set_price-suc price = ground arith

module _ (prisma : Prisma) (numbers : Numbers) (is_older : Business → Business → Bool) where
  -- For a business on public sale with a price other than 0 and at most one MRR metric, and filters
  -- that do not ask for an MRR of at least 0, the alert matches exactly when the search of the public
  -- listings finds the business.
  pub matches-is_found :
      (query : SearchListingsDto) (b : Business) (l : BusinessListing) (price : ℕ) (s : Db)
      → b.status ≡ BusinessStatus.published
      → b.deleted_at ≡ none
      → joined_listing prisma numbers is_older b s ≡ some l
      → is_public l ≡ true
      → l.asking_price_minor ≡ some (suc price)
      → count (is_mrr_of b.id) s.evidence.metrics ≤ 1
      → query.min_mrr ≢ some 0
      → matches query (describe prisma b s) ≡ is_found prisma numbers is_older query s b
  unfolding matches is_found
  matches-is_found query b l price s status kept joined public priced one asked =
      rw (status, kept, joined, priced, public, set_price-suc price)
        (reasons _ (has_category query.category_id b.category_id) _
          (has_country (set_text query.country) b.country) _ _ (has_price query (some (suc price)))
          _ (has_mrr query.min_mrr b.id s.evidence.metrics) query.verified
          (is_verified b.id s.evidence.verifications)
          (category_same query.category_id b.category_id)
          (country_same (set_text query.country) b.country) (price_same query (suc price))
          (mrr_same prisma query.min_mrr b.id s.evidence.metrics one asked))
