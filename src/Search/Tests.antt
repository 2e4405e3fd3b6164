-- ===== src/Search/Tests.antt =====
-- The theorems on searches at a business on public sale with two saved searches.
use idea_project.Base.{
  Bool, ◌&&◌, ◌≡◌, ◌≢◌, refl, ◌==◌, nat_eq, filter, arith, true, if◌then◌else◌, some, [], ◌∷◌,
}
use idea_project.Schema.{Business, BusinessStatus, business_status_eq, SavedSearch}
use idea_project.Common.{ok}
use idea_project.Common.Prisma.{list_prisma}
use idea_project.Common.Money.{whole_numbers}
use idea_project.Search.Listings.{is_found}
use idea_project.Search.Alerts.{matches, describe, process, with_alerts}
use idea_project.Search.Matching.{matches-is_found}
use idea_project.Search.Alerting.{process-tells, alerted}
use idea_project.Samples.{shop, showcase, any_listing, public_listing, saved_search}

abbrev older : Business → Business → Bool
older a b = true

positive : any_listing.min_mrr ≢ some 0
positive e = ground arith

matches-is_found_example :
    matches any_listing (describe list_prisma (shop BusinessStatus.published) showcase)
    ≡ is_found list_prisma whole_numbers older any_listing showcase (shop BusinessStatus.published)
matches-is_found_example =
    matches-is_found list_prisma whole_numbers older any_listing (shop BusinessStatus.published)
      public_listing 49999 showcase refl refl refl refl refl (omega arith) positive

-- Both searches match.
both_match :
    filter
      (λ (x : SavedSearch).
        matches x.filters (describe list_prisma (shop BusinessStatus.published) showcase))
      showcase.community.saved_searches
    ≡ saved_search 120 2 ∷ saved_search 121 3 ∷ []
unfolding matches
both_match = refl

process-tells_example : process list_prisma 10 7 showcase ≡ (
    if BusinessStatus.published == BusinessStatus.published
    then (
      ok tt,
      alerted list_prisma 10
          (describe list_prisma (shop BusinessStatus.published) showcase)
          7
          (filter
            (λ x. matches x.filters (describe list_prisma (shop BusinessStatus.published) showcase))
            (filter with_alerts showcase.community.saved_searches))
          (λ x.
            x.alerts_enabled
            && matches x.filters (describe list_prisma (shop BusinessStatus.published) showcase))
          showcase,
    )
    else (ok tt, showcase))
process-tells_example =
    process-tells list_prisma 10 7 (shop BusinessStatus.published) showcase (refl, (refl, tt)) refl
