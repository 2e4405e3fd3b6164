-- ===== src/Search/Alerts.antt =====
-- src/jobs/processors/saved-search.processor.ts. The quotients `… / 100` that it compares with whole
-- numbers are the minor units that it divides, against a hundred times the number.
use Prim.Native.String.{◌++◌}
use package.text.Mathlib.Text.{◌==◌ as str_eq}
use idea_project.Base.{
  ℕ, ◌*◌, Bool, true, false, not, ◌&&◌, ◌||◌, Option, none, some, List, [], ◌∷◌, String, ◌==◌,
  nat_eq, ltb, or_else, if◌then◌else◌,
}
use idea_project.Schema.{
  Db, Business, BusinessStatus, business_status_eq, BusinessMetric, SavedSearch, SearchListingsDto,
  NotificationType, key,
}
use idea_project.Common.{Action, ◌>>=◌, ◌>>◌, pure, gets, modify, keep}
use idea_project.Common.Prisma.{Prisma}
use idea_project.Common.Notify.{CreateNotificationInput, notify}
use idea_project.Businesses.Service.{is_business, listing_of}
use idea_project.Search.Listings.{set_text, is_mrr_of, is_verified, price_of}
use idea_project.Search.SavedSearches.{is_search, save_searches}

-- The business as `matches` sees it, the price and the revenue in minor units.
pub record AlertView : Type 0 where
  pub category_id : Option ℕ
  pub country : Option String
  pub asking_price : Option ℕ
  pub mrr : Option ℕ
  pub is_verified : Bool

-- `filters.categoryId && filters.categoryId !== business.categoryId`
abbrev pub other_category : Option ℕ → Option ℕ → Bool
other_category none column = false
other_category (some id) none = true
other_category (some id) (some c) = not (id == c)

abbrev pub other_country : Option String → Option String → Bool
other_country none column = false
other_country (some t) none = true
other_country (some t) (some c) = not (str_eq t c)

-- `min !== undefined && (value ?? 0) < min`
abbrev pub is_below : Option ℕ → Option ℕ → Bool
is_below none value = false
is_below (some min) value = ltb (or_else value 0) (min * 100)

-- `max !== undefined && (value ?? Infinity) > max`
abbrev pub is_above : Option ℕ → Option ℕ → Bool
is_above none value = false
is_above (some max) none = true
is_above (some max) (some value) = ltb (max * 100) value

unfoldable pub matches : SearchListingsDto → AlertView → Bool
matches filters b = not (
    other_category filters.category_id b.category_id
    || other_country (set_text filters.country) b.country
    || is_below filters.min_price b.asking_price
    || is_above filters.max_price b.asking_price
    || is_below filters.min_mrr b.mrr
    || (filters.verified && not b.is_verified))

-- A price of 0 counts as none.
abbrev pub set_price : Option ℕ → Option ℕ
set_price none = none
set_price (some price) = if price == 0 then none else some price

abbrev pub value_of : Option BusinessMetric → Option ℕ
value_of none = none
value_of (some m) = some m.value_minor

abbrev pub set_notified : ℕ → SavedSearch → SavedSearch
set_notified now x = record x { last_notified_at = some now }

unfoldable pub alert : ℕ → SavedSearch → CreateNotificationInput
alert business_id x = record {
  user_id = x.user_id;
  type = NotificationType.system;
  title = "New listing matches \"" ++ (x.name ++ "\"");
  body = none;
  metadata = ("businessId", key business_id) ∷ ("savedSearchId", key x.id) ∷ [];
}

abbrev pub with_alerts : SavedSearch → Bool
with_alerts x = x.alerts_enabled

module _ (prisma : Prisma) where
  abbrev pub describe : Business → Db → AlertView
  describe b s = record {
    category_id = b.category_id;
    country = b.country;
    asking_price = set_price (price_of (prisma.find_first (listing_of b.id) s.listings));
    mrr = value_of (prisma.find_first (is_mrr_of b.id) s.evidence.metrics);
    is_verified = is_verified b.id s.evidence.verifications;
  }

  abbrev pub tell : ℕ → SavedSearch → ℕ → Action (Unit {0})
  tell business_id x now = do
    modify (notify prisma (alert business_id x))
    λ s.
        save_searches (prisma.update (is_search x.id) (set_notified now) s.community.saved_searches)
          s

  -- The loop over the searches.
  unfoldable pub alert_each : ℕ → AlertView → ℕ → List SavedSearch → Action (Unit {0})
  alert_each business_id view now [] = pure tt
  alert_each business_id view now (x ∷ xs) =
      let rest : Action (Unit {0}) = alert_each business_id view now xs in
      if matches x.filters view then tell business_id x now >> rest else rest

  abbrev alert_for : Option Business → ℕ → Action (Unit {0})
  alert_for none now = pure tt
  alert_for (some b) now = do
    searches ← gets λ s. prisma.find_many with_alerts s.community.saved_searches
    view ← gets (describe b)
    alert_each b.id view now searches

  -- `!business || business.status !== 'PUBLISHED'`
  unfoldable pub process : ℕ → ℕ → Action (Unit {0})
  process business_id now = do
    found ← gets λ s. prisma.find_first (is_business business_id) s.businesses
    alert_for (keep (λ b. b.status == BusinessStatus.published) found) now
