-- ===== src/Search/Listings.antt =====
-- src/listings/listings.service.ts. Which of two businesses is the older is a parameter: the database
-- fills the column `createdAt`.
use package.text.Mathlib.Text.{◌==◌ as str_eq}
use idea_project.Base.{
  ℕ, Bool, true, false, not, ◌&&◌, ◌||◌, Option, none, some, List, String, ◌==◌, nat_eq, is_some,
  leb, or_else, any, map, if◌then◌else◌,
}
use idea_project.Schema.{
  Db, Business, BusinessStatus, business_status_eq, BusinessListing, ListingStatus,
  listing_status_eq, ListingVisibility, listing_visibility_eq, BusinessMetric, MetricType,
  metric_type_eq, BusinessVerification, VerificationType, VerificationStatus,
  verification_status_eq, SearchListingsDto, SortableField, SortDir, BusinessCategory,
}
use idea_project.Common.{Action, Error, ErrorCode, not_found_exception, ◌>>=◌, gets, or_raise}
use idea_project.Common.Prisma.{Prisma}
use idea_project.Common.Money.{Numbers, to_minor_units, to_major_units, whole_numbers}
use idea_project.Common.Pages.{PaginatedResult, list_page}
use idea_project.Businesses.Service.{listing_of}

-- A text that is set and not empty: the truth of `string | undefined`.
abbrev pub set_text : Option String → Option String
set_text none = none
set_text (some t) = if str_eq t "" then none else some t

-- `where.categoryId`, where a category is asked for.
abbrev pub has_category : Option ℕ → Option ℕ → Bool
has_category none column = true
has_category (some id) none = false
has_category (some id) (some c) = id == c

abbrev same_text : String → Option String → Bool
same_text t none = false
same_text t (some c) = str_eq t c

-- `where.country`, where a country is asked for.
abbrev pub has_country : Option String → Option String → Bool
has_country none column = true
has_country (some t) column = same_text t column

-- A bound of a query in minor units.
abbrev pub bound_minor : ℕ → ℕ
bound_minor major = to_minor_units whole_numbers major

abbrev at_least : Option ℕ → ℕ → Bool
at_least none value = true
at_least (some min) value = leb (bound_minor min) value

abbrev at_most : Option ℕ → ℕ → Bool
at_most none value = true
at_most (some max) value = leb value (bound_minor max)

abbrev between : SearchListingsDto → Option ℕ → Bool
between query none = false
between query (some price) = at_least query.min_price price && at_most query.max_price price

-- `listingWhere.askingPriceMinor`: a missing price is in no range.
unfoldable pub has_price : SearchListingsDto → Option ℕ → Bool
has_price query price =
    if is_some query.min_price || is_some query.max_price then between query price else true

abbrev pub is_public : BusinessListing → Bool
is_public l = l.status == ListingStatus.published && l.visibility == ListingVisibility.public

abbrev pub is_mrr_of : ℕ → BusinessMetric → Bool
is_mrr_of id m = m.business_id == id && m.metric_type == MetricType.mrr

-- `metrics: { some: … }`
unfoldable pub has_mrr : Option ℕ → ℕ → List BusinessMetric → Bool
has_mrr none id metrics = true
has_mrr (some min) id metrics =
    any (λ m. is_mrr_of id m && leb (bound_minor min) m.value_minor) metrics

-- `verifications: { some: { status: 'VERIFIED' } }`
unfoldable pub is_verified : ℕ → List BusinessVerification → Bool
is_verified id vs = any (λ v. v.business_id == id && v.status == VerificationStatus.verified) vs

abbrev pub price_of : Option BusinessListing → Option ℕ
price_of none = none
price_of (some l) = l.asking_price_minor

abbrev is_shown : SearchListingsDto → Option BusinessListing → Bool
is_shown query none = false
is_shown query (some l) = is_public l && has_price query l.asking_price_minor

-- Postgres takes a missing value for the largest.
abbrev pub price_le : Option ℕ → Option ℕ → Bool
price_le a none = true
price_le none (some b) = false
price_le (some a) (some b) = leb a b

abbrev pub directed : SortDir → (Business → Business → Bool) → Business → Business → Bool
directed SortDir.asc le a b = le a b
directed SortDir.desc le a b = le b a

pub record PublicSummary (Num : Type 0) : Type 0 where
  pub id : ℕ
  pub slug : String
  pub name : String
  pub headline : Option String
  pub category : Option String
  pub country : Option String
  pub asking_price : Option Num
  pub currency : String
  pub published_at : Option ℕ

pub record PublicDetail (Num : Type 0) : Type 0 where
  pub summary : PublicSummary Num
  pub owner_id : ℕ
  pub description : Option String
  pub business_model : Option String
  pub founded_at : Option ℕ
  pub website : Option String
  pub verifications : List (VerificationType × VerificationStatus)

-- `idOrSlug`: an identifier or a slug.
pub data IdOrSlug : Type 0 where
  by_id : ℕ → IdOrSlug
  by_slug : String → IdOrSlug

abbrev pub is_named : IdOrSlug → Business → Bool
is_named (by_id id) b = b.id == id
is_named (by_slug slug) b = str_eq b.slug slug

abbrev headline_of : Option BusinessListing → Option String
headline_of none = none
headline_of (some l) = l.headline

abbrev currency_of : Option BusinessListing → String
currency_of none = "USD"
currency_of (some l) = l.currency

abbrev published_at_of : Option BusinessListing → Option ℕ
published_at_of none = none
published_at_of (some l) = l.published_at

module _ (prisma : Prisma) (numbers : Numbers) (is_older : Business → Business → Bool) where
  abbrev pub joined_listing : Business → Db → Option BusinessListing
  joined_listing b s = prisma.find_first (listing_of b.id) s.listings

  -- The `where` of a search.
  unfoldable pub is_found : SearchListingsDto → Db → Business → Bool
  is_found query s b =
      not (is_some b.deleted_at)
      && b.status == BusinessStatus.published
      && is_shown query (joined_listing b s)
      && has_category query.category_id b.category_id
      && has_country (set_text query.country) b.country
      && has_mrr query.min_mrr b.id s.evidence.metrics
      && (if query.verified then is_verified b.id s.evidence.verifications else true)

  -- A field that is none of those sorted by counts as `createdAt`.
  unfoldable pub build_order_by : Option SortableField → SortDir → Db → Business → Business → Bool
  build_order_by (some SortableField.price) dir s =
      directed dir (λ a b. price_le (price_of (joined_listing a s)) (price_of (joined_listing b s)))
  build_order_by _ dir s = directed dir is_older

  abbrev name_of : Option BusinessCategory → Option String
  name_of none = none
  name_of (some c) = some c.name

  abbrev joined_category : Option ℕ → Db → Option BusinessCategory
  joined_category none s = none
  joined_category (some id) s = prisma.find_first (λ c. c.id == id) s.community.categories

  -- A price of 0 counts as none.
  abbrev asking_price : Option ℕ → Option numbers.Num
  asking_price none = none
  asking_price (some price) = if price == 0 then none else some (to_major_units numbers price)

  unfoldable pub to_public_summary : Db → Business → PublicSummary numbers.Num
  to_public_summary s b = record {
    id = b.id;
    slug = b.slug;
    name = b.name;
    headline = headline_of (joined_listing b s);
    category = name_of (joined_category b.category_id s);
    country = b.country;
    asking_price = asking_price (price_of (joined_listing b s));
    currency = currency_of (joined_listing b s);
    published_at = published_at_of (joined_listing b s);
  }

  unfoldable pub to_public_detail : Db → Business → PublicDetail numbers.Num
  to_public_detail s b = record {
    summary = to_public_summary s b;
    owner_id = b.owner_id;
    description = b.description;
    business_model = b.business_model;
    founded_at = b.founded_at;
    website = b.website;
    verifications =
        map (λ v. (v.type, v.status))
          (prisma.find_many (λ v. v.business_id == b.id) s.evidence.verifications);
  }

  abbrev pub found_in_order : SearchListingsDto → Db → List Business
  found_in_order query s =
      prisma.order_by (build_order_by query.sort_by (or_else query.sort_dir SortDir.desc) s)
        (prisma.find_many (is_found query s) s.businesses)

  abbrev with_summaries :
      Db → Option (PaginatedResult Business) → Option (PaginatedResult (PublicSummary numbers.Num))
  with_summaries s none = none
  with_summaries s (some page) = some (record {
    data_rows = map (to_public_summary s) page.data_rows;
    next_cursor = page.next_cursor;
    has_more = page.has_more;
  })

  unfoldable pub search : SearchListingsDto → Action (PaginatedResult (PublicSummary numbers.Num))
  search query s =
      or_raise
        (with_summaries s (
          list_page prisma (λ b. b.id) 20 (record { cursor = query.cursor; limit = query.limit })
            (found_in_order query s)))
        Error.failure s

  abbrev pub is_public_business : IdOrSlug → Db → Business → Bool
  is_public_business name s b =
      is_named name b
      && not (is_some b.deleted_at)
      && b.status == BusinessStatus.published
      && is_open (joined_listing b s)
    where
      is_open : Option BusinessListing → Bool
      is_open none = false
      is_open (some l) = is_public l

  unfoldable pub get_public_detail : IdOrSlug → Action (PublicDetail numbers.Num)
  get_public_detail name = do
    found ← gets λ s. prisma.find_first (is_public_business name s) s.businesses
    business ← or_raise found (not_found_exception ErrorCode.listing_not_found)
    gets λ s. to_public_detail s business
