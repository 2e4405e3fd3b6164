-- ===== src/Businesses/Rules.antt =====
-- src/businesses/businesses.service.ts: the transition table, who manages a business, and the
-- completeness score.
use idea_project.Base.{
  ℕ, ◌*◌, ◌-◌, ◌/◌, Bool, false, not, ◌&&◌, ◌||◌, Option, none, some, List, [], ◌∷◌, ◌++◌, String,
  ◌==◌, nat_eq, is_some, if◌then◌else◌, length,
}
use idea_project.Schema.{
  Business, BusinessStatus, business_status_eq, BusinessListing, ListingStatus, ListingVisibility,
  UserRole, user_role_eq,
}
use idea_project.Common.{AuthenticatedUser}
use idea_project.Common.StateMachine.{StateMachine}
use text.Mathlib.Text.{◌==◌ as str_eq}

abbrev pub business_transitions : BusinessStatus → List BusinessStatus
business_transitions BusinessStatus.draft =
    BusinessStatus.pending_review ∷ BusinessStatus.archived ∷ []
business_transitions BusinessStatus.pending_review =
    BusinessStatus.published ∷ BusinessStatus.rejected ∷ BusinessStatus.draft ∷ []
business_transitions BusinessStatus.published =
    BusinessStatus.paused ∷ BusinessStatus.sold ∷ BusinessStatus.suspended ∷ BusinessStatus.archived
    ∷ []
business_transitions BusinessStatus.paused = BusinessStatus.published ∷ BusinessStatus.archived ∷ []
business_transitions BusinessStatus.rejected = BusinessStatus.draft ∷ []
business_transitions BusinessStatus.suspended =
    BusinessStatus.published ∷ BusinessStatus.archived ∷ []
business_transitions BusinessStatus.sold = BusinessStatus.archived ∷ []
business_transitions BusinessStatus.archived = []

abbrev pub business_state_machine : StateMachine BusinessStatus
business_state_machine = record { transitions = λ s. some (business_transitions s) }

-- src/businesses/dto/create-business.dto.ts
pub record CreateBusinessDto : Type 0 where
  pub name : String
  pub organization_id : Option ℕ
  pub description : Option String
  pub category_id : Option ℕ
  pub business_model : Option String
  pub founded_at : Option ℕ
  pub country : Option String
  pub website : Option String

-- src/businesses/dto/update-listing.dto.ts
pub record UpdateListingDto (Num : Type 0) : Type 0 where
  pub asking_price : Option Num
  pub currency : Option String
  pub headline : Option String
  pub visibility : Option ListingVisibility

abbrev pub is_business : ℕ → Business → Bool
is_business id b = b.id == id

abbrev pub listing_of : ℕ → BusinessListing → Bool
listing_of id l = l.business_id == id

-- `canManage`
abbrev can_manage : AuthenticatedUser → Business → Bool
can_manage user b = b.owner_id == user.id || user.role == UserRole.admin

abbrev pub is_manageable : AuthenticatedUser → Business → Bool
is_manageable user b = not (is_some b.deleted_at) && can_manage user b

-- A text that counts as given: neither missing nor empty.
abbrev is_given : String → Bool
is_given s = not (str_eq s "")

abbrev is_given? : Option String → Bool
is_given? none = false
is_given? (some s) = is_given s

-- `listing?.askingPriceMinor`, which is false at zero too.
abbrev has_price : Option ℕ → Bool
has_price none = false
has_price (some n) = not (n == 0)

abbrev listing_has_price : Option BusinessListing → Bool
listing_has_price none = false
listing_has_price (some l) = has_price l.asking_price_minor

abbrev missing_if : Bool → String → List String
missing_if given field = if given then [] else field ∷ []

-- The fields that a listing lacks.
unfoldable pub missing_fields : Business → Option BusinessListing → List String
missing_fields b listing =
    missing_if (is_given b.name) "name"
    ++ missing_if (is_given? b.description) "description"
    ++ missing_if (is_some b.category_id) "categoryId"
    ++ missing_if (is_given? b.business_model) "businessModel"
    ++ missing_if (listing_has_price listing) "askingPrice"

-- `REQUIRED_LISTING_FIELDS.length`
abbrev required_listing_fields : ℕ
required_listing_fields = 5

-- `Math.round(x / 5 * 100)`, exact since five divides a hundred.
unfoldable pub completeness_score : List String → ℕ
completeness_score missing =
    (required_listing_fields - length missing) * 100 / required_listing_fields

abbrev pub set_status : BusinessStatus → Business → Business
set_status status b = record b { status = status }

abbrev pub mark_deleted : ℕ → Business → Business
mark_deleted now b = record b { deleted_at = some now }

abbrev pub publish_listing : ℕ → ℕ → BusinessListing → BusinessListing
publish_listing score now l = record l {
  status = ListingStatus.published;
  completeness_score = score;
  published_at = some now;
}

abbrev pub unpublish_listing : BusinessListing → BusinessListing
unpublish_listing l = record l { status = ListingStatus.unpublished }

abbrev pub new_business : AuthenticatedUser → CreateBusinessDto → String → ℕ → Business
new_business user dto slug id = record {
  id = id;
  owner_id = user.id;
  organization_id = dto.organization_id;
  category_id = dto.category_id;
  name = dto.name;
  slug = slug;
  description = dto.description;
  business_model = dto.business_model;
  founded_at = dto.founded_at;
  country = dto.country;
  website = dto.website;
  status = BusinessStatus.draft;
  deleted_at = none;
}
