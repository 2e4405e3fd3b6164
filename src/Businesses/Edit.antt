-- ===== src/Businesses/Edit.antt =====
-- `update` and `listOwned` of src/businesses/businesses.service.ts.
use idea_project.Base.{
  ℕ, Bool, not, ◌&&◌, Option, List, String, is_some, or_else, or_maybe, ◌==◌, nat_eq, map,
}
use idea_project.Schema.{Business}
use idea_project.Common.{Action, AuthenticatedUser, ◌>>=◌, gets}
use idea_project.Common.Prisma.{Prisma}
use idea_project.Businesses.Service.{
  OwnedBusiness, find_owned, serialize_business, update_business, listing_of,
}

-- src/businesses/dto/update-business.dto.ts: the fields of a new business, each of them optional.
pub record UpdateBusinessDto : Type 0 where
  pub name : Option String
  pub description : Option String
  pub category_id : Option ℕ
  pub business_model : Option String
  pub founded_at : Option ℕ
  pub country : Option String
  pub website : Option String

-- An undefined field of an update leaves the column alone.
abbrev pub change_business : UpdateBusinessDto → Business → Business
change_business dto b = record b {
  name = or_else dto.name b.name;
  description = or_maybe dto.description b.description;
  category_id = or_maybe dto.category_id b.category_id;
  business_model = or_maybe dto.business_model b.business_model;
  founded_at = or_maybe dto.founded_at b.founded_at;
  country = or_maybe dto.country b.country;
  website = or_maybe dto.website b.website;
}

abbrev is_owned_by : ℕ → Business → Bool
is_owned_by user_id b = b.owner_id == user_id && not (is_some b.deleted_at)

module _ (prisma : Prisma) where
  unfoldable pub update : AuthenticatedUser → ℕ → UpdateBusinessDto → Action (Unit {0})
  update user id dto = do
    owned ← find_owned prisma user id
    update_business prisma owned.business.id (change_business dto)

  -- The order of the answer is left out.
  unfoldable pub list_owned : AuthenticatedUser → Action (List OwnedBusiness)
  list_owned user = gets λ s.
      map (λ b. serialize_business b (prisma.find_first (listing_of b.id) s.listings))
        (prisma.find_many (is_owned_by user.id) s.businesses)
