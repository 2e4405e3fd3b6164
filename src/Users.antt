-- ===== src/Users.antt =====
-- src/users/users.service.ts. The columns `bio`, `website` and `timezone` of a profile, which no method
-- reads, are left out.
use idea_project.Base.{ℕ, Bool, not, Option, none, some, ◌==◌, nat_eq, String, is_some, or_maybe}
use idea_project.Schema.{User, Profile}
use idea_project.Common.{
  Action, ErrorCode, not_found_exception, ◌>>=◌, ◌>>◌, gets, or_raise, modify, keep,
}
use idea_project.Common.Prisma.{Prisma}

pub record PublicUserDto : Type 0 where
  pub id : ℕ
  pub first_name : Option String
  pub last_name : Option String
  pub avatar_url : Option String
  pub company : Option String
  pub country : Option String

-- src/users/dto/update-profile.dto.ts
pub record UpdateProfileDto : Type 0 where
  pub first_name : Option String
  pub last_name : Option String
  pub country : Option String
  pub company : Option String

abbrev pub is_user : ℕ → User → Bool
is_user id u = u.id == id

abbrev pub is_profile_of : ℕ → Profile → Bool
is_profile_of user_id p = p.user_id == user_id

abbrev is_existing : User → Bool
is_existing u = not (is_some u.deleted_at)

abbrev pub new_profile : ℕ → UpdateProfileDto → Profile
new_profile user_id dto = record {
  user_id = user_id;
  first_name = dto.first_name;
  last_name = dto.last_name;
  avatar_url = none;
  company = dto.company;
  country = dto.country;
}

-- An undefined field of an update leaves the column alone.
abbrev pub change_profile : UpdateProfileDto → Profile → Profile
change_profile dto p = record p {
  first_name = or_maybe dto.first_name p.first_name;
  last_name = or_maybe dto.last_name p.last_name;
  company = or_maybe dto.company p.company;
  country = or_maybe dto.country p.country;
}

abbrev pub public_user : ℕ → Option Profile → PublicUserDto
public_user id none = record {
  id = id;
  first_name = none;
  last_name = none;
  avatar_url = none;
  company = none;
  country = none;
}
public_user id (some p) = record {
  id = id;
  first_name = p.first_name;
  last_name = p.last_name;
  avatar_url = p.avatar_url;
  company = p.company;
  country = p.country;
}

module _ (prisma : Prisma) where
  unfoldable pub get_public_profile : ℕ → Action PublicUserDto
  get_public_profile user_id = do
    found ← gets λ s. prisma.find_first (is_user user_id) s.users
    user ← or_raise (keep is_existing found) (not_found_exception ErrorCode.not_found_error)
    gets λ s. public_user user.id (prisma.find_first (is_profile_of user.id) s.profiles)

  unfoldable pub update_own_profile : ℕ → UpdateProfileDto → Action PublicUserDto
  update_own_profile user_id dto = do
    modify λ s. record s {
      profiles =
          prisma.upsert (is_profile_of user_id) (new_profile user_id dto) (change_profile dto)
            s.profiles;
    }
    get_public_profile user_id
