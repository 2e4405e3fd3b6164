-- ===== src/Organizations/Service.antt =====
-- src/organizations/organizations.service.ts. The slug that `uniqueSlug` makes is an argument.
use package.text.Mathlib.Text.{◌==◌ as str_eq}
use idea_project.Base.{
  ℕ, Bool, ◌&&◌, ◌||◌, Option, none, some, List, [], ◌∷◌, String, ◌==◌, nat_eq, any, includes,
}
use idea_project.Schema.{User, Organization, OrganizationMember, OrgMemberRole, org_member_role_eq}
use idea_project.Common.{
  Action, ok, err, Error, ErrorCode, not_found_exception, forbidden_exception, ◌>>=◌, ◌>>◌, gets,
  or_raise, modify, keep,
}
use idea_project.Common.Prisma.{Prisma}

-- src/organizations/dto: no one is made an owner.
pub record CreateOrganizationDto : Type 0 where
  pub name : String
  pub logo_url : Option String

pub data InvitedRole : Type 0 where
  admin member : InvitedRole

pub record AddMemberDto : Type 0 where
  pub email : ℕ
  pub role : InvitedRole

abbrev pub org_role : InvitedRole → OrgMemberRole
org_role InvitedRole.admin = OrgMemberRole.admin
org_role InvitedRole.member = OrgMemberRole.member

-- `{ organizationId_userId: { organizationId, userId } }`
abbrev pub is_member : ℕ → ℕ → OrganizationMember → Bool
is_member organization_id user_id m = m.organization_id == organization_id && m.user_id == user_id

abbrev pub new_member : ℕ → ℕ → OrgMemberRole → OrganizationMember
new_member organization_id user_id role = record {
  organization_id = organization_id;
  user_id = user_id;
  role = role;
}

-- The primary key, and `slug String @unique`.
abbrev collides : Organization → Organization → Bool
collides new o = o.id == new.id || str_eq o.slug new.slug

abbrev pub managers : List OrgMemberRole
managers = OrgMemberRole.owner ∷ OrgMemberRole.admin ∷ []

abbrev pub is_addressed : ℕ → User → Bool
is_addressed email u = u.email == email

module _ (prisma : Prisma) where
  -- The members that are created with it.
  abbrev save_organization : ℕ → Organization → Option (List Organization) → Action Organization
  save_organization user_id organization none s = (err Error.unique_violation, s)
  save_organization user_id organization (some t) s = (
    ok organization,
    record s {
      community = record s.community { organizations = t };
      organization_members =
          prisma.create (new_member organization.id user_id OrgMemberRole.owner)
            s.organization_members;
    },
  )

  unfoldable pub create : ℕ → CreateOrganizationDto → String → ℕ → Action Organization
  create user_id dto slug id = do
    let organization : Organization = record {
      id = id;
      name = dto.name;
      slug = slug;
      logo_url = dto.logo_url;
    }
    λ s.
        save_organization user_id organization
          (prisma.create_unique (collides organization) organization s.community.organizations) s

  -- The members that are joined are left out.
  unfoldable pub list_for_user : ℕ → Action (List Organization)
  list_for_user user_id = gets λ s.
      prisma.find_many (λ o. any (is_member o.id user_id) s.organization_members)
        s.community.organizations

  unfoldable pub assert_role : ℕ → ℕ → List OrgMemberRole → Action OrganizationMember
  assert_role organization_id user_id allowed = do
    found ← gets λ s. prisma.find_first (is_member organization_id user_id) s.organization_members
    or_raise (keep (λ m. includes allowed m.role) found)
        (forbidden_exception ErrorCode.auth_forbidden)

  unfoldable pub add_member : ℕ → ℕ → AddMemberDto → Action (Unit {0})
  add_member organization_id acting_user_id dto = do
    assert_role organization_id acting_user_id managers
    found ← gets λ s. prisma.find_first (is_addressed dto.email) s.users
    target ← or_raise found (not_found_exception ErrorCode.not_found_error)
    modify λ s. record s {
      organization_members =
          prisma.upsert (is_member organization_id target.id)
            (new_member organization_id target.id (org_role dto.role))
            (λ m. record m { role = org_role dto.role }) s.organization_members;
    }

  abbrev save_members : Option (List OrganizationMember) → Action (Unit {0})
  save_members none s = (err Error.record_not_found, s)
  save_members (some t) s = (ok tt, record s { organization_members = t })

  unfoldable pub remove_member : ℕ → ℕ → ℕ → Action (Unit {0})
  remove_member organization_id acting_user_id target_user_id = do
    assert_role organization_id acting_user_id managers
    λ s.
        save_members
          (prisma.delete (is_member organization_id target_user_id) s.organization_members) s
