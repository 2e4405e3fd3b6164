-- ===== src/Organizations/Roles.antt =====
-- Who changes the members of an organization (src/organizations/organizations.service.ts).
use idea_project.Base.{
  ℕ, ◌≡◌, ◌≤◌, Bool, true, false, not, ◌&&◌, List, [], ◌∷◌, ◌==◌, nat_eq, any, count, filter,
  update_where, includes, arith, Option-cases, inl, inr, some, none, Option,
}
use idea_project.Schema.{Db, OrganizationMember, OrgMemberRole, org_member_role_eq}
use idea_project.Common.{ok, err, ErrorCode, forbidden_exception}
use idea_project.Common.Prisma.{Prisma}
use idea_project.Organizations.Service.{
  is_member, managers, add_member, remove_member, assert_role, AddMemberDto, new_member, org_role,
  is_addressed,
}

-- An owner of the organization.
abbrev pub is_owner_of : ℕ → OrganizationMember → Bool
is_owner_of organization_id m =
    m.organization_id == organization_id && m.role == OrgMemberRole.owner

-- A member who may change the members.
abbrev pub may_change : Option OrganizationMember → Bool
may_change none = false
may_change (some m) = includes managers m.role

no_new_owner :
    (organization_id user_id : ℕ) (role : OrgMemberRole) (ms : List OrganizationMember)
    → (role == OrgMemberRole.owner) ≡ false
    → count
        (is_owner_of organization_id)
        (update_where (is_member organization_id user_id) (λ m. record m { role = role }) ms)
      ≤ count (is_owner_of organization_id) ms
no_new_owner organization_id user_id role [] h = omega arith
no_new_owner organization_id user_id role (m ∷ ms) h =
    ground (arith, no_new_owner organization_id user_id role ms h)

module _ (prisma : Prisma) where
  -- Only an owner or an administrator of the organization adds and removes members: for everyone else
  -- both are answered with AUTH_FORBIDDEN, and nothing changes.
  change-managers_only :
      (organization_id user_id target : ℕ) (dto : AddMemberDto) (s : Db)
      → may_change (prisma.find_first (is_member organization_id user_id) s.organization_members)
        ≡ false
      → (add_member prisma organization_id user_id dto s
          ≡ (err (forbidden_exception ErrorCode.auth_forbidden), s))
        × (remove_member prisma organization_id user_id target s
            ≡ (err (forbidden_exception ErrorCode.auth_forbidden), s))
  unfolding add_member remove_member assert_role
  change-managers_only organization_id user_id target dto s h =
      elim (Option-cases
        (prisma.find_first (is_member organization_id user_id) s.organization_members)) [
          | inl e ↦ ground arith
          | inr (m, e) ↦ ground arith
        ]

  -- Adding a member makes no one an owner, whoever asks for it.
  add_member-no_owner :
      (organization_id user_id : ℕ) (dto : AddMemberDto) (s : Db)
      → count
          (is_owner_of organization_id)
          (add_member prisma organization_id user_id dto s).1.organization_members
        ≤ count (is_owner_of organization_id) s.organization_members
  unfolding add_member assert_role
  add_member-no_owner organization_id user_id dto s =
      elim (Option-cases (prisma.find_first (is_addressed dto.email) s.users)) [
        | inl e ↦ ground arith
        | inr (target, e) ↦ ground (
          arith,
          prisma.upsert_lem (is_member organization_id target.id)
              (new_member organization_id target.id (org_role dto.role))
              (λ m. record m { role = org_role dto.role }) s.organization_members,
          no_new_owner organization_id target.id (org_role dto.role) s.organization_members,
        )
      ]

  -- An administrator of an organization can remove its last owner: nothing is asked of the member who is
  -- removed, but that there is one.
  remove_member-last_owner :
      (organization_id admin_id owner_id : ℕ) (m : OrganizationMember) (s : Db)
      → prisma.find_first (is_member organization_id admin_id) s.organization_members ≡ some m
      → m.role ≡ OrgMemberRole.admin
      → any (is_member organization_id owner_id) s.organization_members ≡ true
      → remove_member prisma organization_id admin_id owner_id s ≡ (
        ok tt,
        record s {
          organization_members =
              filter (λ r. not (is_member organization_id owner_id r)) s.organization_members;
        },
      )
  unfolding remove_member assert_role
  remove_member-last_owner organization_id admin_id owner_id m s found admin there =
      ground (arith, prisma.delete_lem (is_member organization_id owner_id) s.organization_members)
