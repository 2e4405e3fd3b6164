-- ===== src/Schema/Enums.antt =====
-- The enumerations of prisma/schema.prisma for accounts, businesses and documents, each with the
-- equality that the services test by `===`, `includes` and the `where` clauses.
use Prim.Native.Nat.{ℕ}
use mathlib.Core.Path.{◌≡◌}
use mathlib.Core.Logic.{◌↔◌}
use mathlib.Core.Bool.{true}
use native.Mathlib.Omega.{arith}
use idea_project.Base.Tests.{Compares, nat_beq}

pub data UserRole : Type 0 where
  buyer seller buyer_seller admin moderator : UserRole

abbrev pub user_role_rank : UserRole → ℕ
user_role_rank UserRole.buyer = 0
user_role_rank UserRole.seller = 1
user_role_rank UserRole.buyer_seller = 2
user_role_rank UserRole.admin = 3
user_role_rank UserRole.moderator = 4

user_role_rank_inj : (a b : UserRole) → user_role_rank a ≡ user_role_rank b → a ≡ b
user_role_rank_inj a b h = ground arith

pub user_role_beq_iff :
    (a b : UserRole) → (nat_beq (user_role_rank a) (user_role_rank b) ≡ true) ↔ (a ≡ b)
user_role_beq_iff a b = ground (arith, user_role_rank_inj a b)

instance abbrev pub user_role_eq : Compares UserRole
user_role_eq = record {
  equals = λ a b. nat_beq (user_role_rank a) (user_role_rank b);
  equals_iff = user_role_beq_iff;
}

pub data OrgMemberRole : Type 0 where
  owner admin member : OrgMemberRole

abbrev pub org_member_role_rank : OrgMemberRole → ℕ
org_member_role_rank OrgMemberRole.owner = 0
org_member_role_rank OrgMemberRole.admin = 1
org_member_role_rank OrgMemberRole.member = 2

org_member_role_rank_inj :
    (a b : OrgMemberRole) → org_member_role_rank a ≡ org_member_role_rank b → a ≡ b
org_member_role_rank_inj a b h = ground arith

pub org_member_role_beq_iff :
    (a b : OrgMemberRole)
    → (nat_beq (org_member_role_rank a) (org_member_role_rank b) ≡ true) ↔ (a ≡ b)
org_member_role_beq_iff a b = ground (arith, org_member_role_rank_inj a b)

instance abbrev pub org_member_role_eq : Compares OrgMemberRole
org_member_role_eq = record {
  equals = λ a b. nat_beq (org_member_role_rank a) (org_member_role_rank b);
  equals_iff = org_member_role_beq_iff;
}

pub data AccountStatus : Type 0 where
  active suspended deactivated pending_verification : AccountStatus

abbrev pub account_status_rank : AccountStatus → ℕ
account_status_rank AccountStatus.active = 0
account_status_rank AccountStatus.suspended = 1
account_status_rank AccountStatus.deactivated = 2
account_status_rank AccountStatus.pending_verification = 3

account_status_rank_inj :
    (a b : AccountStatus) → account_status_rank a ≡ account_status_rank b → a ≡ b
account_status_rank_inj a b h = ground arith

pub account_status_beq_iff :
    (a b : AccountStatus)
    → (nat_beq (account_status_rank a) (account_status_rank b) ≡ true) ↔ (a ≡ b)
account_status_beq_iff a b = ground (arith, account_status_rank_inj a b)

instance abbrev pub account_status_eq : Compares AccountStatus
account_status_eq = record {
  equals = λ a b. nat_beq (account_status_rank a) (account_status_rank b);
  equals_iff = account_status_beq_iff;
}

pub data BusinessStatus : Type 0 where
  draft pending_review published paused sold rejected suspended archived : BusinessStatus

abbrev pub business_status_rank : BusinessStatus → ℕ
business_status_rank BusinessStatus.draft = 0
business_status_rank BusinessStatus.pending_review = 1
business_status_rank BusinessStatus.published = 2
business_status_rank BusinessStatus.paused = 3
business_status_rank BusinessStatus.sold = 4
business_status_rank BusinessStatus.rejected = 5
business_status_rank BusinessStatus.suspended = 6
business_status_rank BusinessStatus.archived = 7

business_status_rank_inj :
    (a b : BusinessStatus) → business_status_rank a ≡ business_status_rank b → a ≡ b
business_status_rank_inj a b h = ground arith

pub business_status_beq_iff :
    (a b : BusinessStatus)
    → (nat_beq (business_status_rank a) (business_status_rank b) ≡ true) ↔ (a ≡ b)
business_status_beq_iff a b = ground (arith, business_status_rank_inj a b)

instance abbrev pub business_status_eq : Compares BusinessStatus
business_status_eq = record {
  equals = λ a b. nat_beq (business_status_rank a) (business_status_rank b);
  equals_iff = business_status_beq_iff;
}

pub data ListingStatus : Type 0 where
  draft pending_review published unpublished sold expired suspended : ListingStatus

abbrev pub listing_status_rank : ListingStatus → ℕ
listing_status_rank ListingStatus.draft = 0
listing_status_rank ListingStatus.pending_review = 1
listing_status_rank ListingStatus.published = 2
listing_status_rank ListingStatus.unpublished = 3
listing_status_rank ListingStatus.sold = 4
listing_status_rank ListingStatus.expired = 5
listing_status_rank ListingStatus.suspended = 6

listing_status_rank_inj :
    (a b : ListingStatus) → listing_status_rank a ≡ listing_status_rank b → a ≡ b
listing_status_rank_inj a b h = ground arith

pub listing_status_beq_iff :
    (a b : ListingStatus)
    → (nat_beq (listing_status_rank a) (listing_status_rank b) ≡ true) ↔ (a ≡ b)
listing_status_beq_iff a b = ground (arith, listing_status_rank_inj a b)

instance abbrev pub listing_status_eq : Compares ListingStatus
listing_status_eq = record {
  equals = λ a b. nat_beq (listing_status_rank a) (listing_status_rank b);
  equals_iff = listing_status_beq_iff;
}

pub data ListingVisibility : Type 0 where
  public unlisted private : ListingVisibility

abbrev pub listing_visibility_rank : ListingVisibility → ℕ
listing_visibility_rank ListingVisibility.public = 0
listing_visibility_rank ListingVisibility.unlisted = 1
listing_visibility_rank ListingVisibility.private = 2

listing_visibility_rank_inj :
    (a b : ListingVisibility) → listing_visibility_rank a ≡ listing_visibility_rank b → a ≡ b
listing_visibility_rank_inj a b h = ground arith

pub listing_visibility_beq_iff :
    (a b : ListingVisibility)
    → (nat_beq (listing_visibility_rank a) (listing_visibility_rank b) ≡ true) ↔ (a ≡ b)
listing_visibility_beq_iff a b = ground (arith, listing_visibility_rank_inj a b)

instance abbrev pub listing_visibility_eq : Compares ListingVisibility
listing_visibility_eq = record {
  equals = λ a b. nat_beq (listing_visibility_rank a) (listing_visibility_rank b);
  equals_iff = listing_visibility_beq_iff;
}

pub data DocumentCategory : Type 0 where
  financial legal technical marketing operations other : DocumentCategory

abbrev pub document_category_rank : DocumentCategory → ℕ
document_category_rank DocumentCategory.financial = 0
document_category_rank DocumentCategory.legal = 1
document_category_rank DocumentCategory.technical = 2
document_category_rank DocumentCategory.marketing = 3
document_category_rank DocumentCategory.operations = 4
document_category_rank DocumentCategory.other = 5

document_category_rank_inj :
    (a b : DocumentCategory) → document_category_rank a ≡ document_category_rank b → a ≡ b
document_category_rank_inj a b h = ground arith

pub document_category_beq_iff :
    (a b : DocumentCategory)
    → (nat_beq (document_category_rank a) (document_category_rank b) ≡ true) ↔ (a ≡ b)
document_category_beq_iff a b = ground (arith, document_category_rank_inj a b)

instance abbrev pub document_category_eq : Compares DocumentCategory
document_category_eq = record {
  equals = λ a b. nat_beq (document_category_rank a) (document_category_rank b);
  equals_iff = document_category_beq_iff;
}

pub data DocumentVisibility : Type 0 where
  private deal_participants organization : DocumentVisibility

abbrev pub document_visibility_rank : DocumentVisibility → ℕ
document_visibility_rank DocumentVisibility.private = 0
document_visibility_rank DocumentVisibility.deal_participants = 1
document_visibility_rank DocumentVisibility.organization = 2

document_visibility_rank_inj :
    (a b : DocumentVisibility) → document_visibility_rank a ≡ document_visibility_rank b → a ≡ b
document_visibility_rank_inj a b h = ground arith

pub document_visibility_beq_iff :
    (a b : DocumentVisibility)
    → (nat_beq (document_visibility_rank a) (document_visibility_rank b) ≡ true) ↔ (a ≡ b)
document_visibility_beq_iff a b = ground (arith, document_visibility_rank_inj a b)

instance abbrev pub document_visibility_eq : Compares DocumentVisibility
document_visibility_eq = record {
  equals = λ a b. nat_beq (document_visibility_rank a) (document_visibility_rank b);
  equals_iff = document_visibility_beq_iff;
}

pub data DocumentAccessAction : Type 0 where
  uploaded viewed downloaded replaced deleted access_granted access_revoked : DocumentAccessAction

abbrev pub document_access_action_rank : DocumentAccessAction → ℕ
document_access_action_rank DocumentAccessAction.uploaded = 0
document_access_action_rank DocumentAccessAction.viewed = 1
document_access_action_rank DocumentAccessAction.downloaded = 2
document_access_action_rank DocumentAccessAction.replaced = 3
document_access_action_rank DocumentAccessAction.deleted = 4
document_access_action_rank DocumentAccessAction.access_granted = 5
document_access_action_rank DocumentAccessAction.access_revoked = 6

document_access_action_rank_inj :
    (a b : DocumentAccessAction)
    → document_access_action_rank a ≡ document_access_action_rank b
    → a ≡ b
document_access_action_rank_inj a b h = ground arith

pub document_access_action_beq_iff :
    (a b : DocumentAccessAction)
    → (nat_beq (document_access_action_rank a) (document_access_action_rank b) ≡ true) ↔ (a ≡ b)
document_access_action_beq_iff a b = ground (arith, document_access_action_rank_inj a b)

instance abbrev pub document_access_action_eq : Compares DocumentAccessAction
document_access_action_eq = record {
  equals = λ a b. nat_beq (document_access_action_rank a) (document_access_action_rank b);
  equals_iff = document_access_action_beq_iff;
}
