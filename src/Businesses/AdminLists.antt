-- ===== src/Businesses/AdminLists.antt =====
-- The lists of src/admin/admin.service.ts, without the owners and businesses that are joined. Which of
-- two rows was made later is a parameter: the database fills the column `createdAt`.
use idea_project.Base.{ℕ, Bool, true, Option, none, some, List, map, ◌==◌, nat_eq}
use idea_project.Schema.{
  User, UserRole, AccountStatus, Business, BusinessStatus, business_status_eq, BusinessVerification,
  Report, Deal,
}
use idea_project.Common.{Action, Error, or_raise}
use idea_project.Common.Prisma.{Prisma}
use idea_project.Common.Pages.{CursorPaginationQuery, PaginatedResult, list_page}

-- The `select` of `listUsers`.
pub record ListedUser : Type 0 where
  pub id : ℕ
  pub email : ℕ
  pub role : UserRole
  pub status : AccountStatus
  pub last_login_at : Option ℕ

abbrev pub listed_user : User → ListedUser
listed_user u = record {
  id = u.id;
  email = u.email;
  role = u.role;
  status = u.status;
  last_login_at = u.last_login_at;
}

-- `query.status ? { status: query.status } : undefined`
abbrev pub has_status : Option BusinessStatus → Business → Bool
has_status none b = true
has_status (some status) b = b.status == status

-- Whether the first of two rows may stand before the second, latest first.
pub record LatestFirst : Type 0 where
  pub users : ListedUser → ListedUser → Bool
  pub businesses : Business → Business → Bool
  pub verifications : BusinessVerification → BusinessVerification → Bool
  pub reports : Report → Report → Bool
  pub deals : Deal → Deal → Bool

module _ (prisma : Prisma) (latest : LatestFirst) where
  abbrev pub page_of :
      {Row : Type 0}
      → (Row → ℕ)
      → (Row → Row → Bool)
      → CursorPaginationQuery
      → List Row
      → Action (PaginatedResult Row)
  page_of id order query rows s =
      or_raise (list_page prisma id 20 query (prisma.order_by order rows)) Error.failure s

  unfoldable pub list_users : CursorPaginationQuery → Action (PaginatedResult ListedUser)
  list_users query s = page_of (λ u. u.id) latest.users query (map listed_user s.users) s

  unfoldable pub list_businesses :
      CursorPaginationQuery → Option BusinessStatus → Action (PaginatedResult Business)
  list_businesses query status s =
      page_of (λ b. b.id) latest.businesses query
        (prisma.find_many (has_status status) s.businesses) s

  unfoldable pub list_verifications :
      CursorPaginationQuery → Action (PaginatedResult BusinessVerification)
  list_verifications query s =
      page_of (λ v. v.id) latest.verifications query s.evidence.verifications s

  unfoldable pub list_reports : CursorPaginationQuery → Action (PaginatedResult Report)
  list_reports query s = page_of (λ r. r.id) latest.reports query s.community.reports s

  unfoldable pub list_deals : CursorPaginationQuery → Action (PaginatedResult Deal)
  list_deals query s = page_of (λ d. d.id) latest.deals query s.deals s
