-- ===== src/Common/Pages.antt =====
-- src/common/utils/cursor-pagination.ts and src/common/dto/pagination.dto.ts: one page of a list.
pub mod Walk
pub mod Rows
use idea_project.Base.{
  ℕ, suc, Bool, Option, none, some, List, [], ◌∷◌, map, length, take, ltb, or_else, if◌then◌else◌,
  true, false,
}
use idea_project.Base.Slices.{last}
use idea_project.Common.Prisma.{Prisma}

pub record CursorPaginationQuery : Type 0 where
  pub cursor : Option ℕ
  pub limit : Option ℕ

pub record PaginatedResult (Row : Type 0) : Type 0 where
  pub data_rows : List Row
  pub next_cursor : Option ℕ
  pub has_more : Bool

-- A full page: reading `id` of the last row of an empty one throws.
abbrev full_page : {Row : Type 0} → (Row → ℕ) → List Row → Option (PaginatedResult Row)
full_page id rows = elim (last rows) [
  | none ↦ none
  | some r ↦ some (record { data_rows = rows; next_cursor = some (id r); has_more = true })
]

unfoldable pub build_cursor_page :
    {Row : Type 0} → (Row → ℕ) → List Row → ℕ → Option (PaginatedResult Row)
build_cursor_page id items limit =
    if ltb limit (length items)
    then full_page id (take limit items)
    else some (record { data_rows = items; next_cursor = none; has_more = false })

-- What the lists of the services share: `findMany` with `take: limit + 1` and the cursor of the
-- request, given the rows in their order, and the page of what it gives.
unfoldable pub list_page :
    {Row : Type 0}
    → Prisma
    → (Row → ℕ)
    → ℕ
    → CursorPaginationQuery
    → List Row
    → Option (PaginatedResult Row)
list_page prisma id default_limit query rows =
    let limit : ℕ = or_else query.limit default_limit in
    build_cursor_page id (prisma.page id (suc limit) query.cursor rows) limit
