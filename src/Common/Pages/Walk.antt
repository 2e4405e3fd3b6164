-- ===== src/Common/Pages/Walk.antt =====
-- Following the cursors of a list (src/common/utils/cursor-pagination.ts): how far one gets.
use idea_project.Base.{
  ℕ, zero, suc, ◌≤◌, ◌<◌, ◌≡◌, refl, true, false, Option, none, some, List, ◌++◌, length, take, ltb,
  arith, or_else, Bool-cases, inl, inr, is_some, ◌==◌, nat_eq,
}
use idea_project.Base.Slices.{
  last, drop, Distinct, take-drop, take-take-suc, length-take-suc, take-suc-all, length-take_le,
  length-drop, last-take, any-last-take, after-last-take, after-after, Distinct-after,
}
use idea_project.Common.Prisma.{Prisma, after_cursor}
use idea_project.Common.Pages.{
  CursorPaginationQuery, PaginatedResult, last, build_cursor_page, list_page,
}

-- The rows of one page in front of those of the next.
abbrev pub behind : {Row : Type 0} → List Row → Option (List Row) → Option (List Row)
behind rows none = none
behind rows (some rest) = some (rows ++ rest)

module _ {Row : Type 0} (id : Row → ℕ) where
  -- All rows that a reader gets who asks for page after page, with the cursor of the last, until a page
  -- has no cursor: none where a page is refused, and none where that is not so after `fuel` pages.
  unfoldable pub read_all : Prisma → ℕ → ℕ → Option ℕ → List Row → Option (List Row)
  read_all prisma zero limit cursor rows = none
  read_all prisma (suc fuel) limit cursor rows =
      elim (list_page prisma id limit (record { cursor = cursor; limit = none }) rows) [
        | none ↦ none
        | some page ↦ elim page.next_cursor [
          | none ↦ some page.data_rows
          | some c ↦ behind page.data_rows (read_all prisma fuel limit (some c) rows)
        ]
      ]

  -- The next page starts where this one ends.
  next_rows :
      (cursor : Option ℕ) (n : ℕ) (rows rest : List Row) (r : Row)
      → Distinct id rows
      → after_cursor id cursor rows ≡ rest
      → last (take n rest) ≡ some r
      → after_cursor id (some (id r)) rows ≡ drop n rest
  next_rows none n rows rest r d at e = ground (arith, after-last-take id n rows r d (ground arith))
  next_rows (some c) n rows rest r d at e = ground (
    arith,
    after-after id c (id r) rows d,
    any-last-take id n rest r e,
    after-last-take id n rest r (rw (← at) (Distinct-after id (λ x. id x == c) rows d)) e,
  )

  read_rest :
      (prisma : Prisma) (fuel limit : ℕ) (cursor : Option ℕ) (rows rest : List Row)
      → Distinct id rows
      → 0 < limit
      → after_cursor id cursor rows ≡ rest
      → length rest < fuel
      → read_all prisma fuel limit cursor rows ≡ some rest
  unfolding read_all list_page build_cursor_page
  read_rest prisma zero limit cursor rows rest d p at h = absurd (omega arith)
  read_rest prisma (suc fuel) limit cursor rows rest d p at h =
      elim (Bool-cases (ltb limit (length rest))) [
        | inl more ↦
            let (r, e) = last-take limit rest p (ground arith) in
            ground (
              arith,
              prisma.page_lem id (suc limit) cursor rows,
              length-take-suc limit rest,
              take-take-suc limit rest,
              take-drop limit rest,
              read_rest prisma fuel limit (some (id r)) rows (drop limit rest) d p
                  (next_rows cursor limit rows rest r d at e)
                  (ground (arith, length-drop limit rest)),
            )
        | inr done ↦ ground (
          arith,
          prisma.page_lem id (suc limit) cursor rows,
          length-take-suc limit rest,
          take-suc-all limit rest done,
        )
      ]

  -- Following the cursors of a list whose rows have different identifiers, with at least one row to
  -- a page, comes to a page without a cursor after no more pages than there are rows and one, and gives
  -- every row once and in order.
  pub read_all-equals :
      (prisma : Prisma) (limit : ℕ) (rows : List Row)
      → Distinct id rows
      → 0 < limit
      → read_all prisma (suc (length rows)) limit none rows ≡ some rows
  read_all-equals prisma limit rows d p =
      read_rest prisma (suc (length rows)) limit none rows rows d p refl (omega arith)

  build-bounded :
      (items : List Row) (limit : ℕ)
      → 0 < limit
      → (page : PaginatedResult Row) × (build_cursor_page id items limit ≡ some page)
        × (length page.data_rows ≤ limit)
        × (page.has_more ≡ is_some page.next_cursor)
  unfolding build_cursor_page
  build-bounded items limit p = elim (Bool-cases (ltb limit (length items))) [
    | inl more ↦
        let (r, e) = last-take limit items p (ground arith) in
        (
          record { data_rows = take limit items; next_cursor = some (id r); has_more = true },
          ground arith,
          length-take_le limit items,
          refl,
        )
    | inr done ↦ (
      record { data_rows = items; next_cursor = none; has_more = false },
      ground arith,
      ground arith,
      refl,
    )
  ]

  -- With a limit of at least one a request is answered, by a page that holds no more rows than the
  -- limit and has a cursor exactly when it says that there is more.
  list_page-bounded :
      (prisma : Prisma) (limit : ℕ) (query : CursorPaginationQuery) (rows : List Row)
      → 0 < or_else query.limit limit
      → (page : PaginatedResult Row) × (list_page prisma id limit query rows ≡ some page)
        × (length page.data_rows ≤ or_else query.limit limit)
        × (page.has_more ≡ is_some page.next_cursor)
  unfolding list_page
  list_page-bounded prisma limit query rows p =
      build-bounded (prisma.page id (suc (or_else query.limit limit)) query.cursor rows)
        (or_else query.limit limit) p
