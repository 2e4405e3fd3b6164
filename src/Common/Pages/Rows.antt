-- ===== src/Common/Pages/Rows.antt =====
-- A page of a list holds no row that the list does not hold (src/common/utils/cursor-pagination.ts).
use idea_project.Base.{
  ℕ, zero, suc, ◌≡◌, Bool, false, List, [], ◌∷◌, ◌==◌, nat_eq, any, count, arith, Option-cases, inl,
  inr, some, none, Option, take, after, or_else, filter, not, refl, ◌∙◌,
}
use idea_project.Base.Updates.{count-zero_of_any}
use idea_project.Base.Slices.{last}
use idea_project.Common.Prisma.{Prisma, after_cursor}
use idea_project.Common.Pages.{CursorPaginationQuery, PaginatedResult, list_page, build_cursor_page}

module _ {A : Type 0} (p : A → Bool) where
  pub any-of_count_zero : (xs : List A) → count p xs ≡ 0 → any p xs ≡ false
  any-of_count_zero [] h = refl
  any-of_count_zero (x ∷ xs) h = ground (arith, any-of_count_zero xs)

  none_take : (n : ℕ) (xs : List A) → any p xs ≡ false → any p (take n xs) ≡ false
  none_take zero xs h = refl
  none_take (suc n) [] h = refl
  none_take (suc n) (x ∷ xs) h = ground (arith, none_take n xs)

  none_after : (q : A → Bool) (xs : List A) → any p xs ≡ false → any p (after q xs) ≡ false
  none_after q [] h = refl
  none_after q (x ∷ xs) h = ground (arith, none_after q xs)

  none_cursor :
      (id : A → ℕ) (cursor : Option ℕ) (xs : List A)
      → any p xs ≡ false
      → any p (after_cursor id cursor xs) ≡ false
  none_cursor id none xs h = h
  none_cursor id (some c) xs h = none_after (λ r. id r == c) xs h

  none_build :
      (id : A → ℕ) (limit : ℕ) (items : List A) (page : PaginatedResult A)
      → any p items ≡ false
      → build_cursor_page id items limit ≡ some page
      → any p page.data_rows ≡ false
  unfolding build_cursor_page
  none_build id limit items page h e = elim (Option-cases (last (take limit items))) [
    | inl empty ↦ ground arith
    | inr (r, full) ↦ ground (arith, none_take limit items h)
  ]

  pub none_page :
      (prisma : Prisma) (id : A → ℕ) (limit : ℕ) (query : CursorPaginationQuery) (rows : List A)
      (page : PaginatedResult A)
      → any p rows ≡ false
      → list_page prisma id limit query rows ≡ some page
      → any p page.data_rows ≡ false
  unfolding list_page
  none_page prisma id limit query rows page h e =
      let n = or_else query.limit limit in
      none_build id n (prisma.page id (suc n) query.cursor rows) page
        (rw (prisma.page_lem id (suc n) query.cursor rows) (
          none_take (suc n) (after_cursor id query.cursor rows)
            (none_cursor id query.cursor rows h)))
        e

  pub none_order_by :
      (prisma : Prisma) (le : A → A → Bool) (xs : List A)
      → any p xs ≡ false
      → any p (prisma.order_by le xs) ≡ false
  none_order_by prisma le xs h =
      any-of_count_zero (prisma.order_by le xs)
        (prisma.count-order_by le xs p ∙ count-zero_of_any p xs h)

pub none_filter :
    {A : Type 0} (p : A → Bool) (xs : List A) → any (λ x. not (p x)) (filter p xs) ≡ false
none_filter p [] = refl
none_filter p (x ∷ xs) = ground (arith, none_filter p xs)
