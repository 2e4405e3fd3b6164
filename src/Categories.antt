-- ===== src/Categories.antt =====
-- src/categories/categories.service.ts. The slug that `uniqueSlug` makes is an argument, and the order of
-- the list is left out.
use package.text.Mathlib.Text.{◌==◌ as str_eq}
use idea_project.Base.{ℕ, Bool, true, ◌||◌, Option, none, some, List, String, ◌==◌, nat_eq}
use idea_project.Schema.{BusinessCategory}
use idea_project.Common.{Action, ok, err, Error, ◌>>◌, pure, gets}
use idea_project.Common.Prisma.{Prisma}

-- The rows that the unique columns keep a new one from.
abbrev pub is_taken : BusinessCategory → BusinessCategory → Bool
is_taken c d = d.id == c.id || str_eq d.name c.name || str_eq d.slug c.slug

abbrev save_categories : Option (List BusinessCategory) → Action (Unit {0})
save_categories none s = (err Error.unique_violation, s)
save_categories (some t) s = (ok tt, record s { community = record s.community { categories = t } })

module _ (prisma : Prisma) where
  unfoldable pub list : Action (List BusinessCategory)
  list = gets λ s. prisma.find_many (λ c. true) s.community.categories

  unfoldable pub create : String → String → ℕ → Action BusinessCategory
  create name slug id = do
    let category : BusinessCategory = record { id = id; name = name; slug = slug }
    λ s.
        save_categories (prisma.create_unique (is_taken category) category s.community.categories) s
    pure category
