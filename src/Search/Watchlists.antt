-- ===== src/Search/Watchlists.antt =====
-- src/watchlists/watchlists.service.ts
use idea_project.Base.{ℕ, Bool, ◌&&◌, List, ◌==◌, nat_eq}
use idea_project.Schema.{Db, Watchlist}
use idea_project.Common.{Action, gets, modify}
use idea_project.Common.Prisma.{Prisma}

-- `{ userId_businessId: { userId, businessId } }`
abbrev pub is_watched : ℕ → ℕ → Watchlist → Bool
is_watched user_id business_id w = w.user_id == user_id && w.business_id == business_id

abbrev pub set_watchlists : List Watchlist → Db → Db
set_watchlists t s = record s { community = record s.community { watchlists = t } }

module _ (prisma : Prisma) where
  -- The businesses that are joined, and the order of the answer, are left out.
  unfoldable pub list : ℕ → Action (List Watchlist)
  list user_id = gets λ s. prisma.find_many (λ w. w.user_id == user_id) s.community.watchlists

  unfoldable pub add : ℕ → ℕ → Action (Unit {0})
  add user_id business_id = modify λ s.
      set_watchlists
        (prisma.upsert (is_watched user_id business_id)
          (record { user_id = user_id; business_id = business_id }) (λ w. w) s.community.watchlists)
        s

  unfoldable pub remove : ℕ → ℕ → Action (Unit {0})
  remove user_id business_id = modify λ s.
      set_watchlists (prisma.delete_many (is_watched user_id business_id) s.community.watchlists) s
