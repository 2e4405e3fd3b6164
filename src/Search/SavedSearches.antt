-- ===== src/Search/SavedSearches.antt =====
-- src/saved-searches/saved-searches.service.ts
use idea_project.Base.{ℕ, Bool, true, Option, none, some, List, String, ◌==◌, nat_eq, or_else}
use idea_project.Schema.{Db, SavedSearch, SearchListingsDto}
use idea_project.Common.{
  Action, ok, err, Error, ErrorCode, not_found_exception, ◌>>=◌, ◌>>◌, pure, gets, or_raise, modify,
  keep,
}
use idea_project.Common.Prisma.{Prisma}

-- src/saved-searches/dto/save-search.dto.ts, and the same with every field optional.
pub record SaveSearchDto : Type 0 where
  pub name : String
  pub filters : SearchListingsDto
  pub alerts_enabled : Option Bool

pub record UpdateSearchDto : Type 0 where
  pub name : Option String
  pub filters : Option SearchListingsDto
  pub alerts_enabled : Option Bool

abbrev pub is_search : ℕ → SavedSearch → Bool
is_search id x = x.id == id

abbrev pub is_search_of : ℕ → SavedSearch → Bool
is_search_of user_id x = x.user_id == user_id

abbrev pub new_search : ℕ → SaveSearchDto → ℕ → SavedSearch
new_search user_id dto id = record {
  id = id;
  user_id = user_id;
  name = dto.name;
  filters = dto.filters;
  alerts_enabled = or_else dto.alerts_enabled true;
  last_notified_at = none;
}

abbrev pub change_search : UpdateSearchDto → SavedSearch → SavedSearch
change_search dto x = record x {
  name = or_else dto.name x.name;
  filters = or_else dto.filters x.filters;
  alerts_enabled = or_else dto.alerts_enabled x.alerts_enabled;
}

abbrev pub set_searches : List SavedSearch → Db → Db
set_searches t s = record s { community = record s.community { saved_searches = t } }

abbrev pub save_searches : Option (List SavedSearch) → Action (Unit {0})
save_searches none s = (err Error.record_not_found, s)
save_searches (some t) s = (ok tt, set_searches t s)

module _ (prisma : Prisma) where
  -- The order of the answer is left out.
  unfoldable pub list : ℕ → Action (List SavedSearch)
  list user_id = gets λ s. prisma.find_many (is_search_of user_id) s.community.saved_searches

  unfoldable pub create : ℕ → SaveSearchDto → ℕ → Action SavedSearch
  create user_id dto id = do
    modify
        λ s. set_searches (prisma.create (new_search user_id dto id) s.community.saved_searches) s
    pure (new_search user_id dto id)

  unfoldable pub assert_owned : ℕ → ℕ → Action SavedSearch
  assert_owned user_id id = do
    found ← gets λ s. prisma.find_first (is_search id) s.community.saved_searches
    or_raise (keep (is_search_of user_id) found) (not_found_exception ErrorCode.not_found_error)

  unfoldable pub update : ℕ → ℕ → UpdateSearchDto → Action SavedSearch
  update user_id id dto = do
    search ← assert_owned user_id id
    λ s.
        save_searches (prisma.update (is_search id) (change_search dto) s.community.saved_searches)
          s
    pure (change_search dto search)

  unfoldable pub remove : ℕ → ℕ → Action (Unit {0})
  remove user_id id = do
    assert_owned user_id id
    λ s. save_searches (prisma.delete (is_search id) s.community.saved_searches) s
