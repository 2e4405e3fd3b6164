-- ===== src/Search/Alerting.antt =====
-- Who hears of a business (src/jobs/processors/saved-search.processor.ts).
use idea_project.Base.{
  ℕ, ◌≡◌, refl, Bool, true, false, ◌&&◌, ◌||◌, some, List, [], ◌∷◌, ◌==◌, nat_eq, any, filter,
  update_where, arith, if◌then◌else◌, Bool-cases, inl, inr, All, Elem,
}
use idea_project.Base.Slices.{Distinct}
use idea_project.Base.Updates.{any-update_where_same, any-of_Elem}
use idea_project.Schema.{Db, Business, BusinessStatus, business_status_eq, SavedSearch}
use idea_project.Common.{ok}
use idea_project.Common.Prisma.{Prisma}
use idea_project.Common.Notify.{notify_outbox, notify_each}
use idea_project.Businesses.Service.{is_business}
use idea_project.Search.SavedSearches.{is_search}
use idea_project.Search.Alerts.{
  matches, describe, alert, alert_each, tell, process, set_notified, AlertView, with_alerts,
}

-- Some search of the list has the identifier, and matches.
abbrev is_told : AlertView → List SavedSearch → SavedSearch → Bool
is_told view ys x = any (λ y. is_search y.id x && matches y.filters view) ys

update_where-nothing : {A : Type 0} (f : A → A) (xs : List A) → update_where (λ a. false) f xs ≡ xs
update_where-nothing f [] = refl
update_where-nothing f (x ∷ xs) = ground (arith, update_where-nothing f xs)

update_where-twice :
    {A : Type 0} (p q : A → Bool) (f : A → A) (xs : List A)
    → ((a : A) → q (f a) ≡ q a)
    → ((a : A) → f (f a) ≡ f a)
    → update_where q f (update_where p f xs) ≡ update_where (λ a. p a || q a) f xs
update_where-twice p q f [] same twice = refl
update_where-twice p q f (x ∷ xs) same twice =
    ground (arith, same x, twice x, update_where-twice p q f xs same twice)

update_where-congr :
    {A : Type 0} (p q : A → Bool) (f : A → A) (xs : List A)
    → ((a : A) → Elem a xs → p a ≡ q a)
    → update_where p f xs ≡ update_where q f xs
update_where-congr p q f [] same = refl
update_where-congr p q f (x ∷ xs) same =
    ground (arith, same x (inl refl), update_where-congr p q f xs (λ a m. same a (inr m)))

-- Every search of the list is in the table.
abbrev Present : List SavedSearch → List SavedSearch → Type 0
Present ys t = All (λ y. any (is_search y.id) t ≡ true) ys

Present-update :
    (ys t : List SavedSearch) (p : SavedSearch → Bool) (now : ℕ)
    → Present ys t
    → Present ys (update_where p (set_notified now) t)
Present-update [] t p now h = tt
Present-update (y ∷ ys) t p now h = (
  rw (any-update_where_same (is_search y.id) p (set_notified now) t (λ (a : SavedSearch). refl))
      h.0,
  Present-update ys t p now h.1,
)

Present-filter :
    (t u : List SavedSearch)
    → ((x : SavedSearch) → Elem x t → Elem x u)
    → Present (filter with_alerts t) u
Present-filter [] u sub = tt
Present-filter (x ∷ t) u sub =
    let rest = Present-filter t u (λ y m. sub y (inr m)) in
    elim (Bool-cases x.alerts_enabled) [
      | inl on ↦ rw on (any-of_Elem (is_search x.id) x u (sub x (inl refl)) (ground arith), rest)
      | inr off ↦ rw off rest
    ]

others_silent :
    (view : AlertView) (x : SavedSearch) (t : List SavedSearch)
    → any (λ r. r.id == x.id) t ≡ false
    → is_told view (filter with_alerts t) x ≡ false
others_silent view x [] h = refl
others_silent view x (y ∷ t) h = ground (arith, others_silent view x t)

told_own :
    (view : AlertView) (x : SavedSearch) (t : List SavedSearch)
    → Distinct (λ r. r.id) t
    → Elem x t
    → is_told view (filter with_alerts t) x ≡ (x.alerts_enabled && matches x.filters view)
told_own view x [] d m = absurd m
told_own view x (y ∷ t) d (inl same) = ground (arith, others_silent view y t d.0)
told_own view x (y ∷ t) d (inr m) =
    ground (arith, any-of_Elem (λ (r : SavedSearch). r.id == y.id) x t m, told_own view x t d.1 m)

module _ (prisma : Prisma) where
  -- The database after the alerts about a business.
  abbrev pub alerted : ℕ → AlertView → ℕ → List SavedSearch → (SavedSearch → Bool) → Db → Db
  alerted business_id view now told marked s = record s {
    community = record s.community {
      saved_searches = update_where marked (set_notified now) s.community.saved_searches;
    };
    outbox = notify_each prisma told (alert business_id) s.outbox;
  }

  told_one : ℕ → SavedSearch → ℕ → Db → Db
  told_one business_id y now s = record s {
    community = record s.community {
      saved_searches = update_where (is_search y.id) (set_notified now) s.community.saved_searches;
    };
    outbox = notify_outbox prisma (alert business_id y) s.outbox;
  }

  tell-told_one :
      (business_id : ℕ) (y : SavedSearch) (now : ℕ) (s : Db)
      → any (is_search y.id) s.community.saved_searches ≡ true
      → tell prisma business_id y now s ≡ (ok tt, told_one business_id y now s)
  unfolding told_one
  tell-told_one business_id y now s h =
      ground
        (arith, prisma.update_lem (is_search y.id) (set_notified now) s.community.saved_searches)

  alert_each-alerted :
      (business_id : ℕ) (view : AlertView) (now : ℕ) (ys : List SavedSearch) (s : Db)
      → Present ys s.community.saved_searches
      → alert_each prisma business_id view now ys s ≡ (
        ok tt,
        alerted business_id view now (filter (λ y. matches y.filters view) ys) (is_told view ys) s,
      )
  unfolding alert_each notify_each told_one
  alert_each-alerted business_id view now [] s h =
      rw (update_where-nothing (set_notified now) s.community.saved_searches) refl
  alert_each-alerted business_id view now (y ∷ ys) s h =
      elim (Bool-cases (matches y.filters view)) [
        | inl hit ↦
            let t = s.community.saved_searches in
            let next =
              alert_each-alerted business_id view now ys (told_one business_id y now s)
                (Present-update ys t (is_search y.id) now h.1) in
            rw
              (
                hit,
                tell-told_one business_id y now s h.0,
                next,
                update_where-twice (is_search y.id) (is_told view ys) (set_notified now) t
                    (λ (a : SavedSearch). refl) (λ (a : SavedSearch). refl),
                update_where-congr (is_told view (y ∷ ys))
                    (λ x. is_search y.id x || is_told view ys x) (set_notified now) t
                    (λ x m. ground arith),
              )
              refl
        | inr miss ↦
            rw
              (
                miss,
                alert_each-alerted business_id view now ys s h.1,
                update_where-congr (is_told view (y ∷ ys)) (is_told view ys) (set_notified now)
                    s.community.saved_searches (λ x m. ground arith),
              )
              refl
      ]

  -- When no two saved searches have the same identifier, the processor tells, for a business that it
  -- finds in PUBLISHED, the owner of each search that has alerts and matches the business, once a
  -- search, and marks exactly these searches as told; for a business in another status nothing
  -- changes. It looks neither at the listing's visibility nor at the deletion of the business.
  pub process-tells :
      (business_id now : ℕ) (b : Business) (s : Db)
      → Distinct (λ x. x.id) s.community.saved_searches
      → prisma.find_first (is_business business_id) s.businesses ≡ some b
      → process prisma business_id now s ≡ (
          if b.status == BusinessStatus.published
          then (
            ok tt,
            alerted b.id
                (describe prisma b s)
                now
                (filter
                  (λ x. matches x.filters (describe prisma b s))
                  (filter with_alerts s.community.saved_searches))
                (λ x. x.alerts_enabled && matches x.filters (describe prisma b s))
                s,
          )
          else (ok tt, s))
  unfolding process
  process-tells business_id now b s d found =
      elim (Bool-cases (b.status == BusinessStatus.published)) [
        | inl live ↦
            let t = s.community.saved_searches in
            let view = describe prisma b s in
            rw
              (
                found,
                live,
                prisma.find_many_lem with_alerts t,
                alert_each-alerted b.id view now (filter with_alerts t) s
                    (Present-filter t t (λ x m. m)),
                update_where-congr (is_told view (filter with_alerts t))
                    (λ x. x.alerts_enabled && matches x.filters view) (set_notified now) t
                    (λ x m. told_own view x t d m),
              )
              refl
        | inr other ↦ rw (found, other) refl
      ]
