-- ===== src/Common/Prisma.antt =====
-- The database client (@prisma/client), which is no code of the repository: the queries that the
-- services make, with the behaviour that its documentation gives. A table is the list of its rows.
pub mod Search
use idea_project.Base.{
  ℕ, ◌≡◌, refl, Bool, true, false, Option, none, some, List, [], ◌∷◌, arith, if◌then◌else◌, any,
  find?, filter, count, update_where, Elem, not, take, after, ◌==◌, nat_eq, inl, inr, Bool-cases,
}
use idea_project.Schema.{Db}
use idea_project.Common.Monad.{Action, settle}

-- Each row may stand before the next.
abbrev pub Ordered : {Row : Type 0} → (Row → Row → Bool) → List Row → Type 0
Ordered le [] = Unit
Ordered le (x ∷ []) = Unit
Ordered le (x ∷ y ∷ t) = (le x y ≡ true) × Ordered le (y ∷ t)

-- The rows that a cursor leaves: without one all, with one those after its row.
abbrev pub after_cursor : {Row : Type 0} → (Row → ℕ) → Option ℕ → List Row → List Row
after_cursor id none t = t
after_cursor id (some c) t = after (λ r. id r == c) t

pub record Prisma : Type 1 where
  -- `findFirst` and `findUnique`: some row that passes the test.
  pub find_first : {Row : Type 0} → (Row → Bool) → List Row → Option Row
  pub find_many : {Row : Type 0} → (Row → Bool) → List Row → List Row
  pub count_where : {Row : Type 0} → (Row → Bool) → List Row → ℕ
  pub create : {Row : Type 0} → Row → List Row → List Row
  -- `create` under a unique constraint, given the rows that collide with the new one.
  pub create_unique : {Row : Type 0} → (Row → Bool) → Row → List Row → Option (List Row)
  -- `update` by a unique key, which throws when there is no such row.
  pub update : {Row : Type 0} → (Row → Bool) → (Row → Row) → List Row → Option (List Row)
  -- `updateMany` returns the number of rows that it changed.
  pub update_many : {Row : Type 0} → (Row → Bool) → (Row → Row) → List Row → List Row × ℕ
  pub upsert : {Row : Type 0} → (Row → Bool) → Row → (Row → Row) → List Row → List Row
  -- `delete` by a unique key, which throws when there is no such row, and `deleteMany`.
  pub delete : {Row : Type 0} → (Row → Bool) → List Row → Option (List Row)
  pub delete_many : {Row : Type 0} → (Row → Bool) → List Row → List Row
  -- `orderBy`, given which of two rows may stand before the other.
  pub order_by : {Row : Type 0} → (Row → Row → Bool) → List Row → List Row
  -- `take` with `cursor` and `skip: 1`, given the identifier of a row.
  pub page : {Row : Type 0} → (Row → ℕ) → ℕ → Option ℕ → List Row → List Row
  -- `$transaction`: a throw inside takes back what was written.
  pub transaction : {A : Type 0} → Action A → Action A
  pub find_first-some :
      {Row : Type 0} (p : Row → Bool) (t : List Row) (r : Row)
      → find_first p t ≡ some r
      → (p r ≡ true) × Elem r t
  pub find_first-none :
      {Row : Type 0} (p : Row → Bool) (t : List Row) → find_first p t ≡ none → any p t ≡ false
  pub find_many_lem : {Row : Type 0} (p : Row → Bool) (t : List Row) → find_many p t ≡ filter p t
  pub count_where_lem : {Row : Type 0} (p : Row → Bool) (t : List Row) → count_where p t ≡ count p t
  pub create_lem : {Row : Type 0} (r : Row) (t : List Row) → create r t ≡ r ∷ t
  pub create_unique_lem :
      {Row : Type 0} (p : Row → Bool) (r : Row) (t : List Row)
      → create_unique p r t ≡ (if any p t then none else some (r ∷ t))
  pub update_lem :
      {Row : Type 0} (p : Row → Bool) (f : Row → Row) (t : List Row)
      → update p f t ≡ (if any p t then some (update_where p f t) else none)
  pub update_many_lem :
      {Row : Type 0} (p : Row → Bool) (f : Row → Row) (t : List Row)
      → update_many p f t ≡ (update_where p f t, count p t)
  pub upsert_lem :
      {Row : Type 0} (p : Row → Bool) (r : Row) (f : Row → Row) (t : List Row)
      → upsert p r f t ≡ (if any p t then update_where p f t else r ∷ t)
  pub delete_lem :
      {Row : Type 0} (p : Row → Bool) (t : List Row)
      → delete p t ≡ (if any p t then some (filter (λ r. not (p r)) t) else none)
  pub delete_many_lem :
      {Row : Type 0} (p : Row → Bool) (t : List Row) → delete_many p t ≡ filter (λ r. not (p r)) t
  -- The same rows, as often.
  pub count-order_by :
      {Row : Type 0} (le : Row → Row → Bool) (t : List Row) (q : Row → Bool)
      → count q (order_by le t) ≡ count q t
  pub order_by-Ordered :
      {Row : Type 0} (le : Row → Row → Bool) (t : List Row)
      → ((a b : Row) → le a b ≡ false → le b a ≡ true)
      → Ordered le (order_by le t)
  pub page_lem :
      {Row : Type 0} (id : Row → ℕ) (n : ℕ) (cursor : Option ℕ) (t : List Row)
      → page id n cursor t ≡ take n (after_cursor id cursor t)
  pub transaction_lem : {A : Type 0} (m : Action A) (s : Db) → transaction m s ≡ settle s (m s)

-- A client that meets the description: plain functions on lists.
pub find?-some :
    {Row : Type 0} (p : Row → Bool) (t : List Row) (r : Row)
    → find? p t ≡ some r
    → (p r ≡ true) × Elem r t
find?-some p [] r e = cc
find?-some p (x ∷ t) r e = elim (Bool-cases (p x)) [
  | inl hit ↦ ground arith
  | inr miss ↦ ground (arith, find?-some p t r)
]

pub find?-none : {Row : Type 0} (p : Row → Bool) (t : List Row) → find? p t ≡ none → any p t ≡ false
find?-none p [] e = refl
find?-none p (x ∷ t) e = ground (arith, find?-none p t)

unfoldable pub insert : {Row : Type 0} → (Row → Row → Bool) → Row → List Row → List Row
insert le r [] = r ∷ []
insert le r (x ∷ t) = if le r x then r ∷ x ∷ t else x ∷ insert le r t

unfoldable pub insertion_sort : {Row : Type 0} → (Row → Row → Bool) → List Row → List Row
insertion_sort le [] = []
insertion_sort le (x ∷ t) = insert le x (insertion_sort le t)

module _ {Row : Type 0} (le : Row → Row → Bool) where
  count-insert :
      (q : Row → Bool) (r : Row) (t : List Row) → count q (insert le r t) ≡ count q (r ∷ t)
  unfolding insert
  count-insert q r [] = refl
  count-insert q r (x ∷ t) = ground (arith, count-insert q r t)

  pub count-insertion_sort :
      (t : List Row) (q : Row → Bool) → count q (insertion_sort le t) ≡ count q t
  unfolding insertion_sort
  count-insertion_sort [] q = refl
  count-insertion_sort (x ∷ t) q =
      ground (arith, count-insert q x (insertion_sort le t), count-insertion_sort t q)

  insert-Ordered :
      (r : Row) (t : List Row)
      → ((a b : Row) → le a b ≡ false → le b a ≡ true)
      → Ordered le t
      → Ordered le (insert le r t)
  unfolding insert
  insert-Ordered r [] total h = tt
  insert-Ordered r (x ∷ []) total h = ground (arith, total r x)
  insert-Ordered r (x ∷ y ∷ t) total h =
      ground (arith, total r x, insert-Ordered r (y ∷ t) total h.1)

  pub insertion_sort-Ordered :
      (t : List Row)
      → ((a b : Row) → le a b ≡ false → le b a ≡ true)
      → Ordered le (insertion_sort le t)
  unfolding insertion_sort
  insertion_sort-Ordered [] total = tt
  insertion_sort-Ordered (x ∷ t) total =
      insert-Ordered x (insertion_sort le t) total (insertion_sort-Ordered t total)

abbrev pub list_prisma : Prisma
list_prisma = record {
  find_first = find?;
  find_many = filter;
  count_where = count;
  create = λ r t. r ∷ t;
  create_unique = λ p r t. if any p t then none else some (r ∷ t);
  update = λ p f t. if any p t then some (update_where p f t) else none;
  update_many = λ p f t. (update_where p f t, count p t);
  upsert = λ p r f t. if any p t then update_where p f t else r ∷ t;
  delete = λ p t. if any p t then some (filter (λ r. not (p r)) t) else none;
  delete_many = λ p t. filter (λ r. not (p r)) t;
  order_by = insertion_sort;
  page = λ id n cursor t. take n (after_cursor id cursor t);
  transaction = λ m s. settle s (m s);
  find_first-some = find?-some;
  find_first-none = find?-none;
  find_many_lem = λ p t. refl;
  count_where_lem = λ p t. refl;
  create_lem = λ r t. refl;
  create_unique_lem = λ p r t. refl;
  update_lem = λ p f t. refl;
  update_many_lem = λ p f t. refl;
  upsert_lem = λ p r f t. refl;
  delete_lem = λ p t. refl;
  delete_many_lem = λ p t. refl;
  count-order_by = count-insertion_sort;
  order_by-Ordered = insertion_sort-Ordered;
  page_lem = λ id n cursor t. refl;
  transaction_lem = λ m s. refl;
}
