-- ===== src/Base/Updates.antt =====
-- How a conditional update changes what a search, a test or a count of the rows gives.
use Prim.Native.Nat.{◌≤◌}
use mathlib.Core.Path.{◌≡◌, refl, sym, ◌∙◌}
use mathlib.Core.Logic.{inl, inr, ◌≢◌}
use mathlib.Core.Bool.{Bool, true, false}
use mathlib.Core.List.{List, [], ◌∷◌}
use native.Mathlib.Omega.{arith}
use idea_project.Base.Tests.{if◌then◌else◌}
use idea_project.Base.Lists.{any, count, length, update_where, Elem, All}

module _ {A : Type 0} where
  -- An update that makes every row it touches fail the test leaves no row that passes it.
  pub any-update_where_self :
      (p : A → Bool) (f : A → A) (xs : List A)
      → ((a : A) → p a ≡ true → p (f a) ≡ false)
      → any p (update_where p f xs) ≡ false
  any-update_where_self p f [] h = refl
  any-update_where_self p f (x ∷ xs) h = ground (arith, h x, any-update_where_self p f xs h)

  -- An update of all rows that can pass the test, which makes them fail it.
  pub any-update_where_all :
      (q p : A → Bool) (f : A → A) (xs : List A)
      → ((a : A) → p a ≡ true → q (f a) ≡ false)
      → ((a : A) → p a ≡ false → q a ≡ false)
      → any q (update_where p f xs) ≡ false
  any-update_where_all q p f [] hit miss = refl
  any-update_where_all q p f (x ∷ xs) hit miss =
      ground (arith, hit x, miss x, any-update_where_all q p f xs hit miss)

  -- A test that the update does not change.
  pub any-update_where_same :
      (q p : A → Bool) (f : A → A) (xs : List A)
      → ((a : A) → q (f a) ≡ q a)
      → any q (update_where p f xs) ≡ any q xs
  any-update_where_same q p f [] h = refl
  any-update_where_same q p f (x ∷ xs) h = ground (arith, h x, any-update_where_same q p f xs h)

  -- An update that makes no row pass the test.
  pub any-update_where_le :
      (q p : A → Bool) (f : A → A) (xs : List A)
      → ((a : A) → p a ≡ true → q a ≡ false → q (f a) ≡ false)
      → any q xs ≡ false
      → any q (update_where p f xs) ≡ false
  any-update_where_le q p f [] h e = refl
  any-update_where_le q p f (x ∷ xs) h e = ground (arith, h x, any-update_where_le q p f xs h)

  pub count-update_where_same :
      (q p : A → Bool) (f : A → A) (xs : List A)
      → ((a : A) → p a ≡ true → q (f a) ≡ q a)
      → count q (update_where p f xs) ≡ count q xs
  count-update_where_same q p f [] h = refl
  count-update_where_same q p f (x ∷ xs) h = ground (arith, h x, count-update_where_same q p f xs h)

  pub count-zero_of_any : (p : A → Bool) (xs : List A) → any p xs ≡ false → count p xs ≡ 0
  count-zero_of_any p [] e = refl
  count-zero_of_any p (x ∷ xs) e = ground (arith, count-zero_of_any p xs)

  pub any-of_count : (p : A → Bool) (xs : List A) → count p xs ≢ 0 → any p xs ≡ true
  any-of_count p [] h = absurd (h refl)
  any-of_count p (x ∷ xs) h = ground (arith, any-of_count p xs)

  pub any-of_Elem : (p : A → Bool) (a : A) (xs : List A) → Elem a xs → p a ≡ true → any p xs ≡ true
  any-of_Elem p a [] m e = absurd m
  any-of_Elem p a (x ∷ xs) m e = ground (arith, any-of_Elem p a xs)

  pub Elem-update_where :
      (p : A → Bool) (f : A → A) (b : A) (xs : List A)
      → Elem b (update_where p f xs)
      → (a : A) × Elem a xs × (b ≡ (if p a then f a else a))
  Elem-update_where p f b [] m = absurd m
  Elem-update_where p f b (x ∷ xs) (inl e) = (x, inl refl, e)
  Elem-update_where p f b (x ∷ xs) (inr m) =
      let (a, at, e) = Elem-update_where p f b xs m in (a, inr at, e)

  pub any-update_where_of_Elem :
      (q p : A → Bool) (f : A → A) (a : A) (xs : List A)
      → Elem a xs
      → ((b : A) → q (f b) ≡ q b)
      → q a ≡ true
      → any q (update_where p f xs) ≡ true
  any-update_where_of_Elem q p f a xs m h e =
      ground (arith, any-update_where_same q p f xs h, any-of_Elem q a xs)

  pub length-update_where :
      (p : A → Bool) (f : A → A) (xs : List A) → length (update_where p f xs) ≡ length xs
  length-update_where p f [] = refl
  length-update_where p f (x ∷ xs) = ground (arith, length-update_where p f xs)

  pub elem-All {κ} : (P : A → Type κ) (a : A) (xs : List A) → All P xs → Elem a xs → P a
  elem-All P a [] h m = absurd m
  elem-All P a (x ∷ xs) h (inl e) = rw e h.0
  elem-All P a (x ∷ xs) h (inr m) = elem-All P a xs h.1 m

  pub any_mono :
      (p q : A → Bool) (xs : List A)
      → ((a : A) → p a ≡ true → q a ≡ true)
      → any p xs ≡ true
      → any q xs ≡ true
  any_mono p q [] h e = e
  any_mono p q (x ∷ xs) h e = ground (arith, h x, any_mono p q xs h)

  pub count-of_Elem : (p : A → Bool) (a : A) (xs : List A) → Elem a xs → p a ≡ true → count p xs ≢ 0
  count-of_Elem p a [] m e = absurd m
  count-of_Elem p a (x ∷ xs) (inl h) e = ground arith
  count-of_Elem p a (x ∷ xs) (inr m) e = ground (arith, count-of_Elem p a xs m e)

  -- Two rows that pass a test that at most one row passes.
  pub Elem-unique :
      (p : A → Bool) (a b : A) (xs : List A)
      → count p xs ≤ 1
      → Elem a xs
      → Elem b xs
      → p a ≡ true
      → p b ≡ true
      → a ≡ b
  Elem-unique p a b [] h m n e f = absurd m
  Elem-unique p a b (x ∷ xs) h (inl m) (inl n) e f = m ∙ sym n
  Elem-unique p a b (x ∷ xs) h (inl m) (inr n) e f = ground (arith, count-of_Elem p b xs n f)
  Elem-unique p a b (x ∷ xs) h (inr m) (inl n) e f = ground (arith, count-of_Elem p a xs m e)
  Elem-unique p a b (x ∷ xs) h (inr m) (inr n) e f = Elem-unique p a b xs (ground arith) m n e f

  pub update_where-same : (p : A → Bool) (xs : List A) → update_where p (λ x. x) xs ≡ xs
  update_where-same p [] = refl
  update_where-same p (x ∷ xs) = ground (arith, update_where-same p xs)

  pub update_where-none :
      (p : A → Bool) (f : A → A) (xs : List A) → any p xs ≡ false → update_where p f xs ≡ xs
  update_where-none p f [] h = refl
  update_where-none p f (x ∷ xs) h = ground (arith, update_where-none p f xs)
