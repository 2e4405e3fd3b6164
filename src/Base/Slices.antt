-- ===== src/Base/Slices.antt =====
-- The beginning of a list, what comes after it, and what stands after a row that is looked for.
use Prim.Native.Nat.{ℕ, zero, suc, ◌<◌, ◌≤◌}
use mathlib.Core.Path.{◌≡◌, refl}
use mathlib.Core.Bool.{Bool, true, false}
use mathlib.Core.Option.{Option, none, some}
use mathlib.Core.List.{List, [], ◌∷◌, ◌++◌}
use native.Mathlib.Omega.{arith}
use idea_project.Base.Tests.{ltb, ◌==◌, nat_eq}
use idea_project.Base.Lists.{length, take, after, any}

-- `data[data.length - 1]`
unfoldable pub last : {Row : Type 0} → List Row → Option Row
last [] = none
last (x ∷ []) = some x
last (x ∷ y ∷ xs) = last (y ∷ xs)

module _ {A : Type 0} where
  abbrev pub drop : ℕ → List A → List A
  drop zero xs = xs
  drop (suc n) [] = []
  drop (suc n) (x ∷ xs) = drop n xs

  pub take-drop : (n : ℕ) (xs : List A) → take n xs ++ drop n xs ≡ xs
  take-drop zero xs = refl
  take-drop (suc n) [] = refl
  take-drop (suc n) (x ∷ xs) = ground (arith, take-drop n xs)

  pub take-take-suc : (n : ℕ) (xs : List A) → take n (take (suc n) xs) ≡ take n xs
  take-take-suc zero xs = refl
  take-take-suc (suc n) [] = refl
  take-take-suc (suc n) (x ∷ xs) = ground (arith, take-take-suc n xs)

  pub length-take-suc : (n : ℕ) (xs : List A) → ltb n (length (take (suc n) xs)) ≡ ltb n (length xs)
  length-take-suc zero [] = refl
  length-take-suc zero (x ∷ xs) = ground arith
  length-take-suc (suc n) [] = refl
  length-take-suc (suc n) (x ∷ xs) = ground (arith, length-take-suc n xs)

  pub take-suc-all : (n : ℕ) (xs : List A) → ltb n (length xs) ≡ false → take (suc n) xs ≡ xs
  take-suc-all n [] h = refl
  take-suc-all zero (x ∷ xs) h = ground arith
  take-suc-all (suc n) (x ∷ xs) h = ground (arith, take-suc-all n xs)

  pub length-take_le : (n : ℕ) (xs : List A) → length (take n xs) ≤ n
  length-take_le zero xs = omega arith
  length-take_le (suc n) [] = omega arith
  length-take_le (suc n) (x ∷ xs) = ground (arith, length-take_le n xs)

  pub length-drop :
      (n : ℕ) (xs : List A) → ltb 0 (length xs) ≡ true → 0 < n → length (drop n xs) < length xs
  length-drop zero xs h p = ground arith
  length-drop (suc zero) (x ∷ xs) h p = omega arith
  length-drop (suc (suc n)) (x ∷ []) h p = omega arith
  length-drop (suc (suc n)) (x ∷ y ∷ xs) h p =
      ground (arith, length-drop (suc n) (y ∷ xs) (ground arith) (omega arith))
  length-drop (suc n) [] h p = ground arith

  -- A full page has a last row.
  pub last-take :
      (n : ℕ) (xs : List A)
      → 0 < n
      → ltb 0 (length xs) ≡ true
      → (r : A) × (last (take n xs) ≡ some r)
  unfolding last
  last-take zero xs p h = absurd (omega arith)
  last-take (suc n) [] p h = absurd (ground arith)
  last-take (suc zero) (x ∷ xs) p h = (x, refl)
  last-take (suc (suc n)) (x ∷ []) p h = (x, refl)
  last-take (suc (suc n)) (x ∷ y ∷ xs) p h =
      let (r, e) = last-take (suc n) (y ∷ xs) (omega arith) (ground arith) in (r, e)

module _ {Row : Type 0} (id : Row → ℕ) where
  -- No two rows have the same identifier.
  abbrev pub Distinct : List Row → Type 0
  Distinct [] = Unit
  Distinct (x ∷ xs) = (any (λ r. id r == id x) xs ≡ false) × Distinct xs

  pub Distinct-after : (p : Row → Bool) (xs : List Row) → Distinct xs → Distinct (after p xs)
  Distinct-after p [] h = tt
  Distinct-after p (x ∷ xs) h = ground (arith, Distinct-after p xs h.1)

  pub any-after : (p q : Row → Bool) (xs : List Row) → any q (after p xs) ≡ true → any q xs ≡ true
  any-after p q [] h = h
  any-after p q (x ∷ xs) h = ground (arith, any-after p q xs)

  pub any-last-take :
      (n : ℕ) (xs : List Row) (r : Row)
      → last (take n xs) ≡ some r
      → any (λ x. id x == id r) xs ≡ true
  unfolding last
  any-last-take zero xs r e = cc
  any-last-take (suc n) [] r e = cc
  any-last-take (suc zero) (x ∷ xs) r e = ground arith
  any-last-take (suc (suc n)) (x ∷ []) r e = ground arith
  any-last-take (suc (suc n)) (x ∷ y ∷ xs) r e = ground (arith, any-last-take (suc n) (y ∷ xs) r e)

  -- What stands after the last row of a page.
  pub after-last-take :
      (n : ℕ) (xs : List Row) (r : Row)
      → Distinct xs
      → last (take n xs) ≡ some r
      → after (λ x. id x == id r) xs ≡ drop n xs
  unfolding last
  after-last-take zero xs r d e = cc
  after-last-take (suc n) [] r d e = refl
  after-last-take (suc zero) (x ∷ xs) r d e = ground arith
  after-last-take (suc (suc n)) (x ∷ []) r d e = ground arith
  after-last-take (suc (suc n)) (x ∷ y ∷ xs) r d e =
      ground (arith, any-last-take (suc n) (y ∷ xs) r e, after-last-take (suc n) (y ∷ xs) r d.1 e)

  -- A row that stands after another is found from there as from the start.
  pub after-after :
      (c k : ℕ) (xs : List Row)
      → Distinct xs
      → any (λ x. id x == k) (after (λ x. id x == c) xs) ≡ true
      → after (λ x. id x == k) xs ≡ after (λ x. id x == k) (after (λ x. id x == c) xs)
  after-after c k [] d m = refl
  after-after c k (x ∷ xs) d m =
      ground (arith, any-after (λ x. id x == c) (λ x. id x == k) xs, after-after c k xs d.1)
