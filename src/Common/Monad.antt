-- ===== src/Common/Monad.antt =====
-- A service method: the database comes back after a throw too, since what was written stays written
-- unless a transaction takes it back.
use idea_project.Base.{
  ◌≡◌, true, arith, Bool, Option, none, some, if◌then◌else◌, ◌⊎◌, inl, inr, refl,
}
use idea_project.Schema.{Db}
use idea_project.Common.Errors.{Error}

pub data Result (A : Type 0) : Type 0 where
  ok : A → Result A
  err : Error → Result A

pub Result-cases :
    {A : Type 0} (r : Result A) → ((e : Error) × (r ≡ err e)) ⊎ ((a : A) × (r ≡ ok a))
Result-cases (ok a) = inr (a, refl)
Result-cases (err e) = inl (e, refl)

abbrev pub Action : Type 0 → Type 0
Action A = Db → Result A × Db

abbrev pub bind_result : {A B : Type 0} → Result A → Db → (A → Action B) → Result B × Db
bind_result (ok a) s f = f a s
bind_result (err e) s f = (err e, s)

infixl 5 ◌>>=◌ ◌>>◌
abbrev pub ◌>>=◌ : {A B : Type 0} → Action A → (A → Action B) → Action B
◌>>=◌ m f s = bind_result (m s).0 (m s).1 f

abbrev pub ◌>>◌ : {A B : Type 0} → Action A → Action B → Action B
◌>>◌ m k s = bind_result (m s).0 (m s).1 (λ _. k)

module _ {A : Type 0} where
  abbrev pub pure : A → Action A
  pure a s = (ok a, s)

  abbrev pub raise : Error → Action A
  raise e s = (err e, s)

  abbrev pub gets : (Db → A) → Action A
  gets f s = (ok (f s), s)

  abbrev pub or_raise : Option A → Error → Action A
  or_raise none e s = (err e, s)
  or_raise (some a) e s = (ok a, s)

  -- A call that may fail on the data that it was given.
  abbrev pub settle : Db → Result A × Db → Result A × Db
  settle s (ok a, s') = (ok a, s')
  settle s (err e, s') = (err e, s)

abbrev pub raise_if : Bool → Error → Action (Unit {0})
raise_if c e s = (if c then err e else ok tt, s)

abbrev pub modify : (Db → Db) → Action (Unit {0})
modify f s = (ok tt, f s)

-- `if (c) { m }`
abbrev pub when : Bool → Action (Unit {0}) → Action (Unit {0})
when c m s = if c then m s else (ok tt, s)

-- A found row that passes a test; otherwise the caller throws.
abbrev pub keep : {A : Type 0} → (A → Bool) → Option A → Option A
keep p none = none
keep p (some a) = if p a then some a else none

pub keep-some :
    {A : Type 0} (p : A → Bool) (o : Option A) (a : A)
    → keep p o ≡ some a
    → (o ≡ some a) × (p a ≡ true)
keep-some p none a e = cc
keep-some p (some x) a e = ground arith
