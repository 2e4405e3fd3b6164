-- ===== src/Common/Prisma/Search.antt =====
-- A query finds a row exactly when one passes its test.
use idea_project.Base.{◌≡◌, Bool, true, false, List, none, some, any, Option-cases, inl, inr}
use idea_project.Base.Updates.{any-of_Elem}
use idea_project.Common.Prisma.{Prisma}

true_not_false : {b : Bool} → b ≡ true → b ≡ false → ⊥
true_not_false e f = cc

module _ {Row : Type 0} (prisma : Prisma) (p : Row → Bool) (t : List Row) where
  pub find_first-missing : any p t ≡ false → prisma.find_first p t ≡ none
  find_first-missing h = elim (Option-cases (prisma.find_first p t)) [
    | inl e ↦ e
    | inr (r, e) ↦
        let (hit, at) = prisma.find_first-some p t r e in
        absurd (true_not_false (any-of_Elem p r t at hit) h)
  ]

  pub find_first-present :
      any p t ≡ true → (r : Row) × (prisma.find_first p t ≡ some r) × (p r ≡ true)
  find_first-present h = elim (Option-cases (prisma.find_first p t)) [
    | inl e ↦ absurd (true_not_false h (prisma.find_first-none p t e))
    | inr (r, e) ↦ (r, e, (prisma.find_first-some p t r e).0)
  ]

  pub found_any : (r : Row) → prisma.find_first p t ≡ some r → any p t ≡ true
  found_any r e = let (hit, at) = prisma.find_first-some p t r e in any-of_Elem p r t at hit
