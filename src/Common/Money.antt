-- ===== src/Common/Money.antt =====
-- src/common/utils/money.ts. A JavaScript number is a parameter: the amount of a request, the
-- product and the quotient that the code takes of it, and `Math.round`.
use idea_project.Base.{ℕ, ◌*◌, ◌/◌}

pub record Numbers : Type 1 where
  pub Num : Type 0
  pub times : Num → ℕ → Num
  pub over : ℕ → ℕ → Num
  pub round : Num → ℕ

module _ (numbers : Numbers) where
  unfoldable pub to_minor_units : numbers.Num → ℕ
  to_minor_units major = numbers.round (numbers.times major 100)

  unfoldable pub to_major_units : ℕ → numbers.Num
  to_major_units minor = numbers.over minor 100

-- Numbers of whole units, for the examples.
abbrev pub whole_numbers : Numbers
whole_numbers = record { Num = ℕ; times = λ a b. a * b; over = λ a b. a / b; round = λ a. a }
