-- ===== src/Common/Duration.antt =====
-- src/common/utils/duration.ts. A thrown error is `none`. How a JavaScript number holds a whole number
-- is a parameter: it rounds from 2^53 on. Amounts that are infinite there are left out.
pub mod Format
use idea_project.Base.{
  ℕ, ◌*◌, ◌+◌, ◌-◌, Bool, Option, none, some, [], ◌∷◌, if◌then◌else◌, true, false, nat_beq,
}
use idea_project.Base.Texts.{Text, trim, is_between}

-- `UNIT_MS[unit]`, for the letters that the pattern lets through.
unfoldable pub unit_ms : ℕ → Option ℕ
unit_ms c =
    if nat_beq c b's'
    then some 1000
    else if nat_beq c b'm'
    then some (60 * 1000)
    else if nat_beq c b'h'
    then some (60 * 60 * 1000)
    else if nat_beq c b'd'
    then some (24 * 60 * 60 * 1000)
    else none

-- `\d`
abbrev pub is_digit : ℕ → Bool
is_digit c = is_between b'0' b'9' c

module _ (round : ℕ → ℕ) where
  -- `Number(amount) * UNIT_MS[unit]`
  abbrev scale : ℕ → Option ℕ → Option ℕ
  scale amount none = none
  scale amount (some ms) = some (round (round amount * ms))

  -- The rest of `^(\d+)([smhd])$` after its first digit, with the amount that was read.
  unfoldable pub read_rest : ℕ → Text → Option ℕ
  read_rest amount [] = none
  read_rest amount (c ∷ []) = scale amount (unit_ms c)
  read_rest amount (c ∷ d ∷ cs) = elim (is_digit c) [
    | true ↦ read_rest (amount * 10 + (c - b'0')) (d ∷ cs)
    | false ↦ none
  ]

  unfoldable pub read_duration : Text → Option ℕ
  read_duration [] = none
  read_duration (c ∷ cs) = if is_digit c then read_rest (c - b'0') cs else none

  unfoldable pub parse_duration_ms : Text → Option ℕ
  parse_duration_ms value = read_duration (trim value)
