-- ===== src/Common/Duration/Format.antt =====
-- The way a duration is written in the configuration, read back by src/common/utils/duration.ts.
use idea_project.Base.{
  ℕ, zero, suc, ◌*◌, ◌+◌, ◌/◌, ◌%◌, ◌<◌, ◌≡◌, refl, false, Bool, not, some, [], ◌∷◌, ◌++◌, any,
  arith, if◌then◌else◌, ltb, inl, inr, Bool-cases,
}
use idea_project.Base.Texts.{Text, trim_start, trim_end, is_space}
use idea_project.Common.Duration.{parse_duration_ms, read_duration, read_rest, unit_ms}

-- The decimal digits of a number in front of a text.
unfoldable pub decimal : ℕ → ℕ → Text → Text
decimal zero n rest = rest
decimal (suc fuel) n rest =
    let digit : ℕ = n % 10 + b'0' in
    if ltb n 10 then digit ∷ rest else decimal fuel (n / 10) (digit ∷ rest)

abbrev not_space : ℕ → Bool
not_space c = not (is_space c)

all_spaces : (t rest : Text) → any not_space t ≡ false → trim_start (t ++ rest) ≡ trim_start rest
unfolding trim_start
all_spaces [] rest h = refl
all_spaces (c ∷ t) rest h = ground (arith, all_spaces t rest)

spaces_end : (t : Text) → any not_space t ≡ false → trim_end t ≡ []
unfolding trim_end
spaces_end [] h = refl
spaces_end (c ∷ t) h = ground (arith, spaces_end t)

digit-not_space : (n : ℕ) → n < 10 → is_space (n + b'0') ≡ false
unfolding is_space
digit-not_space n h = ground arith

trim_start-decimal :
    (fuel n : ℕ) (rest : Text) → n < fuel → trim_start (decimal fuel n rest) ≡ decimal fuel n rest
unfolding decimal trim_start
trim_start-decimal zero n rest h = absurd (omega arith)
trim_start-decimal (suc fuel) n rest h = elim (Bool-cases (ltb n 10)) [
  | inl small ↦ ground (arith, digit-not_space (n % 10) (omega arith))
  | inr large ↦
      ground (arith, trim_start-decimal fuel (n / 10) ((n % 10 + b'0') ∷ rest) (ground arith))
]

trim_end-decimal :
    (fuel n : ℕ) (rest : Text) → trim_end (decimal fuel n rest) ≡ decimal fuel n (trim_end rest)
unfolding decimal trim_end
trim_end-decimal zero n rest = refl
trim_end-decimal (suc fuel) n rest = ground (
  arith,
  digit-not_space (n % 10) (omega arith),
  trim_end-decimal fuel (n / 10) ((n % 10 + b'0') ∷ rest),
)

read_duration-decimal :
    (round : ℕ → ℕ) (fuel n u : ℕ) (rest : Text)
    → n < fuel
    → read_duration round (decimal fuel n (u ∷ rest)) ≡ read_rest round n (u ∷ rest)
unfolding decimal read_duration read_rest
read_duration-decimal round zero n u rest h = absurd (omega arith)
read_duration-decimal round (suc fuel) n u rest h = elim (Bool-cases (ltb n 10)) [
  | inl small ↦ ground arith
  | inr large ↦
      ground
        (arith, read_duration-decimal round fuel (n / 10) (n % 10 + b'0') (u ∷ rest) (ground arith))
]

unit-not_space : (u ms : ℕ) → unit_ms u ≡ some ms → is_space u ≡ false
unfolding unit_ms is_space
unit-not_space u ms h = ground arith

-- A number in decimal digits with a unit behind it, in any white space, is read as that many units,
-- where the number and its milliseconds are below 2^53 and whole numbers below 2^53 are held exactly.
pub parse_duration_ms-decimal :
    (round : ℕ → ℕ) (before behind : Text) (n u ms : ℕ)
    → ((k : ℕ) → k < 9007199254740992 → round k ≡ k)
    → n < 9007199254740992
    → n * ms < 9007199254740992
    → any (λ c. not (is_space c)) before ≡ false
    → any (λ c. not (is_space c)) behind ≡ false
    → unit_ms u ≡ some ms
    → parse_duration_ms round (before ++ decimal (suc n) n (u ∷ behind)) ≡ some (n * ms)
unfolding parse_duration_ms read_rest trim_end
parse_duration_ms-decimal round before behind n u ms exact small short b e h =
    let unit : trim_end (u ∷ behind) ≡ u ∷ [] =
      ground (arith, spaces_end behind e, unit-not_space u ms h) in
    rw
      (
        all_spaces before (decimal (suc n) n (u ∷ behind)) b,
        trim_start-decimal (suc n) n (u ∷ behind) (omega arith),
        trim_end-decimal (suc n) n (u ∷ behind),
        unit,
        read_duration-decimal round (suc n) n u [] (omega arith),
        h,
        exact n small,
        exact (n * ms) short,
      )
      refl
