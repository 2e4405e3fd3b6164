-- ===== src/Common/Tests.antt =====
-- The theorems on pages, durations and slugs at small values, and runs of the functions.
use idea_project.Base.{
  ℕ, ◌*◌, ◌≡◌, ◌≤◌, refl, true, false, some, none, [], ◌∷◌, ◌++◌, length, arith, ltb, ◌&&◌,
}
use idea_project.Base.Texts.{Text, is_empty, is_space, trim_start, trim_end}
use idea_project.Schema.{user_role_eq}
use idea_project.Common.Prisma.{list_prisma}
use idea_project.Common.Pages.Walk.{read_all, read_all-equals}
use idea_project.Common.Duration.{parse_duration_ms, read_duration, read_rest, unit_ms}
use idea_project.Common.Duration.Format.{decimal, parse_duration_ms-decimal}
use idea_project.Common.Slugify.{slugify, unique_slug, dash_runs, drop_last_dash}
use idea_project.Common.Slugify.Shape.{is_well_shaped, ends_in_dash, unique_slug-shaped}

abbrev numbers : ℕ → ℕ
numbers n = n

read_all-equals_example :
    read_all numbers list_prisma 4 2 none (5 ∷ 3 ∷ 8 ∷ []) ≡ some (5 ∷ 3 ∷ 8 ∷ [])
read_all-equals_example =
    read_all-equals numbers list_prisma 2 (5 ∷ 3 ∷ 8 ∷ []) (refl, (refl, (refl, tt))) (omega arith)

minutes : unit_ms b'm' ≡ some 60000
unfolding unit_ms
minutes = refl

parse_duration_ms-decimal_example :
    parse_duration_ms numbers ((b' ' ∷ []) ++ decimal 16 15 (b'm' ∷ [])) ≡ some (15 * 60000)
unfolding is_space
parse_duration_ms-decimal_example =
    parse_duration_ms-decimal numbers (b' ' ∷ []) [] 15 b'm' 60000 (λ k small. refl) (omega arith)
      (omega arith) refl refl minutes

-- " 15m" and "15x".
minutes_run : parse_duration_ms numbers (b' ' ∷ b'1' ∷ b'5' ∷ b'm' ∷ []) ≡ some 900000
unfolding parse_duration_ms read_duration read_rest unit_ms trim_start trim_end is_space
minutes_run = refl

unknown_run : parse_duration_ms numbers (b'1' ∷ b'5' ∷ b'x' ∷ []) ≡ none
unfolding parse_duration_ms read_duration read_rest unit_ms trim_start trim_end is_space
unknown_run = refl

abbrev same : Text → Text
same t = t

-- "my  shop!"
abbrev shop_name : Text
shop_name = b'm' ∷ b'y' ∷ b' ' ∷ b' ' ∷ b's' ∷ b'h' ∷ b'o' ∷ b'p' ∷ b'!' ∷ []

slug_run : slugify same shop_name ≡ b'm' ∷ b'y' ∷ b'-' ∷ b's' ∷ b'h' ∷ b'o' ∷ b'p' ∷ []
unfolding slugify dash_runs drop_last_dash trim_start trim_end is_space
slug_run = refl

unique_slug-shaped_example :
    (base : Text) × (unique_slug same shop_name (b'a' ∷ []) ≡ base ++ b'-' ∷ b'a' ∷ [])
    × (is_well_shaped false base ≡ true)
    × (is_empty base ≡ false)
    × (length base ≤ 80)
    × (ltb (length base) 80 && ends_in_dash base ≡ false)
unique_slug-shaped_example = unique_slug-shaped same shop_name (b'a' ∷ [])
