-- ===== src/Common/Slugify.antt =====
-- src/common/utils/slugify.ts. `toLowerCase` and the random text of `nanoid(6)` are parameters.
pub mod Shape
use idea_project.Base.{
  ℕ, Bool, true, false, ◌||◌, List, [], ◌∷◌, ◌++◌, nat_beq, if◌then◌else◌, take,
}
use idea_project.Base.Texts.{Text, trim, is_between, is_empty}

-- `[a-z0-9]`
abbrev pub is_slug_char : ℕ → Bool
is_slug_char c = is_between b'a' b'z' c || is_between b'0' b'9' c

-- `.replace(/[^a-z0-9]+/g, '-')`: whether the character before was replaced.
unfoldable pub dash_runs : Bool → Text → Text
dash_runs replaced [] = []
dash_runs replaced (c ∷ cs) = elim (is_slug_char c) [
  | true ↦ c ∷ dash_runs false cs
  | false ↦ if replaced then dash_runs true cs else b'-' ∷ dash_runs true cs
]

unfoldable pub drop_last_dash : Text → Text
drop_last_dash [] = []
drop_last_dash (c ∷ []) = if nat_beq c b'-' then [] else c ∷ []
drop_last_dash (c ∷ d ∷ cs) = c ∷ drop_last_dash (d ∷ cs)

abbrev pub drop_first_dash : Text → Text
drop_first_dash [] = []
drop_first_dash (c ∷ cs) = if nat_beq c b'-' then cs else c ∷ cs

module _ (to_lower_case : Text → Text) where
  unfoldable pub slugify : Text → Text
  slugify input =
      take 80 (drop_last_dash (drop_first_dash (dash_runs false (trim (to_lower_case input)))))

  -- Given what `nanoid(6)` drew.
  unfoldable pub unique_slug : Text → Text → Text
  unique_slug input nanoid =
      let slug : Text = slugify input in
      (if is_empty slug then b'i' ∷ b't' ∷ b'e' ∷ b'm' ∷ [] else slug)
      ++ b'-' ∷ to_lower_case nanoid
