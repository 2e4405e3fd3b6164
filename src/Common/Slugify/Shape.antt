-- ===== src/Common/Slugify/Shape.antt =====
-- What a slug looks like (src/common/utils/slugify.ts).
use idea_project.Base.{
  ℕ, zero, suc, ◌≤◌, ◌<◌, ◌≡◌, refl, Bool, true, false, not, ◌&&◌, [], ◌∷◌, ◌++◌, nat_beq,
  if◌then◌else◌, take, length, arith, Bool-cases, inl, inr, ltb,
}
use idea_project.Base.Slices.{length-take_le}
use idea_project.Base.Texts.{Text, trim, is_empty}
use idea_project.Common.Slugify.{
  slugify, unique_slug, dash_runs, drop_last_dash, drop_first_dash, is_slug_char,
}

-- Every word of a slug is made of small letters and digits, and one dash stands between two: a dash
-- may come first only where `dash` allows it.
abbrev pub is_well_shaped : Bool → Text → Bool
is_well_shaped dash [] = true
is_well_shaped dash (c ∷ cs) =
    if is_slug_char c
    then is_well_shaped true cs
    else nat_beq c b'-' && dash && is_well_shaped false cs

-- The text ends in a dash.
abbrev pub ends_in_dash : Text → Bool
ends_in_dash [] = false
ends_in_dash (c ∷ []) = nat_beq c b'-'
ends_in_dash (c ∷ d ∷ cs) = ends_in_dash (d ∷ cs)

dash_runs-shaped :
    (replaced : Bool) (t : Text) → is_well_shaped (not replaced) (dash_runs replaced t) ≡ true
unfolding dash_runs
dash_runs-shaped replaced [] = refl
dash_runs-shaped replaced (c ∷ cs) =
    ground (arith, dash_runs-shaped false cs, dash_runs-shaped true cs)

drop_first_dash-shaped :
    (t : Text) → is_well_shaped true t ≡ true → is_well_shaped false (drop_first_dash t) ≡ true
drop_first_dash-shaped [] h = refl
drop_first_dash-shaped (c ∷ cs) h = ground arith

shaped_cons :
    (dash : Bool) (c : ℕ) (t u : Text)
    → ((b : Bool) → is_well_shaped b t ≡ true → is_well_shaped b u ≡ true)
    → is_well_shaped dash (c ∷ t) ≡ true
    → is_well_shaped dash (c ∷ u) ≡ true
shaped_cons dash c t u k h = ground (arith, k true, k false)

shaped_tail :
    (dash : Bool) (c : ℕ) (t : Text)
    → is_well_shaped dash (c ∷ t) ≡ true
    → (b : Bool) × (is_well_shaped b t ≡ true)
shaped_tail dash c t h = elim (Bool-cases (is_slug_char c)) [
  | inl word ↦ (true, ground arith)
  | inr other ↦ (false, ground arith)
]

drop_last_dash-shaped :
    (dash : Bool) (t : Text)
    → is_well_shaped dash t ≡ true
    → is_well_shaped dash (drop_last_dash t) ≡ true
unfolding drop_last_dash
drop_last_dash-shaped dash [] h = refl
drop_last_dash-shaped dash (c ∷ []) h = ground arith
drop_last_dash-shaped dash (c ∷ d ∷ cs) h =
    shaped_cons dash c (d ∷ cs) (drop_last_dash (d ∷ cs))
      (λ b k. drop_last_dash-shaped b (d ∷ cs) k) h

drop_last_dash-ends :
    (dash : Bool) (t : Text)
    → is_well_shaped dash t ≡ true
    → ends_in_dash (drop_last_dash t) ≡ false
unfolding drop_last_dash
drop_last_dash-ends dash [] h = refl
drop_last_dash-ends dash (c ∷ []) h = ground arith
drop_last_dash-ends dash (c ∷ d ∷ []) h = ground arith
drop_last_dash-ends dash (c ∷ d ∷ e ∷ cs) h =
    let (b, k) = shaped_tail dash c (d ∷ e ∷ cs) h in drop_last_dash-ends b (d ∷ e ∷ cs) k

take-shaped :
    (n : ℕ) (dash : Bool) (t : Text)
    → is_well_shaped dash t ≡ true
    → is_well_shaped dash (take n t) ≡ true
take-shaped zero dash t h = refl
take-shaped (suc n) dash [] h = refl
take-shaped (suc n) dash (c ∷ cs) h = ground (arith, take-shaped n true cs, take-shaped n false cs)

take-short : (n : ℕ) (t : Text) → length (take n t) < n → take n t ≡ t
take-short zero t h = absurd (omega arith)
take-short (suc n) [] h = refl
take-short (suc n) (c ∷ cs) h = ground (arith, take-short n cs)

take-ends :
    (n : ℕ) (t : Text)
    → ends_in_dash t ≡ false
    → ltb (length (take n t)) n && ends_in_dash (take n t) ≡ false
take-ends n t h = elim (Bool-cases (ltb (length (take n t)) n)) [
  | inl short ↦ rw (short, take-short n t (ground arith)) h
  | inr full ↦ rw full refl
]

module _ (to_lower_case : Text → Text) where
  -- A slug has at most 80 characters; it is made of small letters and digits with single dashes
  -- between them, does not start with a dash, and ends in one only when it has all 80 characters.
  pub slugify-shaped :
      (input : Text)
      → (length (slugify to_lower_case input) ≤ 80)
        × (is_well_shaped false (slugify to_lower_case input) ≡ true)
        × (ltb (length (slugify to_lower_case input)) 80
              && ends_in_dash (slugify to_lower_case input)
            ≡ false)
  unfolding slugify
  slugify-shaped input =
      let words = dash_runs false (trim (to_lower_case input)) in
      let inner =
        drop_first_dash-shaped words (dash_runs-shaped false (trim (to_lower_case input))) in
      let whole = drop_last_dash (drop_first_dash words) in
      (
        length-take_le 80 whole,
        take-shaped 80 false whole (drop_last_dash-shaped false (drop_first_dash words) inner),
        take-ends 80 whole (drop_last_dash-ends false (drop_first_dash words) inner),
      )

  -- A unique slug is a text of at most 80 small letters, digits and dashes, never empty, without a dash
  -- at its start or two in a row, and with one at its end only when it has all 80 characters; then a
  -- dash and the random text in small letters.
  pub unique_slug-shaped :
      (input nanoid : Text)
      → (base : Text) × (unique_slug to_lower_case input nanoid
          ≡ base ++ b'-' ∷ to_lower_case nanoid)
        × (is_well_shaped false base ≡ true)
        × (is_empty base ≡ false)
        × (length base ≤ 80)
        × (ltb (length base) 80 && ends_in_dash base ≡ false)
  unfolding unique_slug
  unique_slug-shaped input nanoid = elim (Bool-cases (is_empty (slugify to_lower_case input))) [
    | inl empty ↦ (b'i' ∷ b't' ∷ b'e' ∷ b'm' ∷ [], ground arith, refl, refl, omega arith, refl)
    | inr full ↦ (
      slugify to_lower_case input,
      ground arith,
      (slugify-shaped input).1,
      full,
      (slugify-shaped input).0,
      (slugify-shaped input).2,
    )
  ]
