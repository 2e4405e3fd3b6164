-- ===== src/Base/Texts.antt =====
-- Texts as lists of character codes, and the methods of a JavaScript string that the code calls.
use Prim.Native.Nat.{ℕ}
use mathlib.Core.Bool.{Bool, true, false, ◌&&◌, ◌||◌}
use mathlib.Core.List.{List, [], ◌∷◌}
use idea_project.Base.Tests.{if◌then◌else◌, leb, nat_beq}

abbrev pub Text : Type 0
Text = List ℕ

-- `c` stands between two codes, the bounds included.
abbrev pub is_between : ℕ → ℕ → ℕ → Bool
is_between low high c = leb low c && leb c high

abbrev pub is_empty : Text → Bool
is_empty [] = true
is_empty (c ∷ cs) = false

-- White space and line ends, as `trim` takes them.
unfoldable pub is_space : ℕ → Bool
is_space c =
    is_between 9 13 c
    || nat_beq c 32
    || nat_beq c 160
    || nat_beq c 5760
    || is_between 8192 8202 c
    || is_between 8232 8233 c
    || nat_beq c 8239
    || nat_beq c 8287
    || nat_beq c 12288
    || nat_beq c 65279

unfoldable pub trim_start : Text → Text
trim_start [] = []
trim_start (c ∷ cs) = elim (is_space c) [ true ↦ trim_start cs | false ↦ c ∷ cs ]

unfoldable pub trim_end : Text → Text
trim_end [] = []
trim_end (c ∷ cs) =
    let rest : Text = trim_end cs in if is_empty rest && is_space c then [] else c ∷ rest

-- `text.trim()`
abbrev pub trim : Text → Text
trim t = trim_end (trim_start t)
