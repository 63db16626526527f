-- ===== src/Tool/Space.antt =====
-- `remove_space` of server/tool.c: one space between words, none at the ends.
pub mod Words
pub mod Laws
use netdisk.Prelude.{
  ℕ, suc, ◌+◌, ◌≡◌, ◌≢◌, refl, Bool, true, false, List, [], ◌∷◌, ◌++◌, Option, none, some, ◌==◌,
  if◌then◌else◌, ◌&&◌, arith,
}
use netdisk.Wire.{Text}

abbrev pub space : ℕ
space = b' '

abbrev pub newline : ℕ
newline = b'\n'

-- the loop: `before` is `argument[i - 1]`, and `none` in the first round
unfoldable pub kept : Option ℕ → Text → Text
kept before [] = []
kept none (c ∷ s) =
    let rest = kept (some c) s in
    if c == space then rest else if c == newline then rest else c ∷ rest
kept (some b) (c ∷ s) =
    let rest = kept (some c) s in
    if (c == space) && (b == space) then rest else if c == newline then rest else c ∷ rest

-- `if (temp[j-1] == ' ') temp[j-1] = '\0'`, on the `j` bytes copied; for `j` = 0 the byte read lies
-- before the array
unfoldable pub trim_last : Text → Option Text
trim_last [] = none
trim_last (c ∷ []) = some (if c == space then [] else c ∷ [])
trim_last (c ∷ d ∷ s) = elim (trim_last (d ∷ s)) [ none ↦ none | some t ↦ some (c ∷ t) ]

unfoldable pub remove_space : Text → Option Text
unfolding kept trim_last
remove_space argument = trim_last (kept none argument)
