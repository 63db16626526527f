-- ===== src/Tool/FileName.antt =====
-- `splite_file_name`, `reverseString` and `get_file_name` of server/tool.c: the names in a path.
pub mod Names
pub mod Last
use mathlib.Core.List.{reverse}
use netdisk.Prelude.{
  ℕ, zero, suc, ◌+◌, ◌-◌, ◌/◌, Bool, true, false, not, List, [], ◌∷◌, ◌++◌, Option, none, some,
  ◌==◌, if◌then◌else◌, ◌&&◌, length, get_or, set, drop, leb,
}
use netdisk.Wire.{Text}

abbrev pub slash : ℕ
slash = b'/'

abbrev pub is_nil : Text → Bool
is_nil [] = true
is_nil (c ∷ s) = false

-- The loop of `splite_file_name`. `between` is the text from `start` to `end`; a name is that text less
-- its first byte, and `end == start` when it is empty. The last name is added behind the loop.
pub cut : (between : Text) → (dir_name : List Text) → Text → List Text
cut between dir_name [] = dir_name ++ drop 1 between ∷ []
cut between dir_name (c ∷ s) = elim ((c == slash) && not (is_nil between)) [
  | true ↦ cut (c ∷ []) (dir_name ++ drop 1 between ∷ []) s
  | false ↦ cut (between ++ c ∷ []) dir_name s
]

-- On the empty path the last name would have length -1.
unfoldable pub splite_file_name : Text → Option (List Text)
unfolding cut
splite_file_name [] = none
splite_file_name (c ∷ s) = some (cut [] [] (c ∷ s))

-- one round of `reverseString`
abbrev pub swap : Text → ℕ → ℕ → Text
swap str i j = set (set str i (get_or str j 0)) j (get_or str i 0)

-- its loop, with the number of rounds left; `len` is `length`
unfoldable pub swap_loop : ℕ → (i len : ℕ) → Text → Text
swap_loop zero i len str = str
swap_loop (suc n) i len str = swap_loop n (suc i) len (swap str i (len - i - 1))

unfoldable pub reverse_string : Text → Text
unfolding swap_loop
reverse_string str = swap_loop (length str / 2) 0 (length str) str

-- the loop of `get_file_name`, on the bytes of the path from the last one on
unfoldable pub until_slash : Text → Text
until_slash [] = []
until_slash (c ∷ s) = if c == slash then [] else c ∷ until_slash s

-- the size of the array `temp`, which holds the name and a closing 0
abbrev pub temp_size : ℕ
temp_size = 1024

unfoldable pub get_file_name : Text → Option Text
unfolding until_slash reverse_string
get_file_name local_path =
    let temp = until_slash (reverse local_path) in
    if leb temp_size (length temp) then none else some (reverse_string temp)
