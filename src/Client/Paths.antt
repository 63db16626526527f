-- ===== src/Client/Paths.antt =====
-- `transfile` of client/pthread.c: which local file a `puts` or a `gets` opens and what is sent first; with
-- `get_file_name` and `trim` of client/Tools.c. `simplifyPath`, `reverseString` and `remove_space` there have the same text
-- as in server/tool.c, and are those of Tool.
use mathlib.Core.List.{reverse}
use netdisk.Prelude.{
  ℕ, ◌+◌, Bool, false, [], ◌∷◌, ◌++◌, Option, none, some, ◌==◌, ◌||◌, ◌&&◌, if◌then◌else◌, length,
  ltb, leb,
}
use netdisk.Wire.{Text, TransFile}
use netdisk.Tool.Space.{space, newline}
use netdisk.Tool.FileName.{slash, until_slash}
use netdisk.Client.Tools.{simplify_path, reverse_string}
use netdisk.Client.Strtok.{strtok}

-- `isspace` in the C locale
abbrev pub isspace : ℕ → Bool
isspace c = (c == b' ') || (leb 9 c && leb c 13)

-- `while (isspace(*str)) str++`
abbrev pub skip_isspace : Text → Text
skip_isspace [] = []
skip_isspace (c ∷ s) = if isspace c then skip_isspace s else c ∷ s

-- The loop from the end stops at the first byte, which is no space.
unfoldable pub trim : Text → Text
trim str = reverse (skip_isspace (reverse (skip_isspace str)))

-- the size of the array `temp`
abbrev pub temp_size : ℕ
temp_size = 1024

-- The name from its reversed bytes, with a slash in front, and the size of the memory that `strcpy` copies it to.
-- The array `temp` needs room for the slash and a closing 0.
abbrev pub slashed : Text → Option (Text × ℕ)
slashed temp =
    if leb temp_size (length temp + 1)
    then none
    else some (reverse_string (temp ++ slash ∷ []), length temp + 1)

unfoldable pub get_file_name : Text → Option (Text × ℕ)
unfolding until_slash
get_file_name local_path = slashed (until_slash (reverse local_path))

-- the size of the arrays for paths
abbrev pub path_size : ℕ
path_size = 1024

-- whether a path starts with a slash
abbrev pub is_absolute : Text → Bool
is_absolute [] = false
is_absolute (c ∷ s) = c == slash

-- `local_path` where `real` is the text that names the file behind the directory `cwd`; `sprintf` copies `local_path`
-- to itself.
abbrev pub local_path : (cwd argument real : Text) → Option Text
local_path cwd argument real =
    if is_absolute argument
    then (if ltb (length real) path_size then some real else none)
    else if ltb (length (cwd ++ slash ∷ real)) path_size
    then simplify_path (cwd ++ slash ∷ real)
    else none

-- the file that is opened, for the number of the command
unfoldable pub opened_path :
    (command_no : ℕ) → (cwd argument1 argument2 file_name : Text) → Option Text
opened_path command_no cwd argument1 argument2 file_name =
    if command_no == 5
    then local_path cwd argument1 argument1
    else if command_no == 6
    then local_path cwd argument2 (argument2 ++ file_name)
    else none

-- the size of the array `cmd`, to which the line is copied
abbrev pub line_size : ℕ
line_size = 256

abbrev pub copied_line : Text → Option Text
copied_line line = if ltb (length line) line_size then some line else none

-- the calls of `strtok` on the copy; a NULL is followed
abbrev pub split_line : Text → Option (Text × Text)
split_line line = elim (strtok space line) [
  | none ↦ none
  | some (command, rest) ↦ elim (strtok space rest) [
    | none ↦ none
    | some (argument1, rest') ↦ elim (strtok newline rest') [
      | none ↦ none
      | some (argument2, _) ↦ some (argument1, argument2)
    ]
  ]
]

-- The two arguments of the line.
unfoldable pub arguments : Text → Option (Text × Text)
arguments line = elim (copied_line line) [ none ↦ none | some cmd ↦ split_line cmd ]

-- The local file of `transfile` with the request that is sent if it can be opened. `room` is the number of bytes that
-- may be written to memory of a size from `calloc`: `get_file_name` writes one byte more than it asks for.
unfoldable pub transfile :
    (room : ℕ → ℕ) → (cwd global_token : Text) → TransFile → Option (Text × TransFile)
unfolding arguments opened_path
transfile room cwd global_token trans = elim (arguments trans.body) [
  | none ↦ none
  | some (argument1, argument2) ↦ elim (get_file_name argument1) [
    | none ↦ none
    | some (file_name, size) ↦
        if ltb (length file_name) (room size)
        then (elim (opened_path trans.command_no cwd argument1 argument2 file_name) [
          | none ↦ none
          | some path ↦ some (path, record trans { token = global_token })
        ])
        else none
  ]
]
