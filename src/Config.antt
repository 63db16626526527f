-- ===== src/Config.antt =====
-- The configuration files: `read_config` of server/tool.c and `getparameter` of client/Tools.c. A file is the list of
-- the lines that `fgets` returns, with their newlines. A NULL that is followed and a negative length are `none`.
pub mod Laws
mod Tests
use netdisk.Prelude.{
  ℕ, ◌-◌, List, [], ◌∷◌, Option, none, some, ◌==◌, if◌then◌else◌, length, take, ℤ, pos, minus_one,
}
use netdisk.Wire.{Text, text_eq}
use netdisk.Token.{is_prefix}
use netdisk.Client.Strtok.{strtok}

abbrev pub equals : ℕ
equals = b'='

-- the first line that `strncmp` finds to begin with the text
abbrev pub find_line : List Text → Text → Option Text
find_line [] request = none
find_line (buf ∷ conf) request = if is_prefix request buf then some buf else find_line conf request

-- `strchr(buf, '=') + 1`
abbrev pub behind_equals : Text → Option Text
behind_equals [] = none
behind_equals (c ∷ s) = if c == equals then some s else behind_equals s

-- the copy without the last byte
abbrev pub value_of : Text → Option Text
value_of [] = none
value_of (c ∷ s) = some (take (length s) (c ∷ s))

-- The inner `none` is the NULL for a text that no line begins with.
unfoldable pub read_config : (conf : List Text) → (request : Text) → Option (Option Text)
read_config conf request = elim (find_line conf request) [
  | none ↦ some none
  | some buf ↦ elim (behind_equals buf) [
    | none ↦ none
    | some need ↦ elim (value_of need) [ none ↦ none | some ret ↦ some (some ret) ]
  ]
]

-- "没有要找的内容 \n"
abbrev pub nothing_found : Text
nothing_found =
    230 ∷ 178 ∷ 161 ∷ 230 ∷ 156 ∷ 137 ∷ 232 ∷ 166 ∷ 129 ∷ 230 ∷ 137 ∷ 190 ∷ 231 ∷ 154 ∷ 132 ∷ 229
    ∷ 134 ∷ 133 ∷ 229 ∷ 174 ∷ 185 ∷ 32 ∷ 10 ∷ []

-- The result with what is copied to `value`.
unfoldable pub getparameter : (file : List Text) → (key : Text) → Option (ℤ × Text)
getparameter [] key = some (minus_one, nothing_found)
getparameter (line ∷ file) key =
    let others = getparameter file key in
    elim (strtok equals line) [
      | none ↦ none
      | some (line_key, rest) ↦
          if text_eq key line_key
          then (elim (strtok equals rest) [
            | none ↦ none
            | some (line_value, _) ↦ some (pos 0, line_value)
          ])
          else others
    ]
