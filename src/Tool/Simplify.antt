-- ===== src/Tool/Simplify.antt =====
-- `simplifyPath` of server/tool.c (client/Tools.c has the same text): a path without empty names, "."
-- and "..". The array `name` is given by its first `nameIdx` bytes and the array `list` by its first
-- `listIdx` entries, the last one first; the bytes and entries above are never read before they are
-- written again. A write past the end of an array is `none`.
pub mod Resolve
pub mod Buffer
pub mod Laws
use netdisk.Prelude.{
  ℕ, suc, ◌+◌, ◌-◌, Bool, true, false, List, [], ◌∷◌, ◌++◌, Option, none, some, ◌==◌, if◌then◌else◌,
  ◌&&◌, ltb, length, get_or, take,
}
use netdisk.Wire.{Text}
use netdisk.Tool.FileName.{slash}

abbrev pub dot : ℕ
dot = b'.'

pub record Scan : Type 0 where
  pub name : Text
  pub list : List ℕ
  pub last_slash : ℕ

-- `name[nameIdx++] = c`, in an array of `pathLen + 1` bytes
pub put : ℕ → ℕ → Scan → Option Scan
put path_len c st =
    if ltb (length st.name) (path_len + 1)
    then some (record st { name = st.name ++ c ∷ [] })
    else none

-- `list[listIdx++] = k`, in an array of `pathLen` entries
pub mark : ℕ → ℕ → Scan → Option Scan
mark path_len k st =
    if ltb (length st.list) path_len then some (record st { list = k ∷ st.list }) else none

-- `name[nameIdx++] = '/'; list[listIdx++] = nameIdx - 1`
pub record_name : ℕ → Scan → Option Scan
unfolding put mark
record_name path_len st = elim (put path_len slash st) [
  | none ↦ none
  | some st' ↦ mark path_len (length st'.name - 1) st'
]

-- `nameIdx = list[listIdx - 1] + 1`
pub back_to : List ℕ → Scan → Option Scan
back_to [] st = none
back_to (k ∷ ks) st = some (record st { name = take (k + 1) st.name })

-- the case of "..": the entry before the last one, or the start of the path
pub go_up : List ℕ → Scan → Option Scan
go_up [] st = none
go_up (k ∷ []) st = some (record st { name = take 1 st.name })
go_up (k ∷ j ∷ ks) st = some (record st { name = take (j + 1) st.name; list = j ∷ ks })

-- the branch of the loop at a slash or at the end of the path
pub close : Text → ℕ → Scan → Option Scan
unfolding record_name back_to go_up
close path i st =
    let name_len = i - st.last_slash in
    let st' = record st { last_slash = i } in
    if name_len == 1
    then some st'
    else if name_len == 2
    then (if get_or path (i - 1) 0 == dot
        then back_to st'.list st'
        else record_name (length path) st')
    else if name_len == 3
    then (if (get_or path (i - 1) 0 == dot) && (get_or path (i - 2) 0 == dot)
        then go_up st'.list st'
        else record_name (length path) st')
    else record_name (length path) st'

-- `for (i = 1; i <= pathLen; ++i)`; the third argument is the path from `i` on
pub scan_path : Text → ℕ → Text → Scan → Option Scan
scan_path path i [] st = close path i st
scan_path path i (c ∷ rest) st =
    elim (if c == slash then close path i st else put (length path) c st) [
      | none ↦ none
      | some st' ↦ scan_path path (suc i) rest st'
    ]

-- `name[nameIdx - num] = '\0'`
pub finish : ℕ → Scan → Option Text
finish path_len st =
    let end = if length st.name == 1 then 1 else length st.name - 1 in
    if ltb end (path_len + 1) then some (take end st.name) else none

-- On the empty path the first entry of `list` has no place.
unfoldable pub simplify_path : Text → Option Text
unfolding scan_path put mark close finish
simplify_path [] = none
simplify_path (c ∷ rest) =
    elim (put (length (c ∷ rest)) slash (record { name = []; list = []; last_slash = 0 })) [
      | none ↦ none
      | some st ↦ elim (mark (length (c ∷ rest)) 0 st) [
        | none ↦ none
        | some st' ↦ elim (scan_path (c ∷ rest) 1 rest st') [
          | none ↦ none
          | some st'' ↦ finish (length (c ∷ rest)) st''
        ]
      ]
    ]
