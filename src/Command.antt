-- ===== src/Command.antt =====
-- A request with a token, on a worker thread: `connect_with_client` (server/thread.c) with the commands that
-- only look at the tables (server/file_no_change.c). Command/Change has those that change them. What a
-- handler sends is the list of its messages.
pub mod Change
pub mod Laws
pub mod MakeDir
pub mod Detail
pub mod Names
mod Tests
mod DetailTests
use netdisk.Prelude.{
  ℕ, zero, suc, ◌+◌, Bool, true, false, List, [], ◌∷◌, ◌++◌, map, Option, none, some, ◌==◌,
  if◌then◌else◌, length, codes, ltb, leb, ℤ, pos, negsuc,
}
use netdisk.Wire.{Text, TransFile, text_eq}
use netdisk.Tool.Space.{remove_space}
use netdisk.Tool.Argument.{splite_argument}
use netdisk.Tool.UserPath.{TokenInfo, path_size, get_user_path}
use netdisk.Catalog.Tables.{UserFile, Tables}
use netdisk.Catalog.Directory.{query_cd, query_ls}

-- `char *command[]`, without the closing NULL
abbrev pub command : List Text
command =
    codes "cd"
    ∷ codes "ls"
    ∷ codes "ll"
    ∷ codes "pwd"
    ∷ codes "mkdir"
    ∷ codes "puts"
    ∷ codes "gets"
    ∷ codes "rm"
    ∷ []

-- the loop over the table: the number of the command, or `none` at its end
unfoldable pub find_command : Text → List Text → Option ℕ
find_command cmd [] = none
find_command cmd (c ∷ cs) =
    if text_eq cmd c
    then some 0
    else elim (find_command cmd cs) [ none ↦ none | some n ↦ some (suc n) ]

-- the array `cmd`, which holds a command and a closing 0
abbrev pub cmd_size : ℕ
cmd_size = 10

-- The command and its argument in a request line. The array for the argument has `data_length` bytes. A copy
-- past the end of an array is `none`.
abbrev pub fit : (data_length : ℕ) → (cmd argument : Text) → Option (Text × Text)
fit data_length cmd argument =
    if ltb (length cmd) cmd_size
    then (if ltb (length argument) data_length then some (cmd, argument) else none)
    else none

unfoldable pub parse : (data_length : ℕ) → Text → Option (Text × Text)
parse data_length line = elim (remove_space line) [
  | none ↦ none
  | some text ↦ elim (splite_argument text) [
    | some (cmd, argument) ↦ fit data_length cmd argument
    | none ↦ if ltb (length text) cmd_size then some (text, []) else none
  ]
]

module _ (generate : TokenInfo → Option Text) where
  -- `send_message`: the message that is sent. `generate` is `generate_token`, which leaves the field empty
  -- where it fails.
  unfoldable pub send_message : Text → Bool → TokenInfo → TransFile
  send_message msg flag info = record {
    body = msg;
    data_length = length msg;
    command_no = 0;
    flag = flag;
    token =
        if info.user_id == 0 then [] else elim (generate info) [ none ↦ [] | some token ↦ token ];
  }

  -- the part of `change_dir` behind `query_cd`
  unfoldable pub change_to : ℤ → Text → TokenInfo → List TransFile × TokenInfo
  unfolding send_message
  change_to (negsuc n) path info =
      (send_message (codes "server busy,please retry") false info ∷ [], info)
  change_to (pos zero) path info =
      (send_message (codes "illegal path, please retry") false info ∷ [], info)
  change_to (pos (suc d)) path info =
      let info' : TokenInfo = record { user_id = info.user_id; workpath = path } in
      (send_message (codes "change success") false info' ∷ [], info')

  -- The messages and the token info behind the call.
  unfoldable pub change_dir : Tables → Text → TokenInfo → Option (List TransFile × TokenInfo)
  unfolding change_to
  change_dir t argument info = elim (get_user_path argument info) [
    | none ↦ none
    | some path ↦ elim (query_cd t path info.user_id) [
      | none ↦ none
      | some dir ↦ some (change_to dir path info)
    ]
  ]

  -- "查找完成"
  abbrev pub search_complete : Text
  search_complete = 230 ∷ 159 ∷ 165 ∷ 230 ∷ 137 ∷ 190 ∷ 229 ∷ 174 ∷ 140 ∷ 230 ∷ 136 ∷ 144 ∷ []

  -- `res->data` is read before `res` is compared with NULL.
  unfoldable pub show_dir : Tables → Text → TokenInfo → Option (List TransFile)
  unfolding send_message
  show_dir t argument info = elim (get_user_path argument info) [
    | none ↦ none
    | some path ↦ elim (query_ls t path info.user_id) [
      | some (some rows) ↦ some (
          map (λ (r : UserFile). send_message r.name true info) rows
          ++ send_message search_complete false info ∷ [])
      | some none ↦ none
      | none ↦ none
    ]
  ]

  unfoldable pub show_path : TokenInfo → List TransFile
  unfolding send_message
  show_path info = send_message info.workpath false info ∷ []
