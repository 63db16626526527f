-- ===== src/Client.antt =====
-- The client's commands (client/judgment.c): which lines are sent to the server and as what, and how the answer
-- is read.
pub mod Words
pub mod Agree
pub mod Framed
pub mod Strtok
pub mod Forms
pub mod FormLaws
pub mod Tools
pub mod Paths
pub mod PathLaws
mod Tests
mod MenuTests
mod PathTests
pub mod Answer
pub mod Menu
pub mod Conversation
use netdisk.Prelude.{
  ℕ, zero, suc, ◌+◌, Bool, true, false, List, [], ◌∷◌, ◌++◌, Option, none, some, ◌==◌, ◌&&◌, ◌||◌,
  if◌then◌else◌, not, codes, length, leb,
}
use netdisk.Wire.{Text, TransFile}
use netdisk.Token.{is_prefix}

-- `order[]` of client/client.c
abbrev pub order : List Text
order =
    codes "cd"
    ∷ codes "ls"
    ∷ codes "ll"
    ∷ codes "pwd"
    ∷ codes "mkdir"
    ∷ codes "puts"
    ∷ codes "gets"
    ∷ codes "rm"
    ∷ []

-- `size`, the number of spaces
abbrev pub count_spaces : Text → ℕ
count_spaces [] = 0
count_spaces (c ∷ s) = (if c == b' ' then 1 else 0) + count_spaces s

-- the first entry that `strncmp` finds at the start of the line
abbrev pub find_order : Text → ℕ → List Text → Option ℕ
find_order line i [] = none
find_order line i (o ∷ os) =
    let rest = find_order line (i + 1) os in if is_prefix o line then some i else rest

-- `res`: not legal, a short command or a long one
pub data Res : Type 0 where
  illegal : Res
  short : Res
  long : Res

-- the tests on the number of spaces
abbrev pub res_of : (i size : ℕ) → Res
res_of i size =
    if (i == 0) || ((i == 4) || (i == 7))
    then (if size == 1 then short else illegal)
    else if (i == 1) || (i == 2)
    then (if leb size 1 then short else illegal)
    else if (i == 5) || (i == 6)
    then (if size == 2 then long else illegal)
    else (if size == 0 then short else illegal)

-- `res` and `train->command_no` for the entry found
abbrev pub judged : (i size : ℕ) → Res × ℕ
judged i size = elim (res_of i size) [
  | illegal ↦ (illegal, 0)
  | short ↦ (short, i)
  | long ↦ (long, i)
]

unfoldable pub judge : Text → Res × ℕ
judge command = elim (find_order command 0 order) [
  | none ↦ (illegal, 0)
  | some i ↦ judged i (count_spaces command)
]

-- what is sent for a line
abbrev pub train_of : (global_token : Text) → (command : Text) → (command_no : ℕ) → TransFile
train_of global_token command command_no = record {
  body = command;
  data_length = length command;
  command_no = command_no;
  flag = false;
  token = global_token;
}

-- What `execute_command` does: the message of a line that is refused, a request over the connection, or a
-- thread with a request.
pub data Executed : Type 0 where
  refused : Executed
  asks : TransFile → Executed
  starts : TransFile → Executed

abbrev pub act_on : Text → Text → Res × ℕ → Executed
act_on global_token command (illegal, i) = refused
act_on global_token command (short, i) = asks (train_of global_token command i)
act_on global_token command (long, i) = starts (train_of global_token command i)

unfoldable pub execute_command : (global_token : Text) → (command : Text) → Executed
unfolding judge
execute_command global_token command = act_on global_token command (judge command)

-- what `command_printf` leaves: the token, the lines printed, and the messages not read
pub record Printed : Type 0 where
  pub global_token : Text
  pub lines : List Text
  pub unread : List TransFile

-- "服务器断开连接"
abbrev pub disconnected : Text
disconnected =
    230 ∷ 156 ∷ 141 ∷ 229 ∷ 138 ∷ 161 ∷ 229 ∷ 153 ∷ 168 ∷ 230 ∷ 150 ∷ 173 ∷ 229 ∷ 188 ∷ 128 ∷ 232
    ∷ 191 ∷ 158 ∷ 230 ∷ 142 ∷ 165 ∷ []

-- The loop over the messages that arrive; at their end the connection is closed, and `train` is all 0.
unfoldable pub command_printf : List TransFile → Printed
command_printf [] = record { global_token = []; lines = disconnected ∷ [] ∷ []; unread = [] }
command_printf (train ∷ trains) =
    let rest = command_printf trains in
    if train.flag
    then record rest { lines = train.body ∷ rest.lines }
    else record { global_token = train.token; lines = train.body ∷ []; unread = trains }
