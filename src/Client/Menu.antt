-- ===== src/Client/Menu.antt =====
-- The main program of the client (client/client.c) behind the connection: the menu, then the commands. What the server
-- sends over the connection is one list of messages; behind its end the connection is closed.
use netdisk.Prelude.{ℕ, Bool, List, [], ◌∷◌, Option, none, some, if◌then◌else◌, length, ltb, codes}
use netdisk.Wire.{Text, TransFile}
use netdisk.Token.{is_prefix}
use netdisk.Client.{Executed, refused, asks, starts, execute_command, command_printf}
use netdisk.Client.Forms.{login_request, register_request}
use netdisk.Client.Tools.{remove_space}

-- one round of the menu: what `read` returns for the choice and for the form
pub record Choice : Type 0 where
  pub client_input : Text
  pub account : Text
  pub password : Text

-- The end of the menu: it waits for a choice, or a login left a token and the messages not read.
pub data Menu : Type 0 where
  waiting : Menu
  entered : (global_token : Text) → (unread : List TransFile) → Menu

-- the message that `login` or `register_client` waits for, and the rest
abbrev pub rest_of : List TransFile → List TransFile
rest_of [] = []
rest_of (m ∷ ms) = ms

abbrev pub chooses : Text → Choice → Bool
chooses number c = is_prefix number c.client_input

-- `login`, which tells the menu to end, with the token, if the answer has the flag
abbrev pub logged_in : List TransFile → Option Text
logged_in [] = none
logged_in (m ∷ ms) = if m.flag then some m.token else none

-- `none` stands for a form that leaves its arrays.
unfoldable pub menu : List Choice → List TransFile → Option Menu
unfolding login_request register_request
menu [] stream = some waiting
menu (c ∷ choices) stream =
    let again = menu choices (rest_of stream) in
    let wrong = menu choices stream in
    if chooses (codes "1") c
    then (elim (login_request c.account c.password) [
      | none ↦ none
      | some request ↦ elim (logged_in stream) [
        | none ↦ again
        | some token ↦ some (entered token (rest_of stream))
      ]
    ])
    else if chooses (codes "2") c
    then (elim (register_request c.account c.password) [ none ↦ none | some request ↦ again ])
    else wrong

-- the size of the array `command`
abbrev pub command_size : ℕ
command_size = 1024

-- A line that fills its array has no closing 0.
abbrev pub typed_command : Text → Option Text
typed_command line = if ltb (length line) command_size then remove_space line else none

-- what was done for a line, with the lines printed for it
abbrev pub Done : Type 0
Done = Executed × List Text

abbrev pub add : Done → Option (List Done × Text) → Option (List Done × Text)
add d none = none
add d (some (ds, token)) = some (d ∷ ds, token)

-- A line, with what the threads of transfers wrote to `global_token` since the last message was read, if
-- anything: `puts_File` and `gets_File` put the token of a message there that ends them early.
abbrev pub Line : Type 0
Line = Text × Option Text

-- the value of `global_token` when the line is read
abbrev pub current : Text → Option Text → Text
current global_token none = global_token
current global_token (some token) = token

-- The loop over the commands, up to the end of the input, with the token at its end.
unfoldable pub command_loop :
    (global_token : Text) → (typed : List Line) → List TransFile → Option (List Done × Text)
unfolding execute_command command_printf
command_loop global_token [] stream = some ([], global_token)
command_loop global_token ((line, written) ∷ typed) stream = elim (typed_command line) [
  | none ↦ none
  | some command ↦
      let token = current global_token written in
      elim (execute_command token command) [
        | refused ↦ add (refused, []) (command_loop token typed stream)
        | asks train ↦
            let p = command_printf stream in
            add (asks train, p.lines) (command_loop p.global_token typed p.unread)
        | starts train ↦ add (starts train, []) (command_loop token typed stream)
      ]
]

abbrev pub commands : Option Menu → List Line → Option (List Done × Text)
commands none typed = none
commands (some waiting) typed = none
commands (some (entered token unread)) typed = command_loop token typed unread

unfoldable pub client_main : List Choice → List Line → List TransFile → Option (List Done × Text)
client_main choices typed stream = commands (menu choices stream) typed
