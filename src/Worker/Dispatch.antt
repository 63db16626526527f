-- ===== src/Worker/Dispatch.antt =====
-- What a worker does with a request: the middle of `thread` and `connect_with_client` (server/thread.c).
use netdisk.Prelude.{
  ℕ, zero, suc, false, List, [], ◌∷◌, Option, none, some, get_elem?, if◌then◌else◌, ℤ, pos, negsuc,
}
use netdisk.Wire.{Text, TransFile}
use netdisk.Tool.FileName.{is_nil}
use netdisk.Tool.UserPath.{TokenInfo}
use netdisk.Catalog.Tables.{Session}
use netdisk.Catalog.Directory.{Collation}
use netdisk.Token.{Jwt, generate_token, verify_token}
use netdisk.Login.{Crypt, check_user_login}
use netdisk.Command.{command, find_command, parse, send_message, change_dir, show_dir, show_path}
use netdisk.Command.Change.{add_dir, remove_file}
use netdisk.Command.Detail.{show_dir_detail}
use netdisk.Transfer.Server.{Disk, recv_file, send_file}

-- what the requests work on: the tables and the files under `data`
pub record World : Type 0 where
  pub session : Session
  pub disk : Disk

-- what the client sends behind a `puts` or a `gets`, and what `open` says if it fails
pub record Input : Type 0 where
  pub hello : TransFile
  pub blocks : List Text
  pub client_size : ℕ
  pub open_error : Option Text

-- the messages and the bytes sent, the world, and `token`
pub record Reply : Type 0 where
  pub sent : List TransFile
  pub bytes : Text
  pub world : World
  pub token : TokenInfo

-- "无效的命令"
abbrev pub invalid_command : Text
invalid_command =
    230 ∷ 151 ∷ 160 ∷ 230 ∷ 149 ∷ 136 ∷ 231 ∷ 154 ∷ 132 ∷ 229 ∷ 145 ∷ 189 ∷ 228 ∷ 187 ∷ 164 ∷ []

-- "请重新登录"
abbrev pub login_again : Text
login_again =
    232 ∷ 175 ∷ 183 ∷ 233 ∷ 135 ∷ 141 ∷ 230 ∷ 150 ∷ 176 ∷ 231 ∷ 153 ∷ 187 ∷ 229 ∷ 189 ∷ 149 ∷ []

-- a handler that leaves the world as it is
abbrev pub answer : World → TokenInfo → Option (List TransFile) → Option Reply
answer w token none = none
answer w token (some sent) = some (record { sent = sent; bytes = []; world = w; token = token })

-- a handler that answers with one message and may change the tables
abbrev pub changed : World → TokenInfo → Option (ℤ × TransFile × Session) → Option Reply
changed w token none = none
changed w token (some (result, message, s)) =
    some
      (record { sent = message ∷ []; bytes = []; world = record w { session = s }; token = token })

abbrev pub Handler : Type 0
Handler = World → Text → TokenInfo → Input → Option Reply

-- `deal_command[command_no](client_fd, argument, token)`
abbrev pub deal : Option Handler → Handler
deal none w argument token input = none
deal (some handler) w argument token input = handler w argument token input

module _ (sql : Collation) (page : ℕ) (stat : Text → Option ℕ)
    (generate : TokenInfo → Option Text) where
  abbrev pub run_change_dir : Handler
  run_change_dir w argument token input = elim (change_dir generate w.session.view argument token) [
    | none ↦ none
    | some (sent, token') ↦ answer w token' (some sent)
  ]

  abbrev pub run_recv_file : Handler
  run_recv_file w argument token input =
      elim (recv_file sql generate page w.session w.disk argument token input.open_error input.hello
        input.blocks) [
          | none ↦ none
          | some done ↦ some (record {
            sent = done.sent;
            bytes = [];
            world = record { session = done.session; disk = done.disk };
            token = token;
          })
        ]

  abbrev pub run_send_file : Handler
  run_send_file w argument token input =
      elim (send_file sql generate page w.session.view w.disk argument token input.client_size) [
        | none ↦ none
        | some (sent, bytes) ↦
            some (record { sent = sent; bytes = bytes; world = w; token = token })
      ]

  -- `deal_command[]`
  abbrev pub deal_command : List Handler
  deal_command =
      run_change_dir
      ∷ (λ w argument token input. answer w token (show_dir generate w.session.view argument token))
      ∷ (λ w argument token input.
          answer w token (show_dir_detail generate stat w.session.view argument token))
      ∷ (λ w argument token input. answer w token (some (show_path generate token)))
      ∷ (λ w argument token input. changed w token (add_dir sql generate w.session argument token))
      ∷ run_recv_file
      ∷ run_send_file
      ∷ (λ w argument token input.
          changed w token (remove_file sql generate w.session argument token))
      ∷ []

  unfoldable pub connect_with_client : World → TransFile → TokenInfo → Input → Option Reply
  connect_with_client w train token input = elim (parse train.data_length train.body) [
    | none ↦ none
    | some (cmd, argument) ↦ elim (find_command cmd command) [
      | none ↦ answer w token (some (send_message generate invalid_command false token ∷ []))
      | some command_no ↦ deal (get_elem? deal_command command_no) w argument token input
    ]
  ]

module _ (sql : Collation) (page : ℕ) (stat : Text → Option ℕ) (bcrypt : Crypt) (jwt : Jwt)
    (key : Text) where
  -- A request with a token, by the result of `verify_token`.
  unfoldable pub verified :
      (now : ℕ) → World → TransFile → Input → Option (ℤ × TokenInfo) → Option Reply
  unfolding connect_with_client
  verified now w trans input none = none
  verified now w trans input (some (pos zero, token)) =
      connect_with_client sql page stat (generate_token jwt key now) w trans token input
  verified now w trans input (some (pos (suc n), token)) =
      answer w token (some (send_message (generate_token jwt key now) login_again false token ∷ []))
  verified now w trans input (some (negsuc n, token)) =
      answer w token (some (send_message (generate_token jwt key now) login_again false token ∷ []))

  -- A request without a token.
  unfoldable pub unknown :
      (now : ℕ) → (rand_str : Text) → World → TransFile → TokenInfo → Option Reply
  unknown now rand_str w trans token =
      elim (check_user_login sql bcrypt (generate_token jwt key now) rand_str w.session trans
        token) [
          | none ↦ none
          | some ((result, sent, token'), s) ↦
              some (record {
                sent = sent;
                bytes = [];
                world = record w { session = s };
                token = token';
              })
        ]

  -- The round of `thread` from the test of the token to the answer; `token` is the worker's variable.
  unfoldable pub serve_request :
      (now : ℕ) → (rand_str : Text) → World → TransFile → TokenInfo → Input → Option Reply
  unfolding verified unknown
  serve_request now rand_str w trans token input =
      if is_nil trans.token
      then unknown now rand_str w trans token
      else verified now w trans input (verify_token jwt key now trans.token token)
