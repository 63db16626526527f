-- ===== src/Client/Tests.antt =====
-- The client on small inputs, and the theorems there.
use netdisk.Prelude.{
  ℕ, ◌≡◌, refl, true, false, [], ◌∷◌, ◌++◌, map, Option, none, some, codes, get_elem?,
  if◌then◌else◌, arith,
}
use netdisk.Wire.{Text, TransFile, text_eq, is_long}
use netdisk.Tool.Space.{newline, remove_space}
use netdisk.Tool.Argument.{splite_argument}
use netdisk.Tool.UserPath.{TokenInfo}
use netdisk.Catalog.Tables.{Session}
use netdisk.Catalog.Sample.{sql, session}
use netdisk.Token.{Jwt, generate_token, verify_token}
use netdisk.Login.{Crypt, registered, welcome, token_of, check_user_login}
use netdisk.Login.Laws.{Settles}
use netdisk.Command.{command, find_command, parse, send_message}
use netdisk.TaskQueue.{no_request}
use netdisk.Worker.Dispatch.{World, Input, Reply, login_again, verified, serve_request}
use netdisk.Client.{order, judge, asks, refused, train_of, execute_command, command_printf}
use netdisk.Client.Agree.{sends, execute_command-find_command}
use netdisk.Client.Framed.{last_token, body_of}
use netdisk.Client.Answer.{execute_command-serve_request}
use netdisk.Client.Forms.{login_request, register_request}
use netdisk.Client.FormLaws.{Typed, register-login}
use netdisk.Client.Paths.{trim}

-- what the client refuses, and a word that it takes for `cd`
no_ls : execute_command [] (codes "ls a b") ≡ refused
unfolding execute_command judge
no_ls = refl

prefix : execute_command [] (codes "cdx a") ≡ asks (train_of [] (codes "cdx a") 0)
unfolding execute_command judge
prefix = refl

trimmed : trim (codes " a b \n") ≡ codes "a b"
unfolding trim
trimmed = refl

abbrev ls : TransFile
ls = train_of (codes "t") (codes "ls a") 1

ls_asked : execute_command (codes "t") (codes "ls a") ≡ asks ls
unfolding execute_command judge
ls_asked = refl

ls_line : parse 4 (codes "ls a") ≡ some (codes "ls", codes "a")
unfolding parse remove_space splite_argument
ls_line = refl

ls_sent : sends (execute_command (codes "t") (codes "ls a")) ≡ some (false, ls)
unfolding execute_command judge
ls_sent = refl

execute_command-find_command_example :
    (o : Text) × (get_elem? order 1 ≡ some o)
    × (find_command (codes "ls") command ≡ (if text_eq (codes "ls") o then some 1 else none))
    × (false ≡ is_long 1)
execute_command-find_command_example =
    execute_command-find_command (codes "t") (codes "ls a") (codes "ls") (codes "a") false ls
      ls_sent ls_line

-- a library that knows no token
abbrev jwt : Jwt
jwt = record { encode = λ key p. none; decode = λ key now t. none }

abbrev plain : Crypt
plain = record { gensalt = λ r. r; crypt = λ phrase setting. phrase }

abbrev world : World
world = record { session = session; disk = λ _. none }

abbrev nothing : Input
nothing = record { hello = no_request; blocks = []; client_size = 0; open_error = none }

abbrev nobody : TokenInfo
nobody = record { user_id = 0; workpath = [] }

abbrev no_size : Text → Option ℕ
no_size name = none

abbrev reply : Reply
reply = record {
  sent = send_message (generate_token jwt (codes "k") 5) login_again false nobody ∷ [];
  bytes = [];
  world = world;
  token = nobody;
}

ls_served :
    serve_request sql 2 no_size plain jwt (codes "k") 5 [] world ls nobody nothing ≡ some reply
unfolding serve_request verified verify_token
ls_served = refl

execute_command-serve_request_example : command_printf (reply.sent ++ no_request ∷ []) ≡ record {
  global_token = last_token reply.sent;
  lines = map body_of reply.sent;
  unread = no_request ∷ [];
}
execute_command-serve_request_example =
    execute_command-serve_request sql 2 no_size plain jwt (codes "k") 5 [] world ls nobody nothing
      reply (codes "t") (codes "ls a") (codes "ls") (codes "a") (no_request ∷ []) ls_asked refl
      ls_line ls_served

bo-Typed : Typed (codes "bo")
bo-Typed = (
  ((λ e. absurd (cc)), ((λ e. absurd (omega (arith, e))), ((λ e. absurd (omega (arith, e))), tt))),
  ((λ e. absurd (omega (arith, e))), ((λ e. absurd (omega (arith, e))), tt)),
  omega arith,
)

pw-Typed : Typed (codes "pw")
pw-Typed = (
  ((λ e. absurd (cc)), ((λ e. absurd (omega (arith, e))), ((λ e. absurd (omega (arith, e))), tt))),
  ((λ e. absurd (omega (arith, e))), ((λ e. absurd (omega (arith, e))), tt)),
  omega arith,
)

plain-Settles : Settles plain
plain-Settles phrase rand_str = refl

apart : ¬ (◌≡◌ {A = ℕ} 1 2)
apart e = absurd (omega (arith, e))

abbrev no_token : TokenInfo → Option Text
no_token info = none

register-login_example :
    let token = token_of 2 (codes "bo") in
    (t : TransFile) × (t' : TransFile) × (s' : Session) × (register_request
        (codes "bo" ++ newline ∷ [])
        (codes "pw" ++ newline ∷ [])
      ≡ some t)
    × (check_user_login sql plain no_token [] session t nobody
        ≡ some ((0, send_message no_token registered true token ∷ [], token), s'))
    × (s'.committed ≡ s'.view)
    × (login_request (codes "bo" ++ newline ∷ []) (codes "pw" ++ newline ∷ []) ≡ some t')
    × (check_user_login sql plain no_token [] s' t' nobody
        ≡ some ((0, send_message no_token welcome true token ∷ [], token), s'))
register-login_example =
    register-login sql plain no_token [] [] session (codes "bo") (codes "pw") nobody nobody bo-Typed
      pw-Typed (omega arith) plain-Settles refl (apart, (apart, (apart, (apart, tt))))
      ((λ e. absurd (omega (arith, e))), ((λ e. absurd (omega (arith, e))), tt)) (omega arith)
