-- ===== src/Client/MenuTests.antt =====
-- A small session of the client.
use netdisk.Prelude.{ℕ, ◌≡◌, refl, true, false, List, [], ◌∷◌, ◌++◌, Option, none, some, codes}
use netdisk.Wire.{Text, TransFile}
use netdisk.Tool.Space.{newline, remove_space}
use netdisk.Tool.Argument.{splite_argument}
use netdisk.Tool.UserPath.{TokenInfo}
use netdisk.Catalog.Sample.{sql, session}
use netdisk.Catalog.Account.{get_user}
use netdisk.Token.{Jwt, generate_token, verify_token}
use netdisk.Login.{Crypt, welcome, token_of, user_log_info, check_user_login}
use netdisk.Command.{parse, send_message}
use netdisk.TaskQueue.{no_request}
use netdisk.Worker.Dispatch.{World, Input, Reply, login_again, verified, unknown, serve_request}
use netdisk.Client.{asks, train_of, judge, execute_command}
use netdisk.Client.Forms.{login_request, login_train}
use netdisk.Client.Menu.{Choice, menu, waiting, typed_command, client_main}
use netdisk.Client.Conversation.{Answers, Visit, end, ask, again, enter, client_main-Visit}

-- a library that gives one token, and finds it expired
abbrev jwt : Jwt
jwt = record { encode = λ key p. some (codes "t"); decode = λ key now t. some (1, []) }

abbrev plain : Crypt
plain = record { gensalt = λ r. r; crypt = λ phrase setting. phrase }

abbrev world : World
world = record { session = session; disk = λ _. none }

abbrev nothing : Input
nothing = record { hello = no_request; blocks = []; client_size = 0; open_error = none }

abbrev nobody : TokenInfo
nobody = record { user_id = 0; workpath = [] }

abbrev no_size : Text → Option ℕ
no_size name = none

abbrev no_choice : Choice
no_choice = record { client_input = codes "3"; account = []; password = [] }

abbrev log_in : Choice
log_in = record {
  client_input = codes "1";
  account = codes "ann" ++ newline ∷ [];
  password = codes "x" ++ newline ∷ [];
}

abbrev login_sent : TransFile
login_sent = login_train (codes "ann") (codes "x")

login_sent_at : login_request log_in.account log_in.password ≡ some login_sent
unfolding login_request
login_sent_at = refl

abbrev greeting : TransFile
greeting = send_message (generate_token jwt (codes "k") 5) welcome true (token_of 1 (codes "ann"))

abbrev greeted : Reply
greeted = record {
  sent = greeting ∷ [];
  bytes = [];
  world = world;
  token = token_of 1 (codes "ann");
}

login_answered : Answers sql 2 no_size plain jwt (codes "k") world login_sent greeted
unfolding serve_request verified unknown check_user_login user_log_info remove_space splite_argument
    send_message generate_token get_user
login_answered = (5, [], nobody, nothing, refl)

abbrev ls : TransFile
ls = train_of greeting.token (codes "ls a") 1

abbrev farewell : TransFile
farewell = send_message (generate_token jwt (codes "k") 700) login_again false nobody

abbrev expired : Reply
expired = record { sent = farewell ∷ []; bytes = []; world = world; token = nobody }

ls_answered : Answers sql 2 no_size plain jwt (codes "k") world ls expired
unfolding serve_request verified verify_token send_message generate_token
ls_answered = (700, [], nobody, nothing, refl)

ls_typed : typed_command (codes "ls a" ++ newline ∷ []) ≡ some (codes "ls a")
unfolding remove_space
ls_typed = refl

ls_asked : execute_command greeting.token (codes "ls a") ≡ asks ls
unfolding execute_command judge
ls_asked = refl

ls_parsed : parse 4 (codes "ls a") ≡ some (codes "ls", codes "a")
unfolding parse remove_space splite_argument
ls_parsed = refl

-- whatever is chosen, the menu does not end without a login
no_end : (stream : List TransFile) → menu (no_choice ∷ no_choice ∷ []) stream ≡ some waiting
unfolding menu
no_end stream = refl

token_sent : greeting.token ≡ codes "t"
unfolding send_message generate_token
token_sent = refl

visit :
    Visit sql 2 no_size plain jwt
      (codes "k")
      (no_choice ∷ log_in ∷ [])
      (((codes "ls a" ++ newline ∷ []), none) ∷ [])
      (greeting ∷ farewell ∷ [])
      ((asks ls, farewell.body ∷ []) ∷ [])
      farewell.token
unfolding send_message generate_token
visit = again refl refl (
    enter world login_sent greeting greeted refl login_sent_at login_answered refl refl (
      ask world ls (codes "ls") (codes "a") expired ls_typed ls_asked refl ls_parsed ls_answered
        end))

client_main-Visit_example :
    client_main
      (no_choice ∷ log_in ∷ [])
      (((codes "ls a" ++ newline ∷ []), none) ∷ [])
      (greeting ∷ farewell ∷ [])
    ≡ some ((asks ls, farewell.body ∷ []) ∷ [], farewell.token)
client_main-Visit_example = client_main-Visit sql 2 no_size plain jwt (codes "k") visit
