-- ===== src/Worker/Tests.antt =====
-- The short thread at a queue with a `cd` behind a `gets`.
use netdisk.Prelude.{
  ℕ, if◌then◌else◌, sym, ap, Option, All, codes, pos, ◌≡◌, ◌⊎◌, refl, true, false, List, [], ◌∷◌,
  some, none, arith,
}
use netdisk.Wire.{Text, TransFile, text_eq}
use netdisk.Tool.Space.{remove_space}
use netdisk.Tool.Argument.{splite_argument}
use netdisk.Tool.FileName.{splite_file_name}
use netdisk.Tool.Simplify.{simplify_path}
use netdisk.Tool.UserPath.{TokenInfo, get_user_path}
use netdisk.Catalog.Directory.{confirm, cd_in, query_cd}
use netdisk.Catalog.Sample.{sql, tables, session}
use netdisk.Token.Decimal.{to_decimal, atol}
use netdisk.Token.{Claim, Jwt, params_of, generate_token, verify_token}
use netdisk.Token.Laws.{Faithful}
use netdisk.Login.{Crypt}
use netdisk.Command.{parse, find_command, send_message, show_path}
use netdisk.Memory.{Mem, overwrite, done}
use netdisk.TaskQueue.{TaskQueue, no_request}
use netdisk.TaskQueue.Seg.{Cell, Holds, Returns, node_of}
use netdisk.TaskQueue.Refine.{serve}
use netdisk.Worker.{waits, took, take_task}
use netdisk.Worker.Dispatch.{World, Input, connect_with_client, verified, serve_request}
use netdisk.Worker.Access.{Allowed, serve_request-world}
use netdisk.Worker.Chain.{moved, cd-pwd}
use netdisk.Worker.Laws.{NoTask, take_task-serve}

abbrev c1 : Cell
c1 = record { addr = 2; netfd = 7; train = record no_request { command_no = 6 } }

abbrev c2 : Cell
c2 = record { addr = 3; netfd = 8; train = no_request }

abbrev mem : Mem
mem = overwrite (overwrite (λ _. none) 2 (some (node_of c1 3))) 3 (some (node_of c2 0))

abbrev queue : TaskQueue
queue = record { head = 2; tail = 3; queue_size = 2; max_size = 12; short_command_size = 1 }

queue-Holds : Holds mem queue (c1 ∷ c2 ∷ [])
unfolding overwrite
queue-Holds = record {
  linked = (
    refl,
    refl,
    ((omega arith), ground arith, omega arith, ((omega arith), ground arith, tt, tt)),
  );
  size = refl;
  bound = omega arith;
  short = refl;
}

take_task-serve_example :
    (NoTask true (c1 ∷ c2 ∷ []) × (take_task false true queue mem ≡ done (waits, queue) mem))
    ⊎ ((c : Cell) × (rest : List Cell) × (serve true (c1 ∷ c2 ∷ []) ≡ some (c, rest))
        × Returns
            (λ (w, q) g. (w ≡ took c.netfd c.train) × Holds g q rest)
            (take_task false true queue mem))
take_task-serve_example = take_task-serve false true mem queue (c1 ∷ c2 ∷ []) queue-Holds refl

-- which request it is
served_short : serve true (c1 ∷ c2 ∷ []) ≡ some (c2, c1 ∷ [])
unfolding serve
served_short = refl

-- a hash that is the password itself
abbrev crypt : Crypt
crypt = record { gensalt = λ r. r; crypt = λ phrase setting. phrase }

abbrev claims_at : Text → List Claim
claims_at path = (codes "sub", codes "1") ∷ (codes "workpath", path) ∷ []

-- a library that makes one token, for /ann/a, and knows an older one for /ann
abbrev jwt : Jwt
jwt = record {
  encode = λ key p. some (codes "t");
  decode = λ key now t.
      some (0, claims_at (if text_eq t (codes "s") then codes "/ann" else codes "/ann/a"));
}

abbrev ann : TokenInfo
ann = record { user_id = 1; workpath = codes "/ann" }

abbrev in_a : TokenInfo
in_a = record { user_id = 1; workpath = codes "/ann/a" }

abbrev nobody : TokenInfo
nobody = record { user_id = 0; workpath = [] }

sub_only :
    All
      (λ (c : Claim). text_eq c.0 (codes "sub") ≡ true → c.1 ≡ codes "1")
      (claims_at (codes "/ann/a"))
sub_only = ((λ e. refl), ((λ e. absurd (cc)), tt))

path_only :
    All
      (λ (c : Claim). text_eq c.0 (codes "workpath") ≡ true → c.1 ≡ codes "/ann/a")
      (claims_at (codes "/ann/a"))
path_only = ((λ e. absurd (cc)), ((λ e. refl), tt))

jwt-Faithful : Faithful jwt (codes "k") (params_of jwt 5 in_a)
unfolding to_decimal
jwt-Faithful token now e le lt =
    let is : codes "t" ≡ token = ground (arith, e) in
    (
      claims_at (codes "/ann/a"),
      ap (jwt.decode (codes "k") now) (sym is),
      (refl, sub_only),
      ((refl, path_only), tt),
    )

old_token : verify_token jwt (codes "k") 5 (codes "s") nobody ≡ some (pos 0, ann)
unfolding verify_token atol
old_token = refl

new_token : generate_token jwt (codes "k") 5 in_a ≡ some (codes "t")
unfolding generate_token
new_token = refl

abbrev cd_request : TransFile
cd_request = record {
  body = codes "cd a";
  data_length = 4;
  command_no = 0;
  flag = false;
  token = codes "s";
}

abbrev pwd_request : TransFile
pwd_request = record {
  body = codes "pwd";
  data_length = 3;
  command_no = 3;
  flag = false;
  token = codes "t";
}

cd_line : parse 4 (codes "cd a") ≡ some (codes "cd", codes "a")
unfolding parse remove_space splite_argument
cd_line = refl

pwd_line : parse 3 (codes "pwd") ≡ some (codes "pwd", [])
unfolding parse remove_space splite_argument
pwd_line = refl

to_a : get_user_path (codes "a") ann ≡ some (codes "/ann/a")
unfolding get_user_path simplify_path splite_file_name
to_a = refl

there : query_cd tables (codes "/ann/a") 1 ≡ some (pos 2)
unfolding query_cd cd_in confirm splite_file_name
there = refl

abbrev world : World
world = record { session = session; disk = λ _. none }

abbrev nothing : Input
nothing = record { hello = no_request; blocks = []; client_size = 0; open_error = none }

-- every file has four bytes
abbrev four : Text → Option ℕ
four name = some 4

cd-pwd_example :
    let reply = send_message (generate_token jwt (codes "k") 60) (codes "/ann/a") false in_a in
    (serve_request sql 2 four crypt jwt (codes "k") 5 [] world cd_request nobody nothing
      ≡ some (record {
        sent = moved sql 2 four crypt jwt (codes "k") 5 60 [] [] in_a ∷ [];
        bytes = [];
        world = world;
        token = in_a;
      }))
    × ((moved sql 2 four crypt jwt (codes "k") 5 60 [] [] in_a).token ≡ codes "t")
    × (serve_request sql 2 four crypt jwt (codes "k") 60 [] world pwd_request nobody nothing
        ≡ some (record { sent = reply ∷ []; bytes = []; world = world; token = in_a }))
    × (reply.body ≡ codes "/ann/a")
cd-pwd_example =
    cd-pwd sql 2 four crypt jwt (codes "k") 5 60 [] [] world cd_request pwd_request nothing nothing
      nobody nobody ann (codes "a") (codes "/ann/a") [] 1 refl old_token
      (λ e. absurd (omega (arith, e))) cd_line to_a there jwt-Faithful new_token refl (omega arith)
      pwd_line (omega arith) (omega arith)

-- a `pwd` as the answer of a verified request
pwd_reply :
    serve_request sql 2 four crypt jwt (codes "k") 5 [] world pwd_request nobody nothing
    ≡ some (record {
      sent = send_message (generate_token jwt (codes "k") 5) (codes "/ann/a") false in_a ∷ [];
      bytes = [];
      world = world;
      token = in_a;
    })
unfolding serve_request verified verify_token atol connect_with_client find_command show_path parse
    remove_space splite_argument
pwd_reply = refl

serve_request-world_example : Allowed jwt (codes "k") 5 world pwd_request nobody (record {
  sent = send_message (generate_token jwt (codes "k") 5) (codes "/ann/a") false in_a ∷ [];
  bytes = [];
  world = world;
  token = in_a;
})
serve_request-world_example =
    serve_request-world sql 2 four crypt jwt (codes "k") 5 [] world pwd_request nobody nothing
      (record {
        sent = send_message (generate_token jwt (codes "k") 5) (codes "/ann/a") false in_a ∷ [];
        bytes = [];
        world = world;
        token = in_a;
      })
      pwd_reply
