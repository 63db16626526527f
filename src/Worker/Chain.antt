-- ===== src/Worker/Chain.antt =====
-- Two requests of one client, the second one with the token that the first one's answer carries.
use netdisk.Prelude.{
  ℕ, suc, ◌+◌, ◌≤◌, ◌<◌, ◌≡◌, ◌≢◌, refl, false, [], ◌∷◌, Option, some, codes, pos, length, arith,
}
use netdisk.Wire.{Text, TransFile}
use netdisk.Tool.FileName.{is_nil}
use netdisk.Tool.UserPath.{TokenInfo, path_size, get_user_path}
use netdisk.Catalog.Directory.{Collation, query_cd}
use netdisk.Token.{Jwt, params_of, generate_token, verify_token}
use netdisk.Token.Laws.{Faithful, verify_token-generate_token}
use netdisk.Login.{Crypt}
use netdisk.Command.{find_command, parse, send_message, change_to, change_dir, show_path}
use netdisk.Worker.Dispatch.{World, Input, connect_with_client, verified, serve_request}

module _ (sql : Collation) (page : ℕ) (stat : Text → Option ℕ) (bcrypt : Crypt) (jwt : Jwt)
    (key : Text) (now later : ℕ) (rand_str rand_str' : Text) where
  -- the message that says that a `cd` was done
  abbrev pub moved : TokenInfo → TransFile
  moved user = send_message (generate_token jwt key now) (codes "change success") false user

  moved-token :
      (user : TokenInfo) (fresh : Text)
      → user.user_id ≢ 0
      → generate_token jwt key now user ≡ some fresh
      → (moved user).token ≡ fresh
  unfolding send_message
  moved-token user fresh known made = ground (arith, known, made)

  cd-request :
      (w : World) (trans : TransFile) (input : Input) (before user : TokenInfo)
      (argument path : Text) (d : ℕ)
      → is_nil trans.token ≡ false
      → verify_token jwt key now trans.token before ≡ some (pos 0, user)
      → parse trans.data_length trans.body ≡ some (codes "cd", argument)
      → get_user_path argument user ≡ some path
      → query_cd w.session.view path user.user_id ≡ some (pos (suc d))
      → serve_request sql page stat bcrypt jwt key now rand_str w trans before input
        ≡ some (record {
          sent = moved (record user { workpath = path }) ∷ [];
          bytes = [];
          world = w;
          token = record user { workpath = path };
        })
  unfolding serve_request verified connect_with_client find_command change_dir change_to
  cd-request w trans input before user argument path d has_token is_user parsed at found =
      ground (arith, has_token, is_user, parsed, at, found)

  pwd-request :
      (w : World) (trans : TransFile) (input : Input) (before user : TokenInfo) (rest : Text)
      → is_nil trans.token ≡ false
      → verify_token jwt key later trans.token before ≡ some (pos 0, user)
      → parse trans.data_length trans.body ≡ some (codes "pwd", rest)
      → serve_request sql page stat bcrypt jwt key later rand_str' w trans before input
        ≡ some (record {
          sent = send_message (generate_token jwt key later) user.workpath false user ∷ [];
          bytes = [];
          world = w;
          token = user;
        })
  unfolding serve_request verified connect_with_client find_command show_path
  pwd-request w trans input before user rest has_token is_user parsed =
      ground (arith, has_token, is_user, parsed)

  -- A client with a valid token that asks `cd` to a directory that is there is told that it was done, and gets a token
  -- in the answer. If it asks `pwd` with that token within 600 seconds, the answer is the path of that directory,
  -- by whichever worker, and neither request changes tables or files. The JWT library keeps its promise for the
  -- new work path, which fits its array, and the token is made and is not empty.
  pub cd-pwd :
      (w : World) (trans trans' : TransFile) (input input' : Input)
      (before before' user : TokenInfo) (argument path rest : Text) (d : ℕ)
      → let user' = record user { workpath = path } in
        let sent' = send_message (generate_token jwt key later) path false user' in
        is_nil trans.token ≡ false
        → verify_token jwt key now trans.token before ≡ some (pos 0, user)
        → user.user_id ≢ 0
        → parse trans.data_length trans.body ≡ some (codes "cd", argument)
        → get_user_path argument user ≡ some path
        → query_cd w.session.view path user.user_id ≡ some (pos (suc d))
        → Faithful jwt key (params_of jwt now user')
        → generate_token jwt key now user' ≡ some trans'.token
        → is_nil trans'.token ≡ false
        → length path < path_size
        → parse trans'.data_length trans'.body ≡ some (codes "pwd", rest)
        → now ≤ later
        → later < now + 600
        → (serve_request sql page stat bcrypt jwt key now rand_str w trans before input
            ≡ some (record { sent = moved user' ∷ []; bytes = []; world = w; token = user' }))
          × ((moved user').token ≡ trans'.token)
          × (serve_request sql page stat bcrypt jwt key later rand_str' w trans' before' input'
              ≡ some (record { sent = sent' ∷ []; bytes = []; world = w; token = user' }))
          × (sent'.body ≡ path)
  unfolding send_message
  cd-pwd w trans trans' input input' before before' user argument path rest d has_token is_user
        known parsed at found faithful made fresh short parsed' le lt =
      let user' : TokenInfo = record user { workpath = path } in
      (
        cd-request w trans input before user argument path d has_token is_user parsed at found,
        moved-token user' trans'.token known made,
        pwd-request w trans' input' before' user' rest fresh
            (verify_token-generate_token jwt key trans'.token now later user' before' faithful made
              short le lt)
            parsed',
        refl,
      )
