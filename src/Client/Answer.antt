-- ===== src/Client/Answer.antt =====
-- The answers of the server to short commands, as `command_printf` reads them.
use netdisk.Prelude.{
  ℕ, zero, suc, ◌≡◌, refl, ap, subst, false, List, [], ◌∷◌, ◌++◌, map, Option, none, some,
  get_elem?, pos, negsuc, ℤ, arith, Option-cases, inl, inr,
}
use netdisk.Wire.{Text, TransFile, is_long}
use netdisk.Tool.FileName.{is_nil}
use netdisk.Tool.UserPath.{TokenInfo}
use netdisk.Catalog.Tables.{Session}
use netdisk.Catalog.Directory.{Collation, query_mkdir, query_remove}
use netdisk.Token.{Jwt, generate_token, verify_token}
use netdisk.Login.{Crypt}
use netdisk.Command.{command, find_command, parse, send_message, change_dir, show_path}
use netdisk.Command.Change.{place, mkdir_answer, remove_answer, add_dir, remove_file}
use netdisk.Worker.Dispatch.{
  World, Input, Reply, answer, changed, run_change_dir, deal_command, deal, connect_with_client,
  invalid_command, login_again, verified, serve_request,
}
use netdisk.Client.{asks, execute_command, command_printf}
use netdisk.Client.Agree.{sends, execute_command-find_command}
use netdisk.Client.Framed.{
  Framed, last_token, body_of, command_printf-Framed, message-flag, change_dir-Framed,
  show_dir-Framed, show_dir_detail-Framed,
}

answer-Framed :
    (w : World) (token : TokenInfo) (o : Option (List TransFile)) (r : Reply)
    → ((sent : List TransFile) → o ≡ some sent → Framed sent)
    → answer w token o ≡ some r
    → Framed r.sent
answer-Framed w token none r h e = cc
answer-Framed w token (some sent) r h e =
    let is : sent ≡ r.sent = ground (arith, e) in subst Framed is (h sent refl)

changed-Framed :
    (w : World) (token : TokenInfo) (o : Option (ℤ × TransFile × Session)) (r : Reply)
    → ((k : ℤ) (m : TransFile) (s : Session) → o ≡ some (k, m, s) → m.flag ≡ false)
    → changed w token o ≡ some r
    → Framed r.sent
changed-Framed w token none r h e = cc
changed-Framed w token (some (k, m, s)) r h e =
    let is : m ∷ [] ≡ r.sent = ground (arith, e) in subst Framed is (h k m s refl)

module _ (sql : Collation) (page : ℕ) (stat : Text → Option ℕ)
    (generate : TokenInfo → Option Text) where
  add_dir-flag :
      (s s' : Session) (argument : Text) (token : TokenInfo) (k : ℤ) (m : TransFile)
      → add_dir sql generate s argument token ≡ some (k, m, s')
      → m.flag ≡ false
  unfolding add_dir
  add_dir-flag s s' argument token k m e = elim (Option-cases (place argument token)) [
    | inl f ↦ absurd (ground (arith, e, f))
    | inr ((path, name), f) ↦ elim (Option-cases (query_mkdir sql s path name token.user_id)) [
      | inl g ↦ absurd (ground (arith, e, f, g))
      | inr ((ret, s2), g) ↦
          let is : send_message generate (mkdir_answer ret).1 false token ≡ m =
            ground (arith, e, f, g) in
          subst (λ x. x.flag ≡ false) is (message-flag generate (mkdir_answer ret).1 false token)
    ]
  ]

  remove_file-flag :
      (s s' : Session) (argument : Text) (token : TokenInfo) (k : ℤ) (m : TransFile)
      → remove_file sql generate s argument token ≡ some (k, m, s')
      → m.flag ≡ false
  unfolding remove_file
  remove_file-flag s s' argument token k m e = elim (Option-cases (place argument token)) [
    | inl f ↦ absurd (ground (arith, e, f))
    | inr ((path, name), f) ↦ elim (Option-cases (query_remove sql s path name token.user_id)) [
      | inl g ↦ absurd (ground (arith, e, f, g))
      | inr ((ret, s2), g) ↦
          let is : send_message generate (remove_answer ret).1 false token ≡ m =
            ground (arith, e, f, g) in
          subst (λ x. x.flag ≡ false) is (message-flag generate (remove_answer ret).1 false token)
    ]
  ]

  run_change_dir-Framed :
      (w : World) (argument : Text) (token : TokenInfo) (input : Input) (r : Reply)
      → run_change_dir sql page stat generate w argument token input ≡ some r
      → Framed r.sent
  run_change_dir-Framed w argument token input r e =
      elim (Option-cases (change_dir generate w.session.view argument token)) [
        | inl f ↦ absurd (ground (arith, e, f))
        | inr ((sent, token'), f) ↦
            let is : sent ≡ r.sent = ground (arith, e, f) in
            subst Framed is (change_dir-Framed generate w.session argument token token' sent f)
      ]

  deal-Framed :
      (n : ℕ) (w : World) (argument : Text) (token : TokenInfo) (input : Input) (r : Reply)
      → is_long n ≡ false
      → deal (get_elem? (deal_command sql page stat generate) n) w argument token input ≡ some r
      → Framed r.sent
  unfolding show_path
  deal-Framed zero w argument token input r h e = run_change_dir-Framed w argument token input r e
  deal-Framed (suc zero) w argument token input r h e =
      answer-Framed w token _ r (show_dir-Framed generate w.session argument token) e
  deal-Framed (suc (suc zero)) w argument token input r h e =
      answer-Framed w token _ r (show_dir_detail-Framed generate stat w.session argument token) e
  deal-Framed (suc (suc (suc zero))) w argument token input r h e =
      let is : send_message generate token.workpath false token ∷ [] ≡ r.sent = ground (arith, e) in
      subst Framed is (message-flag generate token.workpath false token)
  deal-Framed (suc (suc (suc (suc zero)))) w argument token input r h e =
      changed-Framed w token _ r (λ k m s. add_dir-flag w.session s argument token k m) e
  deal-Framed (suc (suc (suc (suc (suc zero))))) w argument token input r h e = cc
  deal-Framed (suc (suc (suc (suc (suc (suc zero)))))) w argument token input r h e = cc
  deal-Framed (suc (suc (suc (suc (suc (suc (suc zero))))))) w argument token input r h e =
      changed-Framed w token _ r (λ k m s. remove_file-flag w.session s argument token k m) e
  deal-Framed (suc (suc (suc (suc (suc (suc (suc (suc n)))))))) w argument token input r h e = cc

  connect-Framed :
      (w : World) (trans : TransFile) (token : TokenInfo) (input : Input) (cmd argument : Text)
      (r : Reply)
      → parse trans.data_length trans.body ≡ some (cmd, argument)
      → ((n : ℕ) → find_command cmd command ≡ some n → is_long n ≡ false)
      → connect_with_client sql page stat generate w trans token input ≡ some r
      → Framed r.sent
  unfolding connect_with_client
  connect-Framed w trans token input cmd argument r parsed short e =
      elim (Option-cases (find_command cmd command)) [
        | inl f ↦
            let is : send_message generate invalid_command false token ∷ [] ≡ r.sent =
              ground (arith, e, parsed, f) in
            subst Framed is (message-flag generate invalid_command false token)
        | inr (n, f) ↦
            deal-Framed n w argument token input r (short n f) (ground (arith, e, parsed, f))
      ]

  -- the answer to a token that is refused
  refused-Framed :
      (w : World) (token : TokenInfo) (r : Reply)
      → answer w token (some (send_message generate login_again false token ∷ [])) ≡ some r
      → Framed r.sent
  refused-Framed w token r e =
      let is : send_message generate login_again false token ∷ [] ≡ r.sent = ground (arith, e) in
      subst Framed is (message-flag generate login_again false token)

-- If the client sends a line over the connection that it keeps, with a token, and the server reads a command from it and
-- answers, then the client prints every message of the answer and nothing else, keeps the token of the last
-- one, and stops reading at the end of the answer: what comes later stays unread. This holds whatever the
-- request comes to, a refused token and an unknown command included.
pub execute_command-serve_request :
    (sql : Collation) (page : ℕ) (stat : Text → Option ℕ) (bcrypt : Crypt) (jwt : Jwt) (key : Text)
    (now : ℕ) (rand_str : Text) (w : World) (trans : TransFile) (token : TokenInfo) (input : Input)
    (r : Reply) (global_token line cmd argument : Text) (later : List TransFile)
    → execute_command global_token line ≡ asks trans
    → is_nil trans.token ≡ false
    → parse trans.data_length trans.body ≡ some (cmd, argument)
    → serve_request sql page stat bcrypt jwt key now rand_str w trans token input ≡ some r
    → command_printf (r.sent ++ later)
      ≡ record { global_token = last_token r.sent; lines = map body_of r.sent; unread = later }
unfolding serve_request verified
execute_command-serve_request sql page stat bcrypt jwt key now rand_str w trans token input r
      global_token line cmd argument later asked has_token parsed e =
    command_printf-Framed r.sent later
      (checked (verify_token jwt key now trans.token token) (ground (arith, e, has_token)))
  where
    short : (n : ℕ) → find_command cmd command ≡ some n → is_long n ≡ false
    short n f =
        let (o, at, found, tr) =
          execute_command-find_command global_token line cmd argument false trans (ap sends asked)
            parsed in
        ground (arith, f, found, tr)

    checked :
        (o : Option (ℤ × TokenInfo))
        → verified sql page stat bcrypt jwt key now w trans input o ≡ some r
        → Framed r.sent
    checked none h = cc
    checked (some (pos zero, user)) h =
        connect-Framed sql page stat (generate_token jwt key now) w trans user input cmd argument r
          parsed short h
    checked (some (pos (suc n), user)) h =
        refused-Framed sql page stat (generate_token jwt key now) w user r h
    checked (some (negsuc n, user)) h =
        refused-Framed sql page stat (generate_token jwt key now) w user r h
