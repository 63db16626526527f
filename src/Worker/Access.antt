-- ===== src/Worker/Access.antt =====
-- Which requests may change what the server keeps.
use netdisk.Prelude.{
  ℕ, zero, suc, ◌≡◌, ◌⊎◌, inl, inr, refl, ap, ◌∙◌, true, List, Option, none, some, get_elem?, ℤ,
  pos, negsuc, Bool-cases, Option-cases, arith,
}
use netdisk.Wire.{Text, TransFile}
use netdisk.Tool.FileName.{is_nil}
use netdisk.Tool.UserPath.{TokenInfo}
use netdisk.Catalog.Tables.{Session}
use netdisk.Catalog.Directory.{Collation}
use netdisk.Token.{Jwt, generate_token, verify_token}
use netdisk.Login.{Answer, Crypt, check_user_login}
use netdisk.Login.Laws.{check_user_login_keeps}
use netdisk.Command.{command, find_command, parse, change_dir}
use netdisk.Transfer.Server.{send_file}
use netdisk.Worker.Dispatch.{
  World, Input, Reply, answer, run_change_dir, run_send_file, deal_command, deal,
  connect_with_client, verified, unknown, serve_request,
}

-- `mkdir`, `puts` and `rm`
abbrev pub Changes : ℕ → Type 0
Changes n = (n ≡ 4) ⊎ (n ≡ 5) ⊎ (n ≡ 7)

answer-world :
    (w : World) (token : TokenInfo) (o : Option (List TransFile)) (r : Reply)
    → answer w token o ≡ some r
    → r.world ≡ w
answer-world w token none r e = cc
answer-world w token (some sent) r e = ground (arith, e)

module _ (sql : Collation) (page : ℕ) (stat : Text → Option ℕ) where
  module _ (generate : TokenInfo → Option Text) (w : World) (argument : Text) (token : TokenInfo)
      (input : Input) (r : Reply) where
    change_dir-world :
        run_change_dir sql page stat generate w argument token input ≡ some r → r.world ≡ w
    change_dir-world e = elim (Option-cases (change_dir generate w.session.view argument token)) [
      | inl f ↦ absurd (ground (arith, e, f))
      | inr ((sent, token'), f) ↦ ground (arith, e, f)
    ]

    send_file-world :
        run_send_file sql page stat generate w argument token input ≡ some r → r.world ≡ w
    send_file-world e =
        elim (Option-cases
          (send_file sql generate page w.session.view w.disk argument token input.client_size)) [
            | inl f ↦ absurd (ground (arith, e, f))
            | inr ((sent, bytes), f) ↦ ground (arith, e, f)
          ]

    deal-world :
        (n : ℕ)
        → deal (get_elem? (deal_command sql page stat generate) n) w argument token input ≡ some r
        → (r.world ≡ w) ⊎ Changes n
    deal-world zero e = inl (change_dir-world e)
    deal-world (suc zero) e = inl (answer-world w token _ r e)
    deal-world (suc (suc zero)) e = inl (answer-world w token _ r e)
    deal-world (suc (suc (suc zero))) e = inl (ground (arith, e))
    deal-world (suc (suc (suc (suc zero)))) e = inr (inl refl)
    deal-world (suc (suc (suc (suc (suc zero))))) e = inr (inr (inl refl))
    deal-world (suc (suc (suc (suc (suc (suc zero)))))) e = inl (send_file-world e)
    deal-world (suc (suc (suc (suc (suc (suc (suc zero))))))) e = inr (inr (inr refl))
    deal-world (suc (suc (suc (suc (suc (suc (suc (suc n)))))))) e = cc

  connect-world :
      (generate : TokenInfo → Option Text) (w : World) (trans : TransFile) (token : TokenInfo)
      (input : Input) (r : Reply)
      → connect_with_client sql page stat generate w trans token input ≡ some r
      → (r.world ≡ w)
        ⊎ ((cmd : Text) × (argument : Text) × (n : ℕ) × (parse trans.data_length trans.body
              ≡ some (cmd, argument))
            × (find_command cmd command ≡ some n)
            × Changes n)
  unfolding connect_with_client
  connect-world generate w trans token input r e =
      elim (Option-cases (parse trans.data_length trans.body)) [
        | inl f ↦ absurd (ground (arith, e, f))
        | inr ((cmd, argument), f) ↦ elim (Option-cases (find_command cmd command)) [
          | inl g ↦ inl (ground (arith, e, f, g))
          | inr (n, g) ↦
              elim (deal-world generate w argument token input r n (ground (arith, e, f, g))) [
                | inl same ↦ inl same
                | inr change ↦ inr (cmd, argument, n, f, g, change)
              ]
        ]
      ]

-- The world is as before, or the request has no token and asks to register, which leaves the files, or it
-- has a token that is verified and its command is one that changes the world.
abbrev pub Allowed : Jwt → Text → ℕ → World → TransFile → TokenInfo → Reply → Type 0
Allowed jwt key now w trans token r =
    (r.world ≡ w)
    ⊎ ((is_nil trans.token ≡ true) × (trans.command_no ≡ 0) × (r.world.disk ≡ w.disk))
    ⊎ ((user : TokenInfo) × (cmd : Text) × (argument : Text) × (n : ℕ) × (verify_token jwt key now
            trans.token token
          ≡ some (pos 0, user))
        × (parse trans.data_length trans.body ≡ some (cmd, argument))
        × (find_command cmd command ≡ some n)
        × Changes n)

-- A request that is answered leaves tables and files as they are, unless it has no token and asks to register, which
-- leaves the files, or it has a token that is verified and its command is `mkdir`, `puts` or `rm`.
pub serve_request-world :
    (sql : Collation) (page : ℕ) (stat : Text → Option ℕ) (bcrypt : Crypt) (jwt : Jwt) (key : Text)
    (now : ℕ) (rand_str : Text) (w : World) (trans : TransFile) (token : TokenInfo) (input : Input)
    (r : Reply)
    → serve_request sql page stat bcrypt jwt key now rand_str w trans token input ≡ some r
    → Allowed jwt key now w trans token r
unfolding serve_request unknown verified
serve_request-world sql page stat bcrypt jwt key now rand_str w trans token input r e =
    elim (Bool-cases (is_nil trans.token)) [
      | inl no_token ↦
          login
            (check_user_login sql bcrypt (generate_token jwt key now) rand_str w.session trans
              token)
            refl no_token (ground (arith, e, no_token))
      | inr has_token ↦
          checked (verify_token jwt key now trans.token token) refl (ground (arith, e, has_token))
    ]
  where
    login :
        (o : Option (Answer × Session))
        → check_user_login sql bcrypt (generate_token jwt key now) rand_str w.session trans token
          ≡ o
        → is_nil trans.token ≡ true
        → unknown sql page stat bcrypt jwt key now rand_str w trans token ≡ some r
        → Allowed jwt key now w trans token r
    login none f g h = absurd (ground (arith, f, h))
    login (some ((result, sent, token'), s)) f g h =
        elim (check_user_login_keeps sql bcrypt (generate_token jwt key now) rand_str w.session s
          trans token (result, sent, token') f) [
            | inl z ↦ inr (inl (g, z, ground (arith, f, h)))
            | inr same ↦
                let at : r.world ≡ record w { session = s } = ground (arith, f, h) in
                inl (at ∙ ap (λ t. record w { session = t }) same)
          ]

    checked :
        (o : Option (ℤ × TokenInfo))
        → verify_token jwt key now trans.token token ≡ o
        → verified sql page stat bcrypt jwt key now w trans input o ≡ some r
        → Allowed jwt key now w trans token r
    checked none f h = cc
    checked (some (pos zero, user)) f h =
        elim (connect-world sql page stat (generate_token jwt key now) w trans user input r h) [
          | inl same ↦ inl same
          | inr (cmd, argument, n, parsed, found, change) ↦
              inr (inr (user, cmd, argument, n, f, parsed, found, change))
        ]
    checked (some (pos (suc n), user)) f h = inl (ground (arith, h))
    checked (some (negsuc n, user)) f h = inl (ground (arith, h))
