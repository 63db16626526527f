-- ===== src/Client/FormLaws.antt =====
-- What a user types, and what the server reads of it.
use netdisk.Prelude.{
  suc, ◌<◌, ◌≡◌, ◌≢◌, refl, ap, sym, ◌∙◌, true, [], ◌∷◌, ◌++◌, Option, none, some, if◌then◌else◌,
  length, length-append, ltb, arith, All-append,
}
use netdisk.Wire.{Text, TransFile}
use netdisk.Tool.Space.{space, newline}
use netdisk.Tool.Space.Words.{words, unwords, Lacks}
use netdisk.Tool.Space.Laws.{IsWord, words-unwords}
use netdisk.Tool.Argument.{splite_argument, arguments_of, splite_argument-remove_space}
use netdisk.Tool.FileName.{slash}
use netdisk.Tool.UserPath.{TokenInfo}
use netdisk.Catalog.Tables.{Session}
use netdisk.Catalog.Directory.{Collation}
use netdisk.Catalog.Account.{users_named}
use netdisk.Catalog.Register.{NoRows}
use netdisk.Command.{send_message}
use netdisk.Login.{Crypt, user_log_info, token_of, registered, welcome, check_user_login}
use netdisk.Login.Laws.{Settles, check_user_login_twice}
use netdisk.Client.Strtok.{token_from, strtok}
use netdisk.Client.Forms.{
  form_size, cut_newline, login_train, login_request, register_train, register_request,
}

-- a name or a password as it should be typed: one word that fits with its newline
abbrev pub Typed : Text → Type 0
Typed w = IsWord w × Lacks newline w × (length w < 19)

cut_newline-line : (w : Text) → cut_newline (w ++ newline ∷ []) ≡ some w
cut_newline-line [] = refl
cut_newline-line (c ∷ []) = refl
cut_newline-line (c ∷ d ∷ w) = ground (arith, cut_newline-line (d ∷ w))

token_from-line : (w : Text) → Lacks newline w → token_from newline (w ++ newline ∷ []) ≡ (w, [])
token_from-line [] h = refl
token_from-line (c ∷ w) h = ground (arith, h.0, token_from-line w h.1)

strtok-line :
    (w : Text) → w ≢ [] → Lacks newline w → strtok newline (w ++ newline ∷ []) ≡ some (w, [])
strtok-line [] ne h = absurd (ne refl)
strtok-line (c ∷ w) ne h = ground (arith, h.0, token_from-line w h.1)

length-line : (w : Text) → length (w ++ newline ∷ []) ≡ suc (length w)
length-line w = omega (arith, length-append {0} w (newline ∷ []))

-- the server's reading of a name and a password
joined-read :
    (account password : Text)
    → Typed account
    → Typed password
    → user_log_info (account ++ space ∷ password) ≡ some (account, password)
unfolding user_log_info
joined-read account password a p =
    let two : words (account ++ space ∷ password) ≡ account ∷ password ∷ [] =
      unfold unwords in words-unwords (account ∷ password ∷ []) (a.0, (p.0, tt)) in
    let plain : Lacks newline (account ++ space ∷ password) =
      All-append _ account (space ∷ password) a.1 ((λ e. absurd (omega (arith, e))), p.1) in
    let some_word : words (account ++ space ∷ password) ≢ [] = λ e. let f = sym two ∙ e in cc in
    let (t, removed, _, split) =
      splite_argument-remove_space (account ++ space ∷ password) plain some_word in
    let both : splite_argument t ≡ some (account, password) =
      unfold unwords in (split ∙ ap arguments_of two) in
    ground (arith, removed, both, a.2, p.2)

-- A name and a password typed as one word each, with at most 18 bytes: the login form sends them, and the registration form
-- sends the same line exactly when name, space and password together fit the array of the name; with more
-- it writes past the array. The server reads the name and the password from that line.
pub register_request-login_request :
    (account password : Text)
    → Typed account
    → Typed password
    → let line = account ++ space ∷ password in
      (login_request (account ++ newline ∷ []) (password ++ newline ∷ [])
        ≡ some (login_train account password))
      × (register_request (account ++ newline ∷ []) (password ++ newline ∷ [])
          ≡ (if ltb (length line) form_size then some (register_train line) else none))
      × (user_log_info line ≡ some (account, password))
unfolding login_request register_request
register_request-login_request account password a p = (
  ground (
    arith,
    length-line account,
    length-line password,
    a.2,
    p.2,
    cut_newline-line account,
    cut_newline-line password,
  ),
  ground (arith, strtok-line account a.0.0 a.1, strtok-line password p.0.0 p.1),
  joined-read account password a p,
)

-- A user who registers a free name without a slash and then logs in, typing the same name and password in both forms,
-- which are one word each and fit the form together, is registered and then welcomed, with tokens for the
-- same user; the account is committed before the login. Ids are positive, no row
-- belongs to the id that comes next, and bcrypt keeps its promise.
pub register-login :
    (sql : Collation) (bcrypt : Crypt) (generate : TokenInfo → Option Text)
    (rand_str rand_str' : Text) (s : Session) (account password : Text) (before before' : TokenInfo)
    → Typed account
    → Typed password
    → length (account ++ space ∷ password) < form_size
    → Settles bcrypt
    → users_named sql account s.view ≡ []
    → NoRows s.view.next_user s.view.user_files
    → Lacks slash account
    → 0 < s.view.next_user
    → let token = token_of s.view.next_user account in
      (t : TransFile) × (t' : TransFile) × (s' : Session) × (register_request
          (account ++ newline ∷ [])
          (password ++ newline ∷ [])
        ≡ some t)
      × (check_user_login sql bcrypt generate rand_str s t before
          ≡ some ((0, send_message generate registered true token ∷ [], token), s'))
      × (s'.committed ≡ s'.view)
      × (login_request (account ++ newline ∷ []) (password ++ newline ∷ []) ≡ some t')
      × (check_user_login sql bcrypt generate rand_str' s' t' before'
          ≡ some ((0, send_message generate welcome true token ∷ [], token), s'))
register-login sql bcrypt generate rand_str rand_str' s account password before before' a p fits
      settles free no_rows plain first =
    let (logs, registers, read) = register_request-login_request account password a p in
    let t = register_train (account ++ space ∷ password) in
    let t' = login_train account password in
    let (s', made, welcomed, _, committed) =
      check_user_login_twice sql bcrypt generate rand_str rand_str' s t t' account password before
        before' settles read refl refl refl free no_rows plain first in
    (t, t', s', registers ∙ ground (arith, fits), made, committed, logs, welcomed)
