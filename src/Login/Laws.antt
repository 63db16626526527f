-- ===== src/Login/Laws.antt =====
-- A registration and the login after it.
use netdisk.Prelude.{
  ℕ, zero, suc, ◌⊎◌, inl, inr, ◌==◌, Bool-cases, Option-cases, ◌<◌, ◌≡◌, refl, ap, ◌∙◌, true, [],
  ◌∷◌, Option, some, pos, arith, length, ltb, ◌&&◌,
}
use netdisk.Tool.Space.{remove_space}
use netdisk.Tool.Argument.{splite_argument}
use netdisk.Wire.{Text, TransFile, text_eq, text_eq_self}
use netdisk.Tool.Space.Words.{Lacks}
use netdisk.Tool.FileName.{slash}
use netdisk.Tool.UserPath.{TokenInfo}
use netdisk.Catalog.Tables.{Session}
use netdisk.Catalog.Directory.{Collation, query_cd}
use netdisk.Catalog.Account.{users_named}
use netdisk.Catalog.Register.{NoRows, user_register-get_user}
use netdisk.Command.{send_message}
use netdisk.Login.{
  Answer, Crypt, encrypt_password, match_password, user_log_info, registered, welcome, token_of,
  registration, check_user_login, word_size,
}

-- What bcrypt promises: a password hashed with its own hash as the setting gives that hash again.
abbrev pub Settles : Crypt → Type 0
Settles bcrypt =
    (phrase rand_str : Text)
    → let hash = bcrypt.crypt phrase (bcrypt.gensalt rand_str) in bcrypt.crypt phrase hash ≡ hash

registration-positive :
    (sql : Collation) (bcrypt : Crypt) (generate : TokenInfo → Option Text) (name : Text) (n : ℕ)
    → 0 < n
    → registration sql bcrypt generate name (pos n)
      ≡ (0, send_message generate registered true (token_of n name) ∷ [], token_of n name)
registration-positive sql bcrypt generate name zero lt = absurd (omega arith)
registration-positive sql bcrypt generate name (suc n) lt = refl

-- The two words of a request fit their arrays.
user_log_info-short :
    (line name pwd : Text) → user_log_info line ≡ some (name, pwd) → length name < word_size
unfolding user_log_info
user_log_info-short line name pwd e = elim (Option-cases (remove_space line)) [
  | inl f ↦ absurd (ground (arith, e, f))
  | inr (text, f) ↦ elim (Option-cases (splite_argument text)) [
    | inl g ↦ absurd (ground (arith, e, f, g))
    | inr ((a, b), g) ↦ elim (Bool-cases (ltb (length a) word_size && ltb (length b) word_size)) [
      | inl h ↦ ground (arith, e, f, g, h)
      | inr h ↦ absurd (ground (arith, e, f, g, h))
    ]
  ]
]

-- A request to register a free name without a slash succeeds, commits and sends a token; a request to log in
-- with the same line then succeeds with the same token, changes nothing, and `query_cd` finds the work
-- path of that token. The line has two words that fit, ids are positive, and bcrypt keeps its promise.
pub check_user_login_twice :
    (sql : Collation) (bcrypt : Crypt) (generate : TokenInfo → Option Text)
    (rand_str rand_str' : Text) (s : Session) (trans trans' : TransFile) (name pwd : Text)
    (before before' : TokenInfo)
    → Settles bcrypt
    → user_log_info trans.body ≡ some (name, pwd)
    → trans.command_no ≡ 0
    → trans'.body ≡ trans.body
    → trans'.command_no ≡ 1
    → users_named sql name s.view ≡ []
    → NoRows s.view.next_user s.view.user_files
    → Lacks slash name
    → 0 < s.view.next_user
    → let token = token_of s.view.next_user name in
      (s' : Session) × (check_user_login sql bcrypt generate rand_str s trans before
        ≡ some ((0, send_message generate registered true token ∷ [], token), s'))
      × (check_user_login sql bcrypt generate rand_str' s' trans' before'
          ≡ some ((0, send_message generate welcome true token ∷ [], token), s'))
      × (query_cd s'.view token.workpath token.user_id ≡ some (pos s.view.next_file))
      × (s'.committed ≡ s'.view)
unfolding check_user_login
check_user_login_twice sql bcrypt generate rand_str rand_str' s trans trans' name pwd before before'
      settles line zero_no same one_no free no_rows plain first =
    let hash = encrypt_password bcrypt rand_str pwd in
    let (s', made, got, found, committed) =
      user_register-get_user sql s name hash free no_rows plain
        (omega (arith, user_log_info-short trans.body name pwd line)) in
    let matches : match_password bcrypt pwd hash ≡ true =
      ap (λ h. text_eq h hash) (settles pwd rand_str) ∙ text_eq_self hash in
    (
      s',
      ground (
        arith,
        line,
        zero_no,
        made,
        registration-positive sql bcrypt generate name s.view.next_user first,
      ),
      ground (arith, ap user_log_info same ∙ line, one_no, got, matches),
      found,
      committed,
    )

-- Only a request to register changes the tables.
pub check_user_login_keeps :
    (sql : Collation) (bcrypt : Crypt) (generate : TokenInfo → Option Text) (rand_str : Text)
    (s s' : Session) (trans : TransFile) (before : TokenInfo) (out : Answer)
    → check_user_login sql bcrypt generate rand_str s trans before ≡ some (out, s')
    → (trans.command_no ≡ 0) ⊎ (s' ≡ s)
unfolding check_user_login
check_user_login_keeps sql bcrypt generate rand_str s s' trans before out e =
    elim (Bool-cases (trans.command_no == 0)) [
      | inl z ↦ inl (ground (arith, z))
      | inr nz ↦ elim (Option-cases (user_log_info trans.body)) [
        | inl f ↦ absurd (ground (arith, e, f))
        | inr ((name, pwd), f) ↦ elim (Bool-cases (trans.command_no == 1)) [
          | inl one ↦ inr (ground (arith, e, f, nz, one))
          | inr other ↦ inr (ground (arith, e, f, nz, other))
        ]
      ]
    ]
