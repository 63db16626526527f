-- ===== src/Login.antt =====
-- `check_user_login` (server/login.c) and the passwords of server/hash.c. bcrypt is the record `Crypt`.
pub mod Laws
mod Tests
use netdisk.Prelude.{
  ℕ, zero, suc, ◌+◌, Bool, true, false, List, [], ◌∷◌, Option, none, some, ◌==◌, if◌then◌else◌,
  ◌&&◌, length, ltb, ℤ, pos, negsuc,
}
use netdisk.Wire.{Text, TransFile, text_eq}
use netdisk.Tool.Space.{remove_space}
use netdisk.Tool.Argument.{splite_argument}
use netdisk.Tool.FileName.{slash}
use netdisk.Tool.UserPath.{TokenInfo}
use netdisk.Catalog.Tables.{User, Session}
use netdisk.Catalog.Directory.{Collation}
use netdisk.Catalog.Account.{get_user, user_register}
use netdisk.Command.{send_message}

-- `crypt_gensalt_rn` for the cost and prefix of the source, and `crypt_r`
pub record Crypt : Type 0 where
  pub gensalt : (rand_str : Text) → Text
  pub crypt : (phrase setting : Text) → Text

module _ (bcrypt : Crypt) where
  abbrev pub encrypt_password : (rand_str : Text) → Text → Text
  encrypt_password rand_str password = bcrypt.crypt password (bcrypt.gensalt rand_str)

  abbrev pub match_password : Text → Text → Bool
  match_password password encrypted = text_eq (bcrypt.crypt password encrypted) encrypted

-- the arrays for the name and the password
abbrev pub word_size : ℕ
word_size = 100

-- The two words of the request. With one word the code follows a NULL; a word that does not fit is copied
-- past the end of its array.
unfoldable pub user_log_info : Text → Option (Text × Text)
user_log_info line = elim (remove_space line) [
  | none ↦ none
  | some text ↦ elim (splite_argument text) [
    | none ↦ none
    | some (name, pwd) ↦
        if ltb (length name) word_size && ltb (length pwd) word_size then some (name, pwd) else none
  ]
]

-- "账户已存在。"
abbrev pub account_exists : Text
account_exists =
    232 ∷ 180 ∷ 166 ∷ 230 ∷ 136 ∷ 183 ∷ 229 ∷ 183 ∷ 178 ∷ 229 ∷ 173 ∷ 152 ∷ 229 ∷ 156 ∷ 168 ∷ 227
    ∷ 128 ∷ 130 ∷ []

-- "注册成功！"
abbrev pub registered : Text
registered =
    230 ∷ 179 ∷ 168 ∷ 229 ∷ 134 ∷ 140 ∷ 230 ∷ 136 ∷ 144 ∷ 229 ∷ 138 ∷ 159 ∷ 239 ∷ 188 ∷ 129 ∷ []

-- "服务器繁忙，请稍候重试"
abbrev pub server_busy : Text
server_busy =
    230 ∷ 156 ∷ 141 ∷ 229 ∷ 138 ∷ 161 ∷ 229 ∷ 153 ∷ 168 ∷ 231 ∷ 185 ∷ 129 ∷ 229 ∷ 191 ∷ 153 ∷ 239
    ∷ 188 ∷ 140 ∷ 232 ∷ 175 ∷ 183 ∷ 231 ∷ 168 ∷ 141 ∷ 229 ∷ 128 ∷ 153 ∷ 233 ∷ 135 ∷ 141 ∷ 232 ∷ 175
    ∷ 149 ∷ []

-- "服务器出错，请稍候重试。"
abbrev pub server_error : Text
server_error =
    230 ∷ 156 ∷ 141 ∷ 229 ∷ 138 ∷ 161 ∷ 229 ∷ 153 ∷ 168 ∷ 229 ∷ 135 ∷ 186 ∷ 233 ∷ 148 ∷ 153 ∷ 239
    ∷ 188 ∷ 140 ∷ 232 ∷ 175 ∷ 183 ∷ 231 ∷ 168 ∷ 141 ∷ 229 ∷ 128 ∷ 153 ∷ 233 ∷ 135 ∷ 141 ∷ 232 ∷ 175
    ∷ 149 ∷ 227 ∷ 128 ∷ 130 ∷ []

-- "帐号或密码不正确，请重试"
abbrev pub wrong_password : Text
wrong_password =
    229 ∷ 184 ∷ 144 ∷ 229 ∷ 143 ∷ 183 ∷ 230 ∷ 136 ∷ 150 ∷ 229 ∷ 175 ∷ 134 ∷ 231 ∷ 160 ∷ 129 ∷ 228
    ∷ 184 ∷ 141 ∷ 230 ∷ 173 ∷ 163 ∷ 231 ∷ 161 ∷ 174 ∷ 239 ∷ 188 ∷ 140 ∷ 232 ∷ 175 ∷ 183 ∷ 233 ∷ 135
    ∷ 141 ∷ 232 ∷ 175 ∷ 149 ∷ []

-- "密码正确，欢迎登录"
abbrev pub welcome : Text
welcome =
    229 ∷ 175 ∷ 134 ∷ 231 ∷ 160 ∷ 129 ∷ 230 ∷ 173 ∷ 163 ∷ 231 ∷ 161 ∷ 174 ∷ 239 ∷ 188 ∷ 140 ∷ 230
    ∷ 172 ∷ 162 ∷ 232 ∷ 191 ∷ 142 ∷ 231 ∷ 153 ∷ 187 ∷ 229 ∷ 189 ∷ 149 ∷ []

-- `memset(token, 0, …)`
abbrev pub no_user : TokenInfo
no_user = record { user_id = 0; workpath = [] }

abbrev pub token_of : ℕ → Text → TokenInfo
token_of user_id user_name = record { user_id = user_id; workpath = slash ∷ user_name }

-- the result, the messages and the token info
abbrev pub Answer : Type 0
Answer = ℕ × List TransFile × TokenInfo

module _ (sql : Collation) (bcrypt : Crypt) (generate : TokenInfo → Option Text) where
  -- the answer to what `user_register` returns, which is -1 only where there is no connection
  abbrev pub registration : Text → ℤ → Answer
  registration user_name (negsuc zero) =
      (1, send_message generate server_error false no_user ∷ [], no_user)
  registration user_name (negsuc (suc n)) = (1, [], no_user)
  registration user_name (pos zero) =
      (1, send_message generate account_exists false no_user ∷ [], no_user)
  registration user_name (pos (suc n)) =
      let token = token_of (suc n) user_name in
      (0, send_message generate registered true token ∷ [], token)

  abbrev pub login : (user_name user_pwd : Text) → Option (List User) → Answer
  login user_name user_pwd (some (user ∷ users)) =
      let token = token_of user.id user_name in
      if match_password bcrypt user_pwd user.password
      then (0, send_message generate welcome true token ∷ [], token)
      else (1, send_message generate wrong_password false no_user ∷ [], no_user)
  login user_name user_pwd (some []) =
      (1, send_message generate server_busy false no_user ∷ [], no_user)
  login user_name user_pwd none = (1, send_message generate server_busy false no_user ∷ [], no_user)

  -- `rand_str` is what `generate_random_string` draws for the salt.
  unfoldable pub check_user_login :
      (rand_str : Text) → Session → TransFile → TokenInfo → Option (Answer × Session)
  unfolding user_log_info
  check_user_login rand_str s trans token = elim (user_log_info trans.body) [
    | none ↦ none
    | some (name, pwd) ↦
        let (ret, s') = user_register sql s name (encrypt_password bcrypt rand_str pwd) in
        some (
          if trans.command_no == 0
          then (registration name ret, s')
          else if trans.command_no == 1
          then (login name pwd (get_user sql s.view name), s)
          else ((0, [], token), s))
  ]
