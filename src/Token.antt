-- ===== src/Token.antt =====
-- Tokens (server/hash.c): the key, what `generate_token` signs and what `verify_token` reads back. The JWT
-- library is the record `Jwt`; the clock and `rand` are arguments.
pub mod Decimal
pub mod Hex
pub mod Laws
mod Tests
use netdisk.Prelude.{
  ℕ, zero, suc, ◌+◌, ◌%◌, ◌≡◌, Bool, true, false, List, [], ◌∷◌, map, Option, none, some, ◌==◌,
  if◌then◌else◌, ◌&&◌, length, get_or, codes, ltb, ℤ, pos, minus_one,
}
use netdisk.Wire.{Text, text_eq}
use netdisk.Tool.UserPath.{TokenInfo, path_size}
use netdisk.Token.Decimal.{to_decimal, atol}

-- `DEFAULT_KEY`, also the first value of `token_key`
abbrev pub default_key : Text
default_key = codes "123456"

abbrev pub charset : Text
charset = codes "abcdefghijklmnopqrstuvwxyzABCDEFGHIJKLMNOPQRSTUVWXYZ0123456789_><?@#$^&*()"

-- `generate_random_string`, for the values that `rand` returns
pub generate_random_string : List ℕ → Text
generate_random_string rands = map (λ r. get_or charset (r % length charset) 0) rands

-- `strncmp(s, t, strlen(s)) == 0`
abbrev pub is_prefix : Text → Text → Bool
is_prefix [] t = true
is_prefix (c ∷ s) [] = false
is_prefix (c ∷ s) (d ∷ t) = (c == d) && is_prefix s t

-- `get_token_key`: `config` is the value that `read_config` finds, `rands` what `rand` returns. The result
-- is the new `token_key`, which is the key handed out as well. A configured key fits its array.
pub get_token_key : (config : Option Text) → (rands : List ℕ) → (token_key : Text) → Text
unfolding generate_random_string
get_token_key config rands token_key =
    if is_prefix token_key default_key
    then elim config [ none ↦ generate_random_string rands | some key ↦ key ]
    else token_key

-- a claim: key and value
abbrev pub Claim : Type 0
Claim = Text × Text

-- the fields of `l8w8jwt_encoding_params` that the source sets, less the constant algorithm
pub record Params : Type 0 where
  pub sub : Text
  pub iss : Text
  pub iat : ℕ
  pub exp : ℕ
  pub payload : List Claim

-- `l8w8jwt_encode` and `l8w8jwt_decode`, which return `none` where they do not succeed. Decoding gives the
-- validation result and the claims.
pub record Jwt : Type 0 where
  pub encode : (key : Text) → Params → Option Text
  pub decode : (key : Text) → (now : ℕ) → Text → Option (ℕ × List Claim)

-- `TOKEN_LEN` and `TOKEN_EXP`
abbrev pub token_len : ℕ
token_len = 1024

abbrev pub token_exp : ℕ
token_exp = 600

module _ (jwt : Jwt) where
  -- what `generate_token` hands to the library
  abbrev pub params_of : (now : ℕ) → TokenInfo → Params
  params_of now info = record {
    sub = to_decimal info.user_id;
    iss = codes "NetDisk";
    iat = now;
    exp = now + token_exp;
    payload = (codes "workpath", info.workpath) ∷ [];
  }

  -- The token, or `none` for -1. The source's length `jwt_length` is that of the token.
  unfoldable pub generate_token : (key : Text) → (now : ℕ) → TokenInfo → Option Text
  generate_token key now info = elim (jwt.encode key (params_of now info)) [
    | none ↦ none
    | some token ↦ if ltb token_len (length token) then none else some token
  ]

  -- one round of the loop over the claims; a `strcpy` past the end of `workpath` is `none`
  abbrev pub read_claim : Claim → TokenInfo → Option TokenInfo
  read_claim (key, value) info =
      if text_eq key (codes "workpath")
      then (if ltb (length value) path_size then some (record info { workpath = value }) else none)
      else if text_eq key (codes "sub")
      then some (record info { user_id = atol value })
      else some info

  pub read_claims : List Claim → TokenInfo → Option TokenInfo
  read_claims [] info = some info
  read_claims (c ∷ cs) info = elim (read_claim c info) [
    | none ↦ none
    | some info' ↦ read_claims cs info'
  ]

  -- The result with the token info, which stays as it was where the token is refused.
  unfoldable pub verify_token : (key : Text) → (now : ℕ) → Text → TokenInfo → Option (ℤ × TokenInfo)
  unfolding read_claims
  verify_token key now token info = elim (jwt.decode key now token) [
    | none ↦ some (minus_one, info)
    | some (zero, claims) ↦ elim (read_claims claims info) [
      | none ↦ none
      | some info' ↦ some (pos 0, info')
    ]
    | some (suc n, claims) ↦ some (pos (suc n), info)
  ]
