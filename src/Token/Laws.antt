-- ===== src/Token/Laws.antt =====
-- What a token carries from `generate_token` to `verify_token`, and which key is used.
use netdisk.Prelude.{
  ℕ, suc, ◌+◌, ◌≤◌, ◌<◌, ◌≡◌, inl, inr, refl, ap, ◌∙◌, Bool, true, false, List, [], ◌∷◌, Option,
  none, some, if◌then◌else◌, ◌||◌, length, codes, pos, arith, All, Bool-cases,
}
use netdisk.Wire.{Text, text_eq, text_eq-eq}
use netdisk.Tool.UserPath.{TokenInfo, path_size}
use netdisk.Token.Decimal.{to_decimal, atol, atol-to_decimal}
use netdisk.Token.{
  default_key, generate_random_string, is_prefix, get_token_key, Claim, Params, Jwt, params_of,
  generate_token, read_claims, verify_token,
}

-- whether a claim has this key
abbrev pub has : Text → List Claim → Bool
has key [] = false
has key ((k, v) ∷ cs) = text_eq k key || has key cs

-- The claim is there, and no claim of that key says something else.
abbrev pub Says : Text → Text → List Claim → Type 0
Says key value cs = (has key cs ≡ true) × All (λ c. text_eq c.0 key ≡ true → c.1 ≡ value) cs

-- What the library promises of a token that it made for these parameters: until it expires it is valid
-- under the same key, and its claims are the subject and the payload, with others of other keys.
abbrev pub Faithful : Jwt → Text → Params → Type 0
Faithful jwt key p =
    (token : Text) (now : ℕ)
    → jwt.encode key p ≡ some token
    → p.iat ≤ now
    → now < p.exp
    → (claims : List Claim) × (jwt.decode key now token ≡ some (0, claims))
      × Says (codes "sub") p.sub claims
      × All (λ c. Says c.0 c.1 claims) p.payload

module _ (jwt : Jwt) where
  read_claims-Says :
      (cs : List Claim) (sub workpath : Text) (info : TokenInfo)
      → All (λ c. text_eq c.0 (codes "sub") ≡ true → c.1 ≡ sub) cs
      → All (λ c. text_eq c.0 (codes "workpath") ≡ true → c.1 ≡ workpath) cs
      → length workpath < path_size
      → read_claims jwt cs info
        ≡ some (record {
          user_id = if has (codes "sub") cs then atol sub else info.user_id;
          workpath = if has (codes "workpath") cs then workpath else info.workpath;
        })
  unfolding read_claims
  read_claims-Says [] sub workpath info hs hw short = refl
  read_claims-Says ((k, v) ∷ cs) sub workpath info hs hw short =
      elim (Bool-cases (text_eq k (codes "workpath"))) [
        | inl e ↦
            let is = hw.0 e in
            let apart : text_eq k (codes "sub") ≡ false =
              ap (λ t. text_eq t (codes "sub")) (text_eq-eq k (codes "workpath") e) in
            ground (
              arith,
              e,
              is,
              apart,
              read_claims-Says cs sub workpath (record info { workpath = workpath }) hs.1 hw.1
                  short,
            )
        | inr e ↦ elim (Bool-cases (text_eq k (codes "sub"))) [
          | inl f ↦
              let is = hs.0 f in
              ground (
                arith,
                e,
                f,
                is,
                read_claims-Says cs sub workpath (record info { user_id = atol sub }) hs.1 hw.1
                    short,
              )
          | inr f ↦ ground (arith, e, f, read_claims-Says cs sub workpath info hs.1 hw.1 short)
        ]
      ]

  -- A token that `generate_token` makes is accepted by `verify_token` under the same key for 600 seconds,
  -- and gives back the user id and the work path it was made for, whatever was there before. The JWT
  -- library keeps its promise for these parameters, and the work path fits its array.
  pub verify_token-generate_token :
      (key token : Text) (now later : ℕ) (info before : TokenInfo)
      → Faithful jwt key (params_of jwt now info)
      → generate_token jwt key now info ≡ some token
      → length info.workpath < path_size
      → now ≤ later
      → later < now + 600
      → verify_token jwt key later token before ≡ some (pos 0, info)
  unfolding generate_token verify_token
  verify_token-generate_token key token now later info before faithful made short le lt =
      go (jwt.encode key (params_of jwt now info)) refl
    where
      go :
          (o : Option Text)
          → jwt.encode key (params_of jwt now info) ≡ o
          → verify_token jwt key later token before ≡ some (pos 0, info)
      go none e = absurd (ground (arith, e))
      go (some t) e =
          let same : t ≡ token = ground (arith, e) in
          let (claims, d, s, w) = faithful token later (e ∙ ap some same) le lt in
          let read =
            read_claims-Says claims (to_decimal info.user_id) info.workpath before s.1 w.0.1
              short in
          ground (arith, d, s.0, w.0.0, read, atol-to_decimal info.user_id)

is_prefix-length : (s t : Text) → is_prefix s t ≡ true → length s ≤ length t
is_prefix-length [] t e = omega arith
is_prefix-length (c ∷ s) [] e = absurd (ground arith)
is_prefix-length (c ∷ s) (d ∷ t) e = ground (arith, is_prefix-length s t)

generate_random_string-length :
    (rands : List ℕ) → length (generate_random_string rands) ≡ length rands
unfolding generate_random_string
generate_random_string-length [] = refl
generate_random_string-length (r ∷ rands) = ap suc (generate_random_string-length rands)

-- Once a key has been handed out, every later call hands out the same one: a configured key is read again
-- or kept, and a random one, of 20 characters, is never taken for the default key.
pub get_token_key_settles :
    (config : Option Text) (rands rands' : List ℕ) (token_key : Text)
    → length rands ≡ 20
    → get_token_key config rands' (get_token_key config rands token_key)
      ≡ get_token_key config rands token_key
unfolding get_token_key
get_token_key_settles config rands rands' token_key long =
    elim (Bool-cases (is_prefix token_key default_key)) [
      | inr e ↦ ground (arith, e)
      | inl e ↦ go e config
    ]
  where
    go :
        is_prefix token_key default_key ≡ true
        → (c : Option Text)
        → get_token_key c rands' (get_token_key c rands token_key) ≡ get_token_key c rands token_key
    go e (some key) = elim (Bool-cases (is_prefix key default_key)) [
      | inl f ↦ ground (arith, e, f)
      | inr f ↦ ground (arith, e, f)
    ]
    go e none = elim (Bool-cases (is_prefix (generate_random_string rands) default_key)) [
      | inl f ↦ absurd (
          omega (
            arith,
            is_prefix-length (generate_random_string rands) default_key f,
            generate_random_string-length rands,
            long,
          ))
      | inr f ↦ ground (arith, e, f)
    ]
