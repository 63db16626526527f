-- ===== src/Token/Tests.antt =====
-- Tokens on small inputs, and their theorems there.
use netdisk.Prelude.{ℕ, ◌≡◌, refl, true, List, [], ◌∷◌, none, some, codes, pos, arith, All}
use netdisk.Wire.{text_eq}
use netdisk.Tool.UserPath.{TokenInfo}
use netdisk.Token.Decimal.{to_decimal}
use netdisk.Token.Hex.{string_to_hex}
use netdisk.Token.{
  Jwt, Claim, params_of, generate_token, verify_token, get_token_key, generate_random_string,
}
use netdisk.Token.Laws.{Faithful, verify_token-generate_token}

number : to_decimal 1024 ≡ codes "1024"
unfolding to_decimal
number = refl

hex : string_to_hex (0 ∷ 171 ∷ 9 ∷ []) ≡ codes "00AB09"
unfolding string_to_hex
hex = refl

first_key : get_token_key none (0 ∷ 27 ∷ 74 ∷ []) (codes "123456") ≡ codes "aBa"
unfolding get_token_key generate_random_string
first_key = refl

abbrev ann : TokenInfo
ann = record { user_id = 12; workpath = codes "/ann" }

abbrev claims : List Claim
claims =
    (codes "sub", codes "12")
    ∷ (codes "iss", codes "NetDisk")
    ∷ (codes "workpath", codes "/ann")
    ∷ []

-- a library whose tokens are all alike
abbrev fixed : Jwt
fixed = record { encode = λ key p. some (codes "t"); decode = λ key now t. some (0, claims) }

sub_only : All (λ (c : Claim). text_eq c.0 (codes "sub") ≡ true → c.1 ≡ codes "12") claims
sub_only = ((λ e. refl), ((λ e. absurd (cc)), ((λ e. absurd (cc)), tt)))

path_only : All (λ (c : Claim). text_eq c.0 (codes "workpath") ≡ true → c.1 ≡ codes "/ann") claims
path_only = ((λ e. absurd (cc)), ((λ e. absurd (cc)), ((λ e. refl), tt)))

fixed-Faithful : Faithful fixed (codes "k") (params_of fixed 5 ann)
unfolding to_decimal
fixed-Faithful token now e le lt = (claims, refl, (refl, sub_only), ((refl, path_only), tt))

made : generate_token fixed (codes "k") 5 ann ≡ some (codes "t")
unfolding generate_token
made = refl

abbrev twenty : List ℕ
twenty =
    1 ∷ 2 ∷ 3 ∷ 4 ∷ 5 ∷ 6 ∷ 7 ∷ 8 ∷ 9 ∷ 10 ∷ 11 ∷ 12 ∷ 13 ∷ 14 ∷ 15 ∷ 16 ∷ 17 ∷ 18 ∷ 19 ∷ 20 ∷ []

verify_token-generate_token_example :
    verify_token fixed (codes "k") 600 (codes "t") (record { user_id = 0; workpath = [] })
    ≡ some (pos 0, ann)
verify_token-generate_token_example =
    verify_token-generate_token fixed (codes "k") (codes "t") 5 600 ann
      (record { user_id = 0; workpath = [] }) fixed-Faithful made (omega arith) (omega arith)
      (omega arith)
