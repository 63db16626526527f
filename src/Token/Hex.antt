-- ===== src/Token/Hex.antt =====
-- `string_to_hex` of server/hash.c.
use netdisk.Prelude.{
  ℕ, ◌+◌, ◌-◌, ◌*◌, ◌/◌, ◌%◌, ◌<◌, ◌≡◌, refl, List, [], ◌∷◌, if◌then◌else◌, ltb, arith, All, length,
}
use netdisk.Wire.{Text}

-- a digit of "%X"
abbrev pub hex_digit : ℕ → ℕ
hex_digit d = if ltb d 10 then b'0' + d else b'A' + (d - 10)

-- `sprintf(output + i * 2, "%02X", input[i])` for each byte
unfoldable pub string_to_hex : List ℕ → Text
string_to_hex [] = []
string_to_hex (b ∷ input) = hex_digit (b / 16) ∷ hex_digit (b % 16) ∷ string_to_hex input

-- reading hexadecimal digits: what a digit stands for, and the bytes of a text
abbrev pub digit_value : ℕ → ℕ
digit_value c = if ltb c b'A' then c - b'0' else c - b'A' + 10

abbrev pub of_hex : Text → List ℕ
of_hex [] = []
of_hex (c ∷ []) = []
of_hex (c ∷ d ∷ s) = (digit_value c * 16 + digit_value d) ∷ of_hex s

digit_value-hex_digit : (d : ℕ) → d < 16 → digit_value (hex_digit d) ≡ d
digit_value-hex_digit d h = ground arith

byte :
    (b : ℕ) → b < 256 → digit_value (hex_digit (b / 16)) * 16 + digit_value (hex_digit (b % 16)) ≡ b
byte b h = omega (
  arith,
  digit_value-hex_digit (b / 16) (omega arith),
  digit_value-hex_digit (b % 16) (omega arith),
)

-- The digest text of bytes has two digits for each of them, and the bytes can be read back from it: two
-- different hash values never get the same digest text.
pub of_hex-string_to_hex :
    (input : List ℕ)
    → All (λ b. b < 256) input
    → (of_hex (string_to_hex input) ≡ input) × (length (string_to_hex input) ≡ 2 * length input)
unfolding string_to_hex
of_hex-string_to_hex [] h = (refl, refl)
of_hex-string_to_hex (b ∷ input) h =
    let (back, size) = of_hex-string_to_hex input h.1 in
    (cc (byte b h.0, back), omega (arith, size))
