-- ===== src/Token/Decimal.antt =====
-- `sprintf` with "%ld" and `atol`, as server/hash.c uses them for a user id: decimal digits.
use netdisk.Prelude.{
  ℕ, zero, suc, ◌+◌, ◌-◌, ◌*◌, ◌/◌, ◌%◌, ◌≤◌, ◌<◌, ◌≡◌, ◌∙◌, [], ◌∷◌, ◌++◌, if◌then◌else◌, ltb, leb,
  ◌&&◌, arith, Bool-cases, inl, inr,
}
use netdisk.Wire.{Text}

abbrev pub digit : ℕ → ℕ
digit d = b'0' + d

-- at most `k` digits before the last one
abbrev digits : ℕ → ℕ → Text
digits zero n = digit n ∷ []
digits (suc k) n =
    let rest = digits k (n / 10) in if ltb n 10 then digit n ∷ [] else rest ++ digit (n % 10) ∷ []

-- `sprintf(s, "%ld", n)`; `n` has fewer than `n` digits before the last one
unfoldable pub to_decimal : ℕ → Text
to_decimal n = digits n n

-- the value of the digits in front of a text, behind those of value `acc`
abbrev pub atol_from : ℕ → Text → ℕ
atol_from acc [] = acc
atol_from acc (c ∷ s) =
    let rest = atol_from (acc * 10 + (c - b'0')) s in if leb b'0' c && leb c b'9' then rest else acc

-- `atol`, on texts without blanks and signs in front
unfoldable pub atol : Text → ℕ
atol s = atol_from 0 s

abbrev AreDigits : Text → Type 0
AreDigits [] = Unit {0}
AreDigits (c ∷ s) = (b'0' ≤ c) × (c ≤ b'9') × AreDigits s

atol_from-last :
    (acc d : ℕ) (s : Text)
    → AreDigits s
    → d < 10
    → atol_from acc (s ++ digit d ∷ []) ≡ atol_from acc s * 10 + d
atol_from-last acc d [] h lt = ground arith
atol_from-last acc d (c ∷ s) h lt =
    ground (arith, h.0, h.1, atol_from-last (acc * 10 + (c - b'0')) d s h.2 lt)

AreDigits-last : (s : Text) (d : ℕ) → AreDigits s → d < 10 → AreDigits (s ++ digit d ∷ [])
AreDigits-last [] d h lt = (omega arith, omega arith, tt)
AreDigits-last (c ∷ s) d h lt = (h.0, h.1, AreDigits-last s d h.2 lt)

digits-AreDigits : (k n : ℕ) → n ≤ k → AreDigits (digits k n)
digits-AreDigits zero n le = (omega arith, omega arith, tt)
digits-AreDigits (suc k) n le = elim (Bool-cases (ltb n 10)) [
  | inl e ↦ rw e (omega arith, ground arith, tt)
  | inr e ↦ rw e (
      AreDigits-last (digits k (n / 10)) (n % 10) (digits-AreDigits k (n / 10) (ground arith))
        (omega arith))
]

atol-digits : (k n : ℕ) → n ≤ k → atol_from 0 (digits k n) ≡ n
atol-digits zero n le = ground arith
atol-digits (suc k) n le = elim (Bool-cases (ltb n 10)) [
  | inl e ↦ ground (arith, e)
  | inr e ↦ rw e (
      atol_from-last 0 (n % 10) (digits k (n / 10)) (digits-AreDigits k (n / 10) (ground arith))
        (omega arith)
      ∙ omega (arith, atol-digits k (n / 10) (ground arith)))
]

pub atol-to_decimal : (n : ℕ) → atol (to_decimal n) ≡ n
unfolding atol to_decimal
atol-to_decimal n = atol-digits n n (omega arith)
