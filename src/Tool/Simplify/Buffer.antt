-- ===== src/Tool/Simplify/Buffer.antt =====
-- The two arrays of `simplifyPath` behind each directory passed.
use netdisk.Prelude.{
  ℕ, zero, suc, ◌+◌, ◌-◌, ◌*◌, ◌≤◌, ◌<◌, ◌≡◌, refl, ap, List, [], ◌∷◌, ◌++◌, some, arith,
  append-nil, append_assoc, All, length, length-append, get_or, take,
}
use netdisk.Wire.{Text}
use netdisk.Tool.FileName.{slash}
use netdisk.Tool.Simplify.{Scan, put, mark, record_name, back_to, go_up, close}
use netdisk.Tool.Simplify.Resolve.{leave, enter}

-- the bytes of `name` and the entries of `list` for the directories passed
abbrev pub buf : List Text → Text
buf [] = slash ∷ []
buf (n ∷ dirs) = buf dirs ++ (n ++ slash ∷ [])

abbrev pub pos : List Text → List ℕ
pos [] = 0 ∷ []
pos (n ∷ dirs) = (length (buf (n ∷ dirs)) - 1) ∷ pos dirs

abbrev pub NoEmpty : List Text → Type 0
NoEmpty = All (λ n. 0 < length n)

abbrev pub at_dirs : List Text → Text → ℕ → Scan
at_dirs dirs begun last = record { name = buf dirs ++ begun; list = pos dirs; last_slash = last }

pub get_or-after :
    (pre t : Text) (j k : ℕ) → j ≡ length pre + k → get_or (pre ++ t) j 0 ≡ get_or t k 0
get_or-after [] t j k e = ap (λ i. get_or t i 0) (omega arith)
get_or-after (c ∷ pre) t zero k e = absurd (omega arith)
get_or-after (c ∷ pre) t (suc j) k e = get_or-after pre t j k (omega arith)

pub take-front : (a b : Text) (j : ℕ) → j ≡ length a → take j (a ++ b) ≡ a
take-front [] b zero e = refl
take-front [] b (suc j) e = absurd (omega arith)
take-front (c ∷ a) b zero e = absurd (omega arith)
take-front (c ∷ a) b (suc j) e = ap (◌∷◌ c) (take-front a b j (omega arith))

pub length-buf : (dirs : List Text) → 0 < length (buf dirs)
length-buf [] = omega arith
length-buf (n ∷ dirs) =
    omega (arith, length-append {0} (buf dirs) (n ++ slash ∷ []), length-buf dirs)

length-buf-cons :
    (n : Text) (dirs : List Text) → length (buf (n ∷ dirs)) ≡ length (buf dirs) + length n + 1
length-buf-cons n dirs =
    omega (arith, length-append {0} (buf dirs) (n ++ slash ∷ []), length-append {0} n (slash ∷ []))

-- each directory takes two bytes at least
length-pos : (dirs : List Text) → NoEmpty dirs → 2 * length (pos dirs) ≤ length (buf dirs) + 1
length-pos [] h = omega arith
length-pos (n ∷ dirs) h = omega (arith, length-pos dirs h.1, length-buf-cons n dirs)

pub put-begun :
    (len : ℕ) (dirs : List Text) (begun : Text) (c last : ℕ)
    → length (buf dirs) + length begun ≤ len
    → put len c (at_dirs dirs begun last) ≡ some (at_dirs dirs (begun ++ c ∷ []) last)
unfolding put
put-begun len dirs begun c last fits =
    ground (arith, length-append {0} (buf dirs) begun, append_assoc (buf dirs) begun (c ∷ []))

-- A name is recorded in both arrays.
record_name-cons :
    (len : ℕ) (dirs : List Text) (n : Text) (last : ℕ)
    → NoEmpty dirs
    → 0 < length n
    → length (buf dirs) + length n ≤ len
    → record_name len (at_dirs dirs n last) ≡ some (at_dirs (n ∷ dirs) [] last)
unfolding record_name
record_name-cons len dirs n last full some_byte fits =
    rw (put-begun len dirs n slash last fits, record_name) (marked)
  where
    marked :
        mark len (length (buf (n ∷ dirs)) - 1) (at_dirs dirs (n ++ slash ∷ []) last)
        ≡ some (at_dirs (n ∷ dirs) [] last)
    marked = unfold mark in ground (arith, length-pos dirs full, append-nil (buf (n ∷ dirs)))

back_to-dirs :
    (dirs : List Text) (n : Text) (last : ℕ)
    → back_to (pos dirs) (at_dirs dirs n last) ≡ some (at_dirs dirs [] last)
unfolding back_to
back_to-dirs [] n last = refl
back_to-dirs (d ∷ dirs) n last = ground (
  arith,
  length-buf (d ∷ dirs),
  take-front (buf (d ∷ dirs)) n (length (buf (d ∷ dirs)) - 1 + 1),
  append-nil (buf (d ∷ dirs)),
)

go_up-dirs :
    (dirs : List Text) (n : Text) (last : ℕ)
    → go_up (pos dirs) (at_dirs dirs n last) ≡ some (at_dirs (leave dirs) [] last)
unfolding go_up
go_up-dirs [] n last = refl
go_up-dirs (d ∷ []) n last = refl
go_up-dirs (d ∷ e ∷ dirs) n last = ground (
  arith,
  length-buf (e ∷ dirs),
  take-front (buf (e ∷ dirs)) ((d ++ slash ∷ []) ++ n) (length (buf (e ∷ dirs)) - 1 + 1),
  append_assoc (buf (e ∷ dirs)) (d ++ slash ∷ []) n,
  append-nil (buf (e ∷ dirs)),
)

-- The byte `k` places behind the slash at the end of `pre`.
byte_at :
    (pre t : Text) (j k : ℕ) → j ≡ length pre + suc k → get_or (pre ++ slash ∷ t) j 0 ≡ get_or t k 0
byte_at pre t j k e = get_or-after pre (slash ∷ t) j (suc k) e

-- The branch at the end of the name `n` that stands behind the slash at the end of `pre`: the arrays then
-- show the directories after `n`.
pub close-enter :
    (pre n rest : Text) (dirs : List Text) (i : ℕ)
    → i ≡ length pre + length n + 1
    → NoEmpty dirs
    → length (buf dirs) + length n ≤ length (pre ++ slash ∷ (n ++ rest))
    → close (pre ++ slash ∷ (n ++ rest)) i (at_dirs dirs n (length pre))
      ≡ some (at_dirs (enter dirs n) [] i)
unfolding close enter
close-enter pre [] rest dirs i ei full fits = ground arith
close-enter pre (a ∷ []) rest dirs i ei full fits = ground (
  arith,
  byte_at pre (a ∷ rest) (i - 1) 0 (omega arith),
  back_to-dirs dirs (a ∷ []) i,
  record_name-cons (length (pre ++ slash ∷ a ∷ rest)) dirs (a ∷ []) i full (omega arith) fits,
)
close-enter pre (a ∷ b ∷ []) rest dirs i ei full fits = ground (
  arith,
  byte_at pre (a ∷ b ∷ rest) (i - 1) 1 (omega arith),
  byte_at pre (a ∷ b ∷ rest) (i - 2) 0 (omega arith),
  go_up-dirs dirs (a ∷ b ∷ []) i,
  record_name-cons (length (pre ++ slash ∷ a ∷ b ∷ rest)) dirs (a ∷ b ∷ []) i full (omega arith)
      fits,
)
close-enter pre (a ∷ b ∷ c ∷ n) rest dirs i ei full fits = ground (
  arith,
  record_name-cons (length (pre ++ slash ∷ a ∷ b ∷ c ∷ (n ++ rest))) dirs (a ∷ b ∷ c ∷ n) i full
      (omega arith) fits,
)

pub enter-NoEmpty : (dirs : List Text) (n : Text) → NoEmpty dirs → NoEmpty (enter dirs n)
unfolding enter
enter-NoEmpty dirs [] h = h
enter-NoEmpty dirs (a ∷ []) h = ground arith
enter-NoEmpty [] (a ∷ b ∷ []) h = ground arith
enter-NoEmpty (d ∷ dirs) (a ∷ b ∷ []) h = ground arith
enter-NoEmpty dirs (a ∷ b ∷ c ∷ n) h = (omega arith, h)

pub length-buf-enter :
    (dirs : List Text) (n : Text) → length (buf (enter dirs n)) ≤ length (buf dirs) + length n + 1
unfolding enter
length-buf-enter dirs [] = omega arith
length-buf-enter dirs (a ∷ []) = ground (arith, length-buf-cons (a ∷ []) dirs)
length-buf-enter [] (a ∷ b ∷ []) = ground (arith, length-buf-cons (a ∷ b ∷ []) [])
length-buf-enter (d ∷ dirs) (a ∷ b ∷ []) =
    ground (arith, length-buf-cons (a ∷ b ∷ []) (d ∷ dirs), length-buf-cons d dirs)
length-buf-enter dirs (a ∷ b ∷ c ∷ n) = omega (arith, length-buf-cons (a ∷ b ∷ c ∷ n) dirs)
