-- ===== src/Transfer/Bytes.antt =====
-- Writes into the bytes of a file, and parts of them.
use netdisk.Prelude.{
  ℕ, zero, suc, ◌+◌, ◌-◌, ◌≤◌, ◌≡◌, refl, ap, sym, ◌∙◌, [], ◌∷◌, ◌++◌, append_assoc, length,
  length-append, take, drop, arith,
}
use netdisk.Wire.{Text}
use netdisk.Transfer.{ftruncate, write_at}

pub length-ftruncate : (file : Text) (n : ℕ) → length (ftruncate file n) ≡ n
length-ftruncate [] zero = refl
length-ftruncate [] (suc n) = ap suc (length-ftruncate [] n)
length-ftruncate (b ∷ file) zero = refl
length-ftruncate (b ∷ file) (suc n) = ap suc (length-ftruncate file n)

pub take-left : (a b : Text) → take (length a) (a ++ b) ≡ a
take-left [] b = refl
take-left (x ∷ a) b = ap (◌∷◌ x) (take-left a b)

pub take_all : (a : Text) → take (length a) a ≡ a
take_all [] = refl
take_all (x ∷ a) = ap (◌∷◌ x) (take_all a)

pub drop_all : (a : Text) (n : ℕ) → length a ≤ n → drop n a ≡ []
drop_all [] zero h = refl
drop_all [] (suc n) h = refl
drop_all (x ∷ a) zero h = absurd (omega arith)
drop_all (x ∷ a) (suc n) h = drop_all a n (omega arith)

pub length-take : (a : Text) (n : ℕ) → n ≤ length a → length (take n a) ≡ n
length-take a zero h = refl
length-take [] (suc n) h = absurd (omega arith)
length-take (x ∷ a) (suc n) h = ap suc (length-take a n (omega arith))

pub length-drop : (a : Text) (n : ℕ) → length (drop n a) ≡ length a - n
length-drop a zero = omega arith
length-drop [] (suc n) = omega arith
length-drop (x ∷ a) (suc n) = omega (arith, length-drop a n)

pub length-write_at :
    (file : Text) (offset : ℕ) (bytes : Text)
    → offset + length bytes ≤ length file
    → length (write_at file offset bytes) ≡ length file
length-write_at file offset bytes h = omega (
  arith,
  length-append {0} (take offset file) (bytes ++ drop (offset + length bytes) file),
  length-append {0} bytes (drop (offset + length bytes) file),
  length-take file offset (omega arith),
  length-drop file (offset + length bytes),
)

-- The part of the file up to the end of what is written.
pub take-write_at :
    (file : Text) (offset : ℕ) (bytes : Text)
    → offset + length bytes ≤ length file
    → take (offset + length bytes) (write_at file offset bytes) ≡ take offset file ++ bytes
take-write_at file offset bytes h =
    let len : offset + length bytes ≡ length (take offset file ++ bytes) =
      omega (
        arith,
        length-append {0} (take offset file) bytes,
        length-take file offset (omega arith),
      ) in
    ap (λ n. take n (write_at file offset bytes)) len
    ∙ ap (take (length (take offset file ++ bytes)))
        (sym (append_assoc (take offset file) bytes (drop (offset + length bytes) file)))
    ∙ take-left (take offset file ++ bytes) (drop (offset + length bytes) file)

pub take-drop : (n : ℕ) (a : Text) → take n a ++ drop n a ≡ a
take-drop zero a = refl
take-drop (suc n) [] = refl
take-drop (suc n) (x ∷ a) = ap (◌∷◌ x) (take-drop n a)

pub drop-right : (n : ℕ) (a b : Text) → length a ≤ n → drop n (a ++ b) ≡ drop (n - length a) b
drop-right n [] b h = ap (λ k. drop k b) (omega arith)
drop-right zero (x ∷ a) b h = absurd (omega arith)
drop-right (suc n) (x ∷ a) b h = drop-right n a b (omega arith) ∙ ap (λ k. drop k b) (omega arith)

pub drop-drop : (m k n : ℕ) (a : Text) → m + k ≡ n → drop k (drop m a) ≡ drop n a
drop-drop zero k n a e = ap (λ i. drop i a) (omega (arith, e))
drop-drop (suc m) zero n [] e = sym (drop_all [] n (omega arith))
drop-drop (suc m) (suc k) n [] e = sym (drop_all [] n (omega arith))
drop-drop (suc m) k zero (x ∷ a) e = absurd (omega (arith, e))
drop-drop (suc m) k (suc n) (x ∷ a) e = drop-drop m k n a (omega (arith, e))

-- what lies behind the part that is written
pub drop-write_at :
    (file : Text) (offset : ℕ) (bytes : Text) (n : ℕ)
    → offset + length bytes ≤ length file
    → offset + length bytes ≤ n
    → drop n (write_at file offset bytes) ≡ drop n file
drop-write_at file offset bytes n fits le =
    let front = take offset file ++ bytes in
    let back = drop (offset + length bytes) file in
    let len : length front ≡ offset + length bytes =
      omega (
        arith,
        length-append {0} (take offset file) bytes,
        length-take file offset (omega arith),
      ) in
    ap (drop n) (sym (append_assoc (take offset file) bytes back))
    ∙ drop-right n front back (omega (arith, len))
    ∙ drop-drop (offset + length bytes) (n - length front) n file (omega (arith, len))

-- Two writes, the second one behind the first, are one.
pub write_at_twice :
    (file : Text) (offset : ℕ) (a b : Text)
    → offset + length a + length b ≤ length file
    → write_at (write_at file offset a) (offset + length a) b ≡ write_at file offset (a ++ b)
write_at_twice file offset a b h =
    let whole : offset + length a + length b ≡ offset + length (a ++ b) =
      omega (arith, length-append {0} a b) in
    ap (λ t. t ++ (b ++ drop (offset + length a + length b) (write_at file offset a)))
      (take-write_at file offset a (omega arith))
    ∙ append_assoc (take offset file) a
        (b ++ drop (offset + length a + length b) (write_at file offset a))
    ∙ ap (λ t. take offset file ++ (a ++ (b ++ t)))
        (drop-write_at file offset a (offset + length a + length b) (omega arith) (omega arith)
          ∙ ap (λ n. drop n file) whole)
    ∙ ap (λ t. take offset file ++ t)
        (sym (append_assoc a b (drop (offset + length (a ++ b)) file)))
