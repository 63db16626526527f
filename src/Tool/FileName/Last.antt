-- ===== src/Tool/FileName/Last.antt =====
-- `reverseString` reverses in place, and `get_file_name` returns what stands behind the last slash.
use mathlib.Core.List.{reverse, reverse-append, reverse-reverse, reverse-cons}
use netdisk.Prelude.{
  ℕ, zero, suc, ◌+◌, ◌-◌, ◌/◌, ◌≡◌, refl, ap, sym, ◌∙◌, [], ◌∷◌, ◌++◌, none, some, if◌then◌else◌,
  arith, append-nil, append_assoc, All-append, subst, ltb, length, length-append, get_or, set, leb,
}
use netdisk.Wire.{Text}
use netdisk.Tool.Space.Words.{Lacks}
use netdisk.Tool.FileName.{
  slash, swap, swap_loop, reverse_string, until_slash, temp_size, get_file_name,
}

get_or-middle : (a : Text) (x : ℕ) (t : Text) → get_or (a ++ x ∷ t) (length a) 0 ≡ x
get_or-middle [] x t = refl
get_or-middle (c ∷ a) x t = get_or-middle a x t

set-middle : (a : Text) (x v : ℕ) (t : Text) → set (a ++ x ∷ t) (length a) v ≡ a ++ v ∷ t
set-middle [] x v t = refl
set-middle (c ∷ a) x v t = ap (◌∷◌ c) (set-middle a x v t)

-- a swap of the bytes at both ends of the part that is still in order
swap-ends :
    (a m b : Text) (x y i j : ℕ)
    → i ≡ length a
    → j ≡ length a + length m + 1
    → swap (a ++ (x ∷ m ++ y ∷ b)) i j ≡ a ++ (y ∷ m ++ x ∷ b)
swap-ends a m b x y i j ei ej =
    rw
      (
        ei,
        ej',
        get_or-middle a x (m ++ y ∷ b),
        at_j x y,
        set-middle a x y (m ++ y ∷ b),
        j_shift,
        ← append_assoc a (y ∷ m) (y ∷ b),
      )
      (set-middle (a ++ y ∷ m) y x b ∙ append_assoc a (y ∷ m) (x ∷ b))
  where
    ej' : j ≡ length (a ++ x ∷ m)
    ej' = omega (arith, ej, length-append {0} a (x ∷ m))

    j_shift : length (a ++ x ∷ m) ≡ length (a ++ y ∷ m)
    j_shift = omega (arith, length-append {0} a (x ∷ m), length-append {0} a (y ∷ m))

    at_j : (u v : ℕ) → get_or (a ++ (u ∷ m ++ v ∷ b)) (length (a ++ u ∷ m)) 0 ≡ v
    at_j u v =
        subst (λ l. get_or l (length (a ++ u ∷ m)) 0 ≡ v) (append_assoc a (u ∷ m) (v ∷ b))
          (get_or-middle (a ++ u ∷ m) v b)

-- a text that is not empty has a last byte
snoc_view :
    (c : ℕ) (s : Text) → (t : Text) × (d : ℕ) × (c ∷ s ≡ t ++ d ∷ []) × (length t ≡ length s)
snoc_view c [] = ([], c, refl, refl)
snoc_view c (e ∷ s) = let (t, d, f, g) = snoc_view e s in (c ∷ t, d, ap (◌∷◌ c) f, ap suc g)

reverse-ends : (m b : Text) (x y : ℕ) → reverse (x ∷ (m ++ y ∷ [])) ++ b ≡ y ∷ (reverse m ++ x ∷ b)
reverse-ends m b x y =
    ap (λ l. l ++ b)
      (reverse-cons x (m ++ y ∷ []) ∙ ap (λ l. l ++ x ∷ []) (reverse-append m (y ∷ [])))
    ∙ ap (◌∷◌ y) (append_assoc (reverse m) (x ∷ []) b)

-- one round on a middle part with two ends
swap_round :
    (a m b : Text) (x y i len : ℕ)
    → i ≡ length a
    → len - i - 1 ≡ length a + length m + 1
    → swap (a ++ ((x ∷ (m ++ y ∷ [])) ++ b)) i (len - i - 1) ≡ (a ++ y ∷ []) ++ (m ++ x ∷ b)
swap_round a m b x y i len ea el =
    ap (λ l. swap (a ++ x ∷ l) i (len - i - 1)) (append_assoc m (y ∷ []) b)
    ∙ swap-ends a m b x y i (len - i - 1) ea el
    ∙ sym (append_assoc a (y ∷ []) (m ++ x ∷ b))

-- Behind `i` rounds the first and the last `i` bytes have changed places, and the middle is in order.
swap_loop-reverse :
    (n i len : ℕ) (a m b : Text)
    → i ≡ length a
    → i ≡ length b
    → n ≡ length m / 2
    → len ≡ length a + length m + length b
    → swap_loop n i len (a ++ (m ++ b)) ≡ a ++ (reverse m ++ b)
unfolding swap_loop
swap_loop-reverse zero i len a [] b ea eb en el = refl
swap_loop-reverse zero i len a (x ∷ []) b ea eb en el = refl
swap_loop-reverse zero i len a (x ∷ y ∷ m) b ea eb en el = absurd (omega arith)
swap_loop-reverse (suc n) i len a [] b ea eb en el = absurd (omega arith)
swap_loop-reverse (suc n) i len a (x ∷ []) b ea eb en el = absurd (omega arith)
swap_loop-reverse (suc n) i len a (x ∷ c ∷ s) b ea eb en el =
    let (m, y, e, k) = snoc_view c s in
    subst
      (λ l.
        swap_loop n (suc i) len (swap (a ++ ((x ∷ l) ++ b)) i (len - i - 1))
        ≡ a ++ (reverse (x ∷ l) ++ b))
      (sym e)
      (ap (swap_loop n (suc i) len) (swap_round a m b x y i len ea (omega (arith, ea, eb, el, k)))
        ∙ swap_loop-reverse n (suc i) len (a ++ y ∷ []) m (x ∷ b)
            (omega (arith, ea, length-append {0} a (y ∷ []))) (omega (arith, eb))
            (omega (arith, en, k)) (omega (arith, ea, eb, el, k, length-append {0} a (y ∷ [])))
        ∙ append_assoc a (y ∷ []) (reverse m ++ x ∷ b)
        ∙ ap (λ l. a ++ l) (sym (reverse-ends m b x y)))

-- The loop of swaps is a reversal.
pub reverse_string-reverse : (s : Text) → reverse_string s ≡ reverse s
unfolding reverse_string
reverse_string-reverse s =
    ap (swap_loop (length s / 2) 0 (length s)) (sym (append-nil s))
    ∙ swap_loop-reverse (length s / 2) 0 (length s) [] s [] refl refl refl (omega arith)
    ∙ append-nil (reverse s)

pub until_slash-append : (n s : Text) → Lacks slash n → until_slash (n ++ slash ∷ s) ≡ n
unfolding until_slash
until_slash-append [] s h = refl
until_slash-append (c ∷ n) s h = ground (arith, h.0, until_slash-append n s h.1)

pub until_slash_none : (n : Text) → Lacks slash n → until_slash n ≡ n
unfolding until_slash
until_slash_none [] h = refl
until_slash_none (c ∷ n) h = ground (arith, h.0, until_slash_none n h.1)

pub reverse-Lacks : (n : Text) → Lacks slash n → Lacks slash (reverse n)
reverse-Lacks [] h = tt
reverse-Lacks (c ∷ n) h =
    subst (Lacks slash) (sym (reverse-cons c n))
      (All-append _ (reverse n) (c ∷ []) (reverse-Lacks n h.1) (h.0, tt))

pub length-reverse : (s : Text) → length (reverse s) ≡ length s
length-reverse [] = refl
length-reverse (c ∷ s) =
    ap length (reverse-cons c s)
    ∙ length-append (reverse s) (c ∷ [])
    ∙ omega (arith, length-reverse s)

-- The name behind the last slash of a path, or the whole path if it has none, is returned if it is shorter
-- than the array that it passes through. A longer one is written past the end of that array.
pub get_file_name-last :
    (p n : Text)
    → Lacks slash n
    → let result = if ltb (length n) temp_size then some n else none in
      (get_file_name (p ++ slash ∷ n) ≡ result) × (get_file_name n ≡ result)
unfolding get_file_name
get_file_name-last p n h = (at_slash, whole)
  where
    finish :
        (t : Text)
        → t ≡ reverse n
        → (if leb temp_size (length t) then none else some (reverse_string t))
          ≡ (if ltb (length n) temp_size then some n else none)
    finish t e = ground (
      arith,
      ap length e,
      length-reverse n,
      reverse_string-reverse t,
      ap reverse e,
      reverse-reverse n,
    )

    rev : reverse (p ++ slash ∷ n) ≡ reverse n ++ slash ∷ reverse p
    rev =
        reverse-append p (slash ∷ n)
        ∙ ap (λ l. l ++ reverse p) (reverse-cons slash n)
        ∙ append_assoc (reverse n) (slash ∷ []) (reverse p)

    at_slash : get_file_name (p ++ slash ∷ n) ≡ (if ltb (length n) temp_size then some n else none)
    at_slash =
        finish _
          (ap until_slash rev ∙ until_slash-append (reverse n) (reverse p) (reverse-Lacks n h))

    whole : get_file_name n ≡ (if ltb (length n) temp_size then some n else none)
    whole = finish _ (until_slash_none (reverse n) (reverse-Lacks n h))
