-- ===== src/Wire.antt =====
-- server/header.h: what client and server send one another. Text is a list of byte values without
-- the closing 0; an `int` is its 32-bit pattern.
use netdisk.Prelude.{ℕ, ◌≡◌, refl, Bool, true, false, List, [], ◌∷◌, ◌==◌, ◌||◌, ◌&&◌, arith}

abbrev pub Text : Type 0
Text = List ℕ

-- `TransFile`; the field `data` of the source is `body` here
pub record TransFile : Type 0 where
  pub body : Text
  pub data_length : ℕ
  pub command_no : ℕ
  pub flag : Bool
  pub token : Text

-- `puts` and `gets`, the commands that keep a worker busy
abbrev pub is_long : ℕ → Bool
is_long command_no = (command_no == 5) || (command_no == 6)

-- `strcmp(s, t) == 0`
abbrev pub text_eq : Text → Text → Bool
text_eq [] [] = true
text_eq [] (d ∷ t) = false
text_eq (c ∷ s) [] = false
text_eq (c ∷ s) (d ∷ t) = (c == d) && text_eq s t

pub text_eq-eq : (s t : Text) → text_eq s t ≡ true → s ≡ t
text_eq-eq [] [] h = refl
text_eq-eq [] (d ∷ t) h = cc
text_eq-eq (c ∷ s) [] h = cc
text_eq-eq (c ∷ s) (d ∷ t) h = ground (arith, text_eq-eq s t)

pub text_eq_self : (s : Text) → text_eq s s ≡ true
text_eq_self [] = refl
text_eq_self (c ∷ s) = ground (arith, text_eq_self s)
