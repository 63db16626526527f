-- ===== src/Client/PathLaws.antt =====
-- Which local file a transfer is about.
use mathlib.Core.List.{reverse, reverse-append, reverse-reverse, reverse-cons}
use netdisk.Prelude.{
  ℕ, suc, ◌+◌, ◌<◌, ◌≡◌, ◌≢◌, refl, ap, ◌∙◌, List, [], ◌∷◌, ◌++◌, some, length, append_assoc, arith,
}
use netdisk.Wire.{Text}
use netdisk.Tool.Space.Words.{Lacks}
use netdisk.Tool.FileName.{slash, until_slash}
use netdisk.Tool.FileName.Last.{
  until_slash-append, until_slash_none, reverse-Lacks, length-reverse, reverse_string-reverse,
}
use netdisk.Client.Strtok.{token_from, strtok}
use netdisk.Client.Tools.{reverse_string}
use netdisk.Client.Paths.{temp_size, slashed, get_file_name}

name-run :
    (n t : Text)
    → t ≡ reverse n
    → length n + 1 < temp_size
    → slashed t ≡ some (slash ∷ n, suc (length n))
name-run n t e h =
    let len : length t ≡ length n = ap length e ∙ length-reverse n in
    let name : reverse_string (t ++ slash ∷ []) ≡ slash ∷ n =
      reverse_string-reverse (t ++ slash ∷ [])
      ∙ reverse-append t (slash ∷ [])
      ∙ ap (λ s. slash ∷ s) (ap reverse e ∙ reverse-reverse n) in
    ground (arith, len, name, h)

-- The client's `get_file_name` returns the name behind the last slash of a path, or the whole path if it has none, with
-- a slash in front. The memory it copies this to is one byte short of the text with its closing 0.
pub get_file_name-slash :
    (p n : Text)
    → Lacks slash n
    → length n + 1 < temp_size
    → (get_file_name (p ++ slash ∷ n) ≡ some (slash ∷ n, suc (length n)))
      × (get_file_name n ≡ some (slash ∷ n, suc (length n)))
      × (suc (length n) < length (slash ∷ n) + 1)
unfolding get_file_name
get_file_name-slash p n plain h = (
  name-run n _
      (ap until_slash (
          reverse-append p (slash ∷ n)
          ∙ ap (λ l. l ++ reverse p) (reverse-cons slash n)
          ∙ append_assoc (reverse n) (slash ∷ []) (reverse p))
        ∙ until_slash-append (reverse n) (reverse p) (reverse-Lacks n plain))
      h,
  name-run n _ (until_slash_none (reverse n) (reverse-Lacks n plain)) h,
  omega arith,
)

token_from-word :
    (delim : ℕ) (w s : Text) → Lacks delim w → token_from delim (w ++ delim ∷ s) ≡ (w, s)
token_from-word delim [] s h = ground arith
token_from-word delim (c ∷ w) s h = ground (arith, h.0, token_from-word delim w s h.1)

token_from-end : (delim : ℕ) (w : Text) → Lacks delim w → token_from delim w ≡ (w, [])
token_from-end delim [] h = refl
token_from-end delim (c ∷ w) h = ground (arith, h.0, token_from-end delim w h.1)

pub strtok-word :
    (delim : ℕ) (w s : Text) → w ≢ [] → Lacks delim w → strtok delim (w ++ delim ∷ s) ≡ some (w, s)
strtok-word delim [] s ne h = absurd (ne refl)
strtok-word delim (c ∷ w) s ne h = ground (arith, h.0, token_from-word delim w s h.1)

pub strtok-end : (delim : ℕ) (w : Text) → w ≢ [] → Lacks delim w → strtok delim w ≡ some (w, [])
strtok-end delim [] ne h = absurd (ne refl)
strtok-end delim (c ∷ w) ne h = ground (arith, h.0, token_from-end delim w h.1)
