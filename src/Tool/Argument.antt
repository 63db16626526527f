-- ===== src/Tool/Argument.antt =====
-- `splite_argument` of server/tool.c: the two arguments in a text, cut at its first space. And `get_sult`, which
-- cuts a text at its last `$`.
use netdisk.Prelude.{
  ◌≡◌, ◌≢◌, refl, ap, ◌∙◌, List, [], ◌∷◌, ◌++◌, Option, none, some, ◌==◌, if◌then◌else◌, arith, All,
  subst, append-nil,
}
use netdisk.Wire.{Text}
use netdisk.Tool.Space.{space, newline, remove_space}
use netdisk.Tool.Space.Words.{words, unwords, Lacks}
use netdisk.Tool.Space.Laws.{IsWord, remove_space-unwords, words-IsWord}

-- `strchr(argument, ' ')`: the text before the first space, and the text from it on
unfoldable pub at_space : Text → Option (Text × Text)
at_space [] = none
at_space (c ∷ s) =
    if c == space
    then some ([], c ∷ s)
    else elim (at_space s) [ none ↦ none | some (a, b) ↦ some (c ∷ a, b) ]

-- `while (*space_loaction == ' ') space_loaction++`
unfoldable pub skip_spaces : Text → Text
skip_spaces [] = []
skip_spaces (c ∷ s) = if c == space then skip_spaces s else c ∷ s

unfoldable pub splite_argument : Text → Option (Text × Text)
unfolding at_space skip_spaces
splite_argument argument = elim (at_space argument) [
  | none ↦ none
  | some (a, b) ↦ some (a, skip_spaces b)
]

-- `get_sult`: a hashed password up to its last `$`; without one the loop runs out of the text.
unfoldable pub get_sult : Text → Option Text
get_sult [] = none
get_sult (c ∷ shadow_pwd) = elim (get_sult shadow_pwd) [
  | some sult ↦ some (c ∷ sult)
  | none ↦ if c == b'$' then some (c ∷ []) else none
]

at_space-append : (w s : Text) → Lacks space w → at_space (w ++ space ∷ s) ≡ some (w, space ∷ s)
unfolding at_space
at_space-append [] s h = refl
at_space-append (c ∷ w) s h = ground (arith, h.0, at_space-append w s h.1)

at_space-none : (w : Text) → Lacks space w → at_space w ≡ none
unfolding at_space
at_space-none [] h = refl
at_space-none (c ∷ w) h = ground (arith, h.0, at_space-none w h.1)

skip-word : (w s : Text) → IsWord w → skip_spaces (w ++ s) ≡ w ++ s
unfolding skip_spaces
skip-word [] s h = absurd (h.0 refl)
skip-word (c ∷ w) s h = ground (arith, h.1.0)

skip_one : (s : Text) → skip_spaces (space ∷ s) ≡ skip_spaces s
unfolding skip_spaces
skip_one s = refl

skip-unwords :
    (v : Text) (ws : List Text)
    → All IsWord (v ∷ ws)
    → skip_spaces (unwords (v ∷ ws)) ≡ unwords (v ∷ ws)
unfolding unwords
skip-unwords v [] h = subst (λ l. skip_spaces l ≡ l) (append-nil v) (skip-word v [] h.0)
skip-unwords v (u ∷ ws) h = skip-word v _ h.0

-- the first of two or more words, and the others joined again
abbrev pub arguments_of : List Text → Option (Text × Text)
arguments_of [] = none
arguments_of (w ∷ []) = none
arguments_of (w ∷ v ∷ ws) = some (w, unwords (v ∷ ws))

pub splite_argument-unwords :
    (w : Text) (ws : List Text)
    → All IsWord (w ∷ ws)
    → splite_argument (unwords (w ∷ ws)) ≡ arguments_of (w ∷ ws)
unfolding splite_argument unwords
splite_argument-unwords w [] h = ground (arith, at_space-none w h.0.1)
splite_argument-unwords w (v ∷ ws) h =
    rw (at_space-append w (unwords (v ∷ ws)) h.0.1, splite_argument)
      (ap (λ t. some (w, t)) (skip_one (unwords (v ∷ ws)) ∙ skip-unwords v ws h.1))

-- A request line with a word in it and no newline but perhaps at its end, as `connect_with_client` and
-- `check_user_login` read it: the first argument is its first word and the second one is its other words,
-- joined by one space each; with no second word there are no two arguments.
pub splite_argument-remove_space :
    (s : Text)
    → Lacks newline s
    → words s ≢ []
    → (t : Text) × (remove_space s ≡ some t)
      × (remove_space (s ++ newline ∷ []) ≡ some t)
      × (splite_argument t ≡ arguments_of (words s))
splite_argument-remove_space s plain some_word =
    let (l, r) = remove_space-unwords s plain some_word in
    (unwords (words s), l, r, split (words s) (words-IsWord s) some_word)
  where
    split :
        (ws : List Text) → All IsWord ws → ws ≢ [] → splite_argument (unwords ws) ≡ arguments_of ws
    split [] h ne = absurd (ne refl)
    split (w ∷ ws) h ne = splite_argument-unwords w ws h
