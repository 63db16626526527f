-- ===== src/Tool/Space/Laws.antt =====
-- What `remove_space` makes of a request line, and where it reads outside its array.
use netdisk.Prelude.{
  ℕ, ◌≡◌, ◌≢◌, refl, ap, sym, ◌∙◌, inl, inr, List, [], ◌∷◌, ◌++◌, Option, none, some, ◌==◌, arith,
  append-nil, append_assoc, Bool-cases, All, All-append, subst,
}
use netdisk.Wire.{Text}
use netdisk.Tool.Space.{space, newline, kept, trim_last, remove_space}
use netdisk.Tool.Space.Words.{
  flush, words_from, words, unwords, Lacks, kept-start, trim, trim_last-trim, squeeze-words, gapped,
}

-- a newline at the end is dropped before anything else is decided
kept-newline : (b : Option ℕ) (s : Text) → kept b (s ++ newline ∷ []) ≡ kept b s
unfolding kept
kept-newline none [] = refl
kept-newline (some b) [] = refl
kept-newline none (c ∷ s) = ground (arith, kept-newline (some c) s)
kept-newline (some b) (c ∷ s) = ground (arith, kept-newline (some c) s)

remove_space-newline : (s : Text) → remove_space (s ++ newline ∷ []) ≡ remove_space s
unfolding remove_space
remove_space-newline s = rw (kept-newline none s) refl

-- A line with a word in it, with or without a newline at its end, becomes its words joined by one space
-- each.
pub remove_space-unwords :
    (s : Text)
    → Lacks newline s
    → words s ≢ []
    → (remove_space s ≡ some (unwords (words s)))
      × (remove_space (s ++ newline ∷ []) ≡ some (unwords (words s)))
unfolding remove_space
remove_space-unwords s plain some_word = (plain_case, remove_space-newline s ∙ plain_case)
  where
    plain_case : trim_last (kept none s) ≡ some (unwords (words s))
    plain_case = elim (squeeze-words s) [
      | inl (e, f) ↦ absurd (some_word f)
      | inr (c, t, v, ws, e, f) ↦
          ap trim_last (kept-start s plain ∙ e)
          ∙ trim_last-trim c t
          ∙ ap some (ap trim (sym e) ∙ gapped s)
    ]

-- A line of spaces alone, with or without a newline at its end, makes `remove_space` read the byte before
-- its array.
pub remove_space_blank :
    (s : Text)
    → Lacks newline s
    → words s ≡ []
    → (remove_space s ≡ none) × (remove_space (s ++ newline ∷ []) ≡ none)
unfolding remove_space trim_last
remove_space_blank s plain no_word = (blank, remove_space-newline s ∙ blank)
  where
    blank : trim_last (kept none s) ≡ none
    blank = elim (squeeze-words s) [
      | inl (e, f) ↦ ap trim_last (kept-start s plain ∙ e)
      | inr (c, t, v, ws, e, f) ↦ cc
    ]

-- A word: it is not empty and has no space.
abbrev pub IsWord : Text → Type 0
IsWord w = (w ≢ []) × Lacks space w

words_from-word : (w v s : Text) → Lacks space v → words_from w (v ++ s) ≡ words_from (w ++ v) s
unfolding words_from
words_from-word w [] s h = rw append-nil
words_from-word w (c ∷ v) s h =
    ground (arith, h.0, words_from-word (w ++ c ∷ []) v s h.1, append_assoc w (c ∷ []) v)

words_from-flush : (w : Text) (s : Text) → w ≢ [] → words_from w (space ∷ s) ≡ w ∷ words s
unfolding words_from
words_from-flush [] s h = absurd (h refl)
words_from-flush (c ∷ w) s h = refl

flush-nil : (w : Text) → w ≢ [] → words_from w [] ≡ w ∷ []
unfolding words_from
flush-nil [] h = absurd (h refl)
flush-nil (c ∷ w) h = refl

pub words-unwords : (ws : List Text) → All IsWord ws → words (unwords ws) ≡ ws
unfolding unwords
words-unwords [] h = unfold words_from in refl
words-unwords (w ∷ []) h =
    ap words (sym (append-nil w)) ∙ words_from-word [] w [] h.0.1 ∙ flush-nil w h.0.0
words-unwords (w ∷ v ∷ ws) h =
    words_from-word [] w (space ∷ unwords (v ∷ ws)) h.0.1
    ∙ words_from-flush w _ h.0.0
    ∙ ap (◌∷◌ w) (words-unwords (v ∷ ws) h.1)

flush-IsWord : (w : Text) (ws : List Text) → Lacks space w → All IsWord ws → All IsWord (flush w ws)
flush-IsWord [] ws h k = k
flush-IsWord (c ∷ w) ws h k = (((λ e. cc), h), k)

words_from-IsWord : (w s : Text) → Lacks space w → All IsWord (words_from w s)
unfolding words_from
words_from-IsWord w [] h = flush-IsWord w [] h tt
words_from-IsWord w (c ∷ s) h = elim (Bool-cases (c == space)) [
  | inl e ↦ rw e (flush-IsWord w (words_from [] s) h (words_from-IsWord [] s tt))
  | inr e ↦
      rw e (words_from-IsWord (w ++ c ∷ []) s (All-append _ w (c ∷ []) h ((ground arith), tt)))
]

pub words-IsWord : (s : Text) → All IsWord (words s)
words-IsWord s = words_from-IsWord [] s tt

unwords-Lacks : (b : ℕ) (ws : List Text) → b ≢ space → All (Lacks b) ws → Lacks b (unwords ws)
unfolding unwords
unwords-Lacks b [] ne h = tt
unwords-Lacks b (w ∷ []) ne h = h.0
unwords-Lacks b (w ∷ v ∷ ws) ne h =
    All-append _ w _ h.0 ((λ e. ne (sym e)), unwords-Lacks b (v ∷ ws) ne h.1)

words_from-Lacks : (b : ℕ) (w s : Text) → Lacks b w → Lacks b s → All (Lacks b) (words_from w s)
unfolding words_from
words_from-Lacks b [] [] h k = tt
words_from-Lacks b (a ∷ w) [] h k = (h, tt)
words_from-Lacks b [] (c ∷ s) h k = elim (Bool-cases (c == space)) [
  | inl e ↦ rw e (words_from-Lacks b [] s tt k.1)
  | inr e ↦ rw e (words_from-Lacks b (c ∷ []) s (k.0, tt) k.1)
]
words_from-Lacks b (a ∷ w) (c ∷ s) h k = elim (Bool-cases (c == space)) [
  | inl e ↦ rw e (h, words_from-Lacks b [] s tt k.1)
  | inr e ↦
      rw e
        (words_from-Lacks b ((a ∷ w) ++ c ∷ []) s (All-append _ (a ∷ w) (c ∷ []) h (k.0, tt)) k.1)
]

-- On a line with a word in it and no newline, `remove_space` keeps the words as they are, in order, and a
-- second call changes nothing.
pub remove_space_settles :
    (s : Text)
    → Lacks newline s
    → words s ≢ []
    → (t : Text) × (remove_space s ≡ some t) × (words t ≡ words s) × (remove_space t ≡ some t)
remove_space_settles s plain some_word =
    let ws = words_from-IsWord [] s tt in
    let same = words-unwords (words s) ws in
    let again =
      remove_space-unwords (unwords (words s))
        (unwords-Lacks newline (words s) (omega arith) (words_from-Lacks newline [] s tt plain))
        (subst (λ l. l ≢ []) (sym same) some_word) in
    (
      unwords (words s),
      (remove_space-unwords s plain some_word).0,
      same,
      again.0 ∙ ap (λ l. some (unwords l)) same,
    )
