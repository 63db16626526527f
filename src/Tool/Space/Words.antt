-- ===== src/Tool/Space/Words.antt =====
-- `remove_space` against words: it joins the words of its argument by one space each.
use netdisk.Prelude.{
  ℕ, ◌≡◌, ◌≢◌, refl, ap, ◌⊎◌, inl, inr, Bool, true, false, List, [], ◌∷◌, ◌++◌, none, some, ◌==◌,
  if◌then◌else◌, arith, append-nil, append_assoc, Bool-cases, All,
}
use netdisk.Wire.{Text}
use netdisk.Tool.Space.{space, newline, kept, trim_last}

-- the current word, if any, in front of the others
abbrev pub flush : Text → List Text → List Text
flush [] ws = ws
flush (c ∷ w) ws = (c ∷ w) ∷ ws

-- the maximal runs of other characters than the space; `w` is the word that has begun
unfoldable pub words_from : Text → Text → List Text
words_from w [] = flush w []
words_from w (c ∷ s) = if c == space then flush w (words_from [] s) else words_from (w ++ c ∷ []) s

abbrev pub words : Text → List Text
words = words_from []

unfoldable pub unwords : List Text → Text
unwords [] = []
unwords (w ∷ []) = w
unwords (w ∷ v ∷ ws) = w ++ space ∷ unwords (v ∷ ws)

abbrev pub Lacks : ℕ → Text → Type 0
Lacks b = All (λ c. c ≢ b)

-- the loop on a text with no newline; the flag says that the byte before is a space or that there is none
pub squeeze : Bool → Text → Text
squeeze gap [] = []
squeeze gap (c ∷ s) =
    if c == space then (if gap then squeeze true s else c ∷ squeeze true s) else c ∷ squeeze false s

kept-squeeze : (b : ℕ) (s : Text) → Lacks newline s → kept (some b) s ≡ squeeze (b == space) s
unfolding kept squeeze
kept-squeeze b [] h = refl
kept-squeeze b (c ∷ s) h = ground (arith, h.0, kept-squeeze c s h.1)

pub kept-start : (s : Text) → Lacks newline s → kept none s ≡ squeeze true s
unfolding kept squeeze
kept-start [] h = refl
kept-start (c ∷ s) h = ground (arith, h.0, kept-squeeze c s h.1)

-- removes one space at the end
pub trim : Text → Text
trim [] = []
trim (c ∷ []) = if c == space then [] else c ∷ []
trim (c ∷ d ∷ s) = c ∷ trim (d ∷ s)

pub trim_last-trim : (c : ℕ) (s : Text) → trim_last (c ∷ s) ≡ some (trim (c ∷ s))
unfolding trim_last trim
trim_last-trim c [] = refl
trim_last-trim c (d ∷ s) = rw (trim_last-trim d s)

trim-append : (w : Text) (c : ℕ) (s : Text) → trim (w ++ c ∷ s) ≡ w ++ trim (c ∷ s)
unfolding trim
trim-append [] c s = refl
trim-append (a ∷ []) c s = refl
trim-append (a ∷ b ∷ w) c s = ap (◌∷◌ a) (trim-append (b ∷ w) c s)

-- a word has begun
words_from-cons :
    (c : ℕ) (w s : Text) → (v : Text) × (ws : List Text) × (words_from (c ∷ w) s ≡ v ∷ ws)
unfolding words_from
words_from-cons c w [] = (c ∷ w, [], refl)
words_from-cons c w (d ∷ s) = elim (Bool-cases (d == space)) [
  | inl e ↦ (c ∷ w, words_from [] s, rw e)
  | inr e ↦ rw e (words_from-cons c (w ++ d ∷ []) s)
]

-- behind a space the output starts with a word, or there is no word left
pub squeeze-words :
    (s : Text)
    → ((squeeze true s ≡ []) × (words s ≡ []))
      ⊎ ((c : ℕ) × (t : Text) × (v : Text) × (ws : List Text) × (squeeze true s ≡ c ∷ t)
          × (words s ≡ v ∷ ws))
unfolding squeeze words_from
squeeze-words [] = inl (refl, refl)
squeeze-words (c ∷ s) = elim (Bool-cases (c == space)) [
  | inl e ↦ rw e (squeeze-words s)
  | inr e ↦
      let (v, ws, f) = words_from-cons c [] s in rw e (inr (c, squeeze false s, v, ws, refl, f))
]

-- a text whose last byte is not a space
abbrev pub EndsSolid : Text → Type 0
EndsSolid [] = Unit {0}
EndsSolid (c ∷ []) = c ≢ space
EndsSolid (c ∷ d ∷ s) = EndsSolid (d ∷ s)

trim_solid : (w : Text) → EndsSolid w → trim w ≡ w
unfolding trim
trim_solid [] h = refl
trim_solid (c ∷ []) h = ground arith
trim_solid (c ∷ d ∷ w) h = ap (◌∷◌ c) (trim_solid (d ∷ w) h)

EndsSolid-snoc : (w : Text) (c : ℕ) → c ≢ space → EndsSolid (w ++ c ∷ [])
EndsSolid-snoc [] c h = h
EndsSolid-snoc (a ∷ []) c h = h
EndsSolid-snoc (a ∷ b ∷ w) c h = EndsSolid-snoc (b ∷ w) c h

mutual
  unfolding squeeze words_from unwords trim

  pub gapped : (s : Text) → trim (squeeze true s) ≡ unwords (words s)
  gapped [] = refl
  gapped (c ∷ s) = elim (Bool-cases (c == space)) [
    | inl e ↦ rw e (gapped s)
    | inr e ↦ rw e (worded c [] s (ground arith))
  ]

  worded :
      (a : ℕ) (w s : Text)
      → EndsSolid (a ∷ w)
      → trim ((a ∷ w) ++ squeeze false s) ≡ unwords (words_from (a ∷ w) s)
  worded a w [] h = rw append-nil (trim_solid (a ∷ w) h)
  worded a w (c ∷ s) h = elim (Bool-cases (c == space)) [
    | inl e ↦ elim (squeeze-words s) [
      | inl (f, g) ↦ ground (arith, e, f, g, trim-append (a ∷ w) c [], append-nil (a ∷ w))
      | inr (d, t, v, ws, f, g) ↦ ground (arith, e, f, g, trim-append (a ∷ w) c (d ∷ t), gapped s)
    ]
    | inr e ↦
        let step = append_assoc (a ∷ w) (c ∷ []) (squeeze false s) in
        ground (arith, e, step, worded a (w ++ c ∷ []) s (EndsSolid-snoc (a ∷ w) c (ground arith)))
  ]
