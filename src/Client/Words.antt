-- ===== src/Client/Words.antt =====
-- The first word of a line, on the way to the server's command.
use netdisk.Prelude.{
  ℕ, ◌≡◌, ◌≢◌, refl, subst, true, [], ◌∷◌, none, some, arith, All, Option-cases, inl, inr,
}
use netdisk.Wire.{Text}
use netdisk.Tool.Space.{space, newline, kept, trim_last, remove_space}
use netdisk.Tool.Argument.{at_space, splite_argument}
use netdisk.Token.{is_prefix}
use netdisk.Command.{parse}

-- a byte of a word
abbrev pub Plain : ℕ → Type 0
Plain c = (c ≢ space) × (c ≢ newline)

kept-prefix :
    (b : ℕ) (o s : Text) → All Plain o → is_prefix o s ≡ true → is_prefix o (kept (some b) s) ≡ true
unfolding kept
kept-prefix b [] s h e = refl
kept-prefix b (c ∷ o) [] h e = cc
kept-prefix b (c ∷ o) (d ∷ s) h e = ground (arith, h.0.0, h.0.1, e, kept-prefix d o s h.1)

kept-start : (o s : Text) → All Plain o → is_prefix o s ≡ true → is_prefix o (kept none s) ≡ true
unfolding kept
kept-start [] s h e = refl
kept-start (c ∷ o) [] h e = cc
kept-start (c ∷ o) (d ∷ s) h e = ground (arith, h.0.0, h.0.1, e, kept-prefix d o s h.1)

trim_last-prefix :
    (o s t : Text)
    → All Plain o
    → is_prefix o s ≡ true
    → trim_last s ≡ some t
    → is_prefix o t ≡ true
unfolding trim_last
trim_last-prefix [] s t h e f = refl
trim_last-prefix (c ∷ o) [] t h e f = cc
trim_last-prefix (c ∷ []) (d ∷ []) t h e f = ground (arith, h.0.0, e, f)
trim_last-prefix (c ∷ b ∷ o) (d ∷ []) t h e f = absurd (ground (arith, e))
trim_last-prefix (c ∷ o) (d ∷ g ∷ s) t h e f = elim (Option-cases (trim_last (g ∷ s))) [
  | inl k ↦ absurd (ground (arith, f, k))
  | inr (t', k) ↦ ground (arith, e, f, k, trim_last-prefix o (g ∷ s) t' h.1)
]

at_space-prefix :
    (o s a b : Text)
    → All Plain o
    → is_prefix o s ≡ true
    → at_space s ≡ some (a, b)
    → is_prefix o a ≡ true
unfolding at_space
at_space-prefix [] s a b h e f = refl
at_space-prefix (c ∷ o) [] a b h e f = cc
at_space-prefix (c ∷ o) (d ∷ s) a b h e f = elim (Option-cases (at_space s)) [
  | inl k ↦ absurd (ground (arith, h.0.0, e, f, k))
  | inr ((a', b'), k) ↦ ground (arith, h.0.0, e, f, k, at_space-prefix o s a' b' h.1)
]

-- The command that the server reads from a line begins as the line does.
pub parse-prefix :
    (n : ℕ) (o line cmd argument : Text)
    → All Plain o
    → is_prefix o line ≡ true
    → parse n line ≡ some (cmd, argument)
    → is_prefix o cmd ≡ true
unfolding parse remove_space splite_argument
parse-prefix n o line cmd argument h e f = elim (Option-cases (trim_last (kept none line))) [
  | inl k ↦ absurd (ground (arith, f, k))
  | inr (t, k) ↦
      let at_start = trim_last-prefix o (kept none line) t h (kept-start o line h e) k in
      elim (Option-cases (at_space t)) [
        | inl g ↦
            let is : t ≡ cmd = ground (arith, f, k, g) in
            subst (λ x. is_prefix o x ≡ true) is at_start
        | inr ((a, b), g) ↦
            let is : a ≡ cmd = ground (arith, f, k, g) in
            subst (λ x. is_prefix o x ≡ true) is (at_space-prefix o t a b h at_start g)
      ]
]
