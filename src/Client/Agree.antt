-- ===== src/Client/Agree.antt =====
-- What the client takes a line for, and what the server does with it.
use netdisk.Prelude.{
  ℕ, zero, suc, ◌+◌, ◌≡◌, refl, ap, sym, ◌∙◌, subst, Bool, true, false, not, ◌&&◌, ◌||◌, List, [],
  ◌∷◌, ◌++◌, Option, none, some, ◌==◌, if◌then◌else◌, get_elem?, codes, arith, All, Bool-cases,
  Option-cases, inl, inr,
}
use netdisk.Wire.{Text, TransFile, text_eq, is_long}
use netdisk.Tool.Space.{space, newline}
use netdisk.Token.{is_prefix}
use netdisk.Command.{command, find_command, parse}
use netdisk.Client.{
  order, count_spaces, find_order, judge, judged, train_of, act_on, execute_command, Executed,
  refused, asks, starts,
}
use netdisk.Client.Words.{Plain, parse-prefix}

abbrev plain : Text → Bool
plain [] = true
plain (c ∷ s) = not ((c == space) || (c == newline)) && plain s

plain-Plain : (s : Text) → plain s ≡ true → All Plain s
plain-Plain [] e = tt
plain-Plain (c ∷ s) e = ((ground (arith, e), ground (arith, e)), plain-Plain s (ground (arith, e)))

-- an entry of the table has no space and no newline
order-Plain : (n : ℕ) (o : Text) → get_elem? order n ≡ some o → All Plain o
order-Plain n o e = plain-Plain o (at n o e)
  where
    at : (n : ℕ) (o : Text) → get_elem? order n ≡ some o → plain o ≡ true
    at zero o e = ground (arith, e)
    at (suc zero) o e = ground (arith, e)
    at (suc (suc zero)) o e = ground (arith, e)
    at (suc (suc (suc zero))) o e = ground (arith, e)
    at (suc (suc (suc (suc zero)))) o e = ground (arith, e)
    at (suc (suc (suc (suc (suc zero))))) o e = ground (arith, e)
    at (suc (suc (suc (suc (suc (suc zero)))))) o e = ground (arith, e)
    at (suc (suc (suc (suc (suc (suc (suc zero))))))) o e = ground (arith, e)
    at (suc (suc (suc (suc (suc (suc (suc (suc n)))))))) o e = cc

-- the entry found begins the line
find_order-prefix :
    (line : Text) (i k : ℕ) (os : List Text)
    → find_order line i os ≡ some k
    → (j : ℕ) × (o : Text) × (k ≡ i + j) × (get_elem? os j ≡ some o) × (is_prefix o line ≡ true)
find_order-prefix line i k [] e = absurd (cc)
find_order-prefix line i k (o ∷ os) e = elim (Bool-cases (is_prefix o line)) [
  | inl hit ↦ (0, o, ground (arith, e, hit), refl, hit)
  | inr miss ↦
      let (j, p, sum, at, start) = find_order-prefix line (i + 1) k os (ground (arith, e, miss)) in
      (suc j, p, omega (arith, sum), at, start)
]

is_prefix-split : (o s : Text) → is_prefix o s ≡ true → (r : Text) × (s ≡ o ++ r)
is_prefix-split [] s e = (s, refl)
is_prefix-split (c ∷ o) [] e = cc
is_prefix-split (c ∷ o) (d ∷ s) e =
    let (r, is) = is_prefix-split o s (ground (arith, e)) in (r, ground (arith, e, is))

-- what the server's table has for a command
abbrev pub at_server : ℕ → Text → Text → Option ℕ
at_server n o cmd = if text_eq cmd o then some n else none

begun-entry :
    (n : ℕ) (p o r : Text)
    → find_command (p ++ r) command ≡ at_server n p (p ++ r)
    → some p ≡ some o
    → find_command (o ++ r) command ≡ at_server n o (o ++ r)
begun-entry n p o r e at =
    let same : p ≡ o = ground (arith, at) in
    subst (λ q. find_command (q ++ r) command ≡ at_server n q (q ++ r)) same e

-- A command that begins with an entry of the table is that entry, or it is none.
find_begun :
    (n : ℕ) (o r : Text)
    → get_elem? order n ≡ some o
    → find_command (o ++ r) command ≡ at_server n o (o ++ r)
unfolding find_command
find_begun zero o r e = begun-entry 0 (codes "cd") o r (ground arith) e
find_begun (suc zero) o r e = begun-entry 1 (codes "ls") o r (ground arith) e
find_begun (suc (suc zero)) o r e = begun-entry 2 (codes "ll") o r (ground arith) e
find_begun (suc (suc (suc zero))) o r e = begun-entry 3 (codes "pwd") o r (ground arith) e
find_begun (suc (suc (suc (suc zero)))) o r e = begun-entry 4 (codes "mkdir") o r (ground arith) e
find_begun (suc (suc (suc (suc (suc zero))))) o r e =
    begun-entry 5 (codes "puts") o r (ground arith) e
find_begun (suc (suc (suc (suc (suc (suc zero)))))) o r e =
    begun-entry 6 (codes "gets") o r (ground arith) e
find_begun (suc (suc (suc (suc (suc (suc (suc zero))))))) o r e =
    begun-entry 7 (codes "rm") o r (ground arith) e
find_begun (suc (suc (suc (suc (suc (suc (suc (suc n)))))))) o r e = absurd (cc)

-- whether a request is sent by a thread of its own, and the request
abbrev pub sends : Executed → Option (Bool × TransFile)
sends refused = none
sends (asks trans) = some (false, trans)
sends (starts trans) = some (true, trans)

res_of_entry :
    (token line : Text) (i size : ℕ) (transfer : Bool) (trans : TransFile)
    → sends (act_on token line (judged i size)) ≡ some (transfer, trans)
    → (trans ≡ train_of token line i) × (transfer ≡ is_long i)
res_of_entry token line i size transfer trans e = (ground (arith, e), ground (arith, e))

-- A line that the client sends to the server, whose command the server can read, has the number of an entry of the client's
-- table. The server runs the command of that number, if the line's first word is the entry, and no command
-- otherwise; and the client sends the line over a connection of its own exactly when the number is that of
-- `puts` or `gets`, by which the server's queue tells its requests apart.
pub execute_command-find_command :
    (token line cmd argument : Text) (transfer : Bool) (trans : TransFile)
    → sends (execute_command token line) ≡ some (transfer, trans)
    → parse trans.data_length trans.body ≡ some (cmd, argument)
    → (o : Text) × (get_elem? order trans.command_no ≡ some o)
      × (find_command cmd command ≡ (if text_eq cmd o then some trans.command_no else none))
      × (transfer ≡ is_long trans.command_no)
unfolding execute_command judge
execute_command-find_command token line cmd argument transfer trans e parsed =
    elim (Option-cases (find_order line 0 order)) [
      | inl f ↦ absurd (ground (arith, e, f))
      | inr (i, f) ↦
          let (j, o, sum, at, start) = find_order-prefix line 0 i order f in
          let number : i ≡ j = omega (arith, sum) in
          let here = ap (get_elem? order) number ∙ at in
          let (is, tr) =
            res_of_entry token line i (count_spaces line) transfer trans (ground (arith, e, f)) in
          let begun =
            parse-prefix trans.data_length o line cmd argument (order-Plain i o here) start
              (ap (λ (t : Text). parse trans.data_length t) (sym (ap (λ t. t.body) is)) ∙ parsed) in
          let (r, split) = is_prefix-split o cmd begun in
          let no = ap (λ t. t.command_no) is in
          (
            o,
            ap (get_elem? order) no ∙ here,
            subst (λ k. find_command cmd command ≡ at_server k o cmd) (sym no)
                (subst (λ c. find_command c command ≡ at_server i o c) (sym split)
                  (find_begun i o r here)),
            tr ∙ ap is_long (sym no),
          )
    ]
