-- ===== src/Command/MakeDir.antt =====
-- `mkdir` and then `cd`: from the client's text to the tables and back.
use mathlib.Core.List.{reverse, reverse-cons}
use netdisk.Prelude.{
  ℕ, zero, suc, ◌+◌, ◌-◌, ◌≤◌, ◌<◌, ◌≡◌, ◌≢◌, inl, inr, refl, ap, sym, ◌∙◌, subst, false, List, [],
  ◌∷◌, ◌++◌, append_assoc, append-nil, Option, some, ◌==◌, codes, pos, arith, All, All-append,
  length, length-append, get_or, take, Bool-cases,
}
use netdisk.Wire.{Text}
use netdisk.Tool.Space.Words.{Lacks}
use netdisk.Tool.FileName.{slash, splite_file_name, get_file_name}
use netdisk.Tool.FileName.Names.{path_of, path_of-append, path_of-single, splite_file_name-path_of}
use netdisk.Tool.FileName.Last.{get_file_name-last}
use netdisk.Tool.Simplify.Resolve.{enter, resolve, render}
use netdisk.Tool.UserPath.{
  TokenInfo, path_size, get_user_path, start_of, rooted, get_user_path-resolve,
}
use netdisk.Catalog.Tables.{file_name_size, Session}
use netdisk.Catalog.Directory.{
  Collation, query_cd, named_in, make_in, insert_named_dir, query_mkdir,
}
use netdisk.Catalog.MakeDir.{Below, query_mkdir-cd}
use netdisk.Command.{send_message, change_to, change_dir}
use netdisk.Command.Change.{cut_last, place, created, add_dir}

get_or-slash : (p w : Text) → get_or (p ++ slash ∷ w) (length p) 0 ≡ slash
get_or-slash [] w = refl
get_or-slash (c ∷ p) w = get_or-slash p w

take-left : (p w : Text) → take (length p) (p ++ w) ≡ p
take-left [] w = refl
take-left (c ∷ p) w = ap (◌∷◌ c) (take-left p w)

get_or-Lacks : (w : Text) (k : ℕ) → Lacks slash w → k < length w → get_or w k 0 ≢ slash
get_or-Lacks [] k h lt = absurd (omega arith)
get_or-Lacks (c ∷ w) zero h lt = h.0
get_or-Lacks (c ∷ w) (suc k) h lt = get_or-Lacks w k h.1 (omega arith)

get_or-after :
    (p w : Text) (i : ℕ)
    → Lacks slash w
    → length p < i
    → i ≤ length p + length w
    → get_or (p ++ slash ∷ w) i 0 ≢ slash
get_or-after p w zero h lt le = absurd (omega arith)
get_or-after [] w (suc i) h lt le = get_or-Lacks w i h (omega arith)
get_or-after (c ∷ p) w (suc i) h lt le = get_or-after p w i h (omega arith) (omega arith)

-- The loop stops at the slash in front of the last name.
pub cut_last-at :
    (c : ℕ) (p w : Text) (i : ℕ)
    → Lacks slash w
    → length (c ∷ p) ≤ i
    → i ≤ length (c ∷ p) + length w
    → cut_last i ((c ∷ p) ++ slash ∷ w) ≡ c ∷ p
unfolding cut_last
cut_last-at c p w zero h le up = absurd (omega arith)
cut_last-at c p w (suc i) h le up = elim (Bool-cases (suc i == length (c ∷ p))) [
  | inl e ↦
      let is : i ≡ length p = ground (arith, e) in
      subst (λ k. cut_last (suc k) ((c ∷ p) ++ slash ∷ w) ≡ c ∷ p) (sym is)
        (ground (arith, get_or-slash p w, take-left p (slash ∷ w)))
  | inr e ↦
      let below : length (c ∷ p) < suc i = ground (arith, e) in
      ground (
        arith,
        get_or-after (c ∷ p) w (suc i) h below up,
        cut_last-at c p w i h (omega arith) (omega arith),
      )
]

-- A name that is not empty, "." or "..": entered from the root, it leads to a directory of that name.
abbrev pub Proper : Text → Type 0
Proper n = enter [] n ≡ n ∷ []

enter-Proper : (dirs : List Text) (n : Text) → Proper n → enter dirs n ≡ n ∷ dirs
unfolding enter
enter-Proper dirs [] h = absurd (cc)
enter-Proper dirs (a ∷ []) h = ground (arith, h)
enter-Proper dirs (a ∷ b ∷ []) h = ground (arith, h)
enter-Proper dirs (a ∷ b ∷ c ∷ n) h = refl

resolve-Proper :
    (dirs ns : List Text) → All Proper ns → reverse (resolve dirs ns) ≡ reverse dirs ++ ns
unfolding resolve
resolve-Proper dirs [] h = sym (append-nil (reverse dirs))
resolve-Proper dirs (n ∷ ns) h =
    ap (λ l. reverse (resolve l ns)) (enter-Proper dirs n h.0)
    ∙ resolve-Proper (n ∷ dirs) ns h.1
    ∙ ap (λ l. l ++ ns) (reverse-cons n dirs)
    ∙ append_assoc (reverse dirs) (n ∷ []) ns

render-reverse : (n : Text) (ns l : List Text) → reverse l ≡ n ∷ ns → render l ≡ path_of (n ∷ ns)
render-reverse n ns [] e = absurd (cc)
render-reverse n ns (d ∷ dirs) e = ap path_of e

-- Proper names are resolved to themselves.
render-Proper :
    (n : Text) (ns : List Text)
    → All Proper (n ∷ ns)
    → render (resolve [] (n ∷ ns)) ≡ path_of (n ∷ ns)
render-Proper n ns h = render-reverse n ns (resolve [] (n ∷ ns)) (resolve-Proper [] (n ∷ ns) h)

module _ (sql : Collation) (generate : TokenInfo → Option Text) (s : Session) (r : Text)
    (ws : List Text) (user_id c : ℕ) (a : Text) (plain : All (Lacks slash) (r ∷ ws))
    (plain_name : Lacks slash (c ∷ a)) (proper : All Proper (r ∷ ws)) (proper_name : Proper (c ∷ a))
    (fits : length (path_of (r ∷ ws)) + length a + 2 < path_size) where
  -- the work directory, and the new one in it
  abbrev here : TokenInfo
  here = record { user_id = user_id; workpath = path_of (r ∷ ws) }

  abbrev inside : TokenInfo
  inside = record { user_id = user_id; workpath = path_of (r ∷ ws) ++ slash ∷ c ∷ a }

  whole : path_of ((r ∷ ws) ++ (c ∷ a) ∷ []) ≡ path_of (r ∷ ws) ++ slash ∷ c ∷ a
  whole =
      path_of-append (r ∷ ws) ((c ∷ a) ∷ [])
      ∙ ap (λ l. path_of (r ∷ ws) ++ l) (path_of-single (c ∷ a))

  path-name : get_user_path (c ∷ a) here ≡ some (path_of (r ∷ ws) ++ slash ∷ c ∷ a)
  path-name =
      let (ms, f, g) = get_user_path-resolve r ws user_id c a plain fits in
      let relative : (c == slash) ≡ false = ground (arith, plain_name.0) in
      let one : splite_file_name (rooted (c ∷ a)) ≡ some ((c ∷ a) ∷ []) = rw relative (
        ap splite_file_name (sym (path_of-single (c ∷ a)))
        ∙ splite_file_name-path_of (c ∷ a) [] (plain_name, tt)) in
      let is : ms ≡ (c ∷ a) ∷ [] = ground (arith, f, one) in
      g
      ∙ ap (λ l. some (render (resolve [] (start_of (c ∷ a) r ws ++ l)))) is
      ∙ rw relative (
          ap some (
            render-Proper r (ws ++ (c ∷ a) ∷ [])
              (All-append _ (r ∷ ws) ((c ∷ a) ∷ []) proper (proper_name, tt))
            ∙ whole))

  placed : place (c ∷ a) here ≡ some (path_of (r ∷ ws), c ∷ a)
  unfolding place path_of get_user_path splite_file_name
  placed =
      let named : get_file_name (c ∷ a) ≡ some (c ∷ a) =
        ground
          (arith, (get_file_name-last [] (c ∷ a) plain_name).1, length-append {0} r (path_of ws)) in
      let cut =
        cut_last-at slash (r ++ path_of ws) (c ∷ a) (length (path_of (r ∷ ws) ++ slash ∷ c ∷ a) - 1)
          plain_name (omega (arith, length-append {0} (path_of (r ∷ ws)) (slash ∷ c ∷ a)))
          (omega (arith, length-append {0} (path_of (r ∷ ws)) (slash ∷ c ∷ a))) in
      rw (path-name, named) (ap (λ p. some (p, c ∷ a)) cut)

  -- In a work directory that the tables have, `mkdir` with a new proper name succeeds, commits, and the next
  -- `cd` with that name moves the work path into the new directory. The paths fit their arrays, the name has at most 127 bytes, the keys of
  -- the table of files are positive, and no row links a file beyond them.
  pub add_dir-change_dir :
      (d : ℕ)
      → query_cd s.view (path_of (r ∷ ws)) user_id ≡ some (pos (suc d))
      → named_in sql (suc d) (c ∷ a) s.view ≡ []
      → length (c ∷ a) < file_name_size
      → Below s.view.next_file s.view.user_files
      → 0 < s.view.next_file
      → (s' : Session) × (add_dir sql generate s (c ∷ a) here
          ≡ some (pos 0, send_message generate created false here, s'))
        × (change_dir generate s'.view (c ∷ a) here
            ≡ some (send_message generate (codes "change success") false inside ∷ [], inside))
        × (s'.committed ≡ s'.view)
  unfolding add_dir change_dir change_to query_mkdir make_in
  add_dir-change_dir d at new short below first =
      let s' = insert_named_dir sql (suc d) (c ∷ a) user_id s in
      let made : query_mkdir sql s (path_of (r ∷ ws)) (c ∷ a) user_id ≡ some (pos 2, s') =
        ground (arith, at, new) in
      let (found, committed, on) =
        query_mkdir-cd sql s s' r (c ∷ a) ws user_id plain plain_name short below made in
      let next : (k : ℕ) × (s.view.next_file ≡ suc k) = (s.view.next_file - 1, omega arith) in
      let reached = found ∙ ap (λ n. some (pos n)) next.1 in
      (s', ground (arith, placed, made), ground (arith, path-name, reached), committed)
