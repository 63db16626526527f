-- ===== src/Tool/Simplify/Laws.antt =====
-- `simplifyPath` computes the absolute path of the directory that its argument means, and writes inside
-- its arrays only.
use mathlib.Core.List.{reverse, reverse-cons}
use netdisk.Prelude.{
  ℕ, suc, ◌+◌, ◌-◌, ◌≤◌, ◌<◌, ◌≡◌, refl, ap, sym, ◌∙◌, List, [], ◌∷◌, ◌++◌, some, arith, append-nil,
  append_assoc, All, length, length-append,
}
use netdisk.Wire.{Text}
use netdisk.Tool.Space.Words.{Lacks}
use netdisk.Tool.FileName.{slash, splite_file_name}
use netdisk.Tool.FileName.Names.{path_of, path_of-append, path_of-single, path_of-splite_file_name}
use netdisk.Tool.Simplify.{Scan, close, scan_path, finish, simplify_path}
use netdisk.Tool.Simplify.Resolve.{enter, resolve, render}
use netdisk.Tool.Simplify.Buffer.{
  buf, pos, NoEmpty, at_dirs, take-front, put-begun, close-enter, enter-NoEmpty, length-buf-enter,
  length-buf,
}

-- The bytes of a name are copied.
scan-name :
    (path : Text) (i j : ℕ) (dirs : List Text) (begun n rest : Text) (last : ℕ)
    → Lacks slash n
    → j ≡ i + length n
    → length (buf dirs) + length begun + length n ≤ length path
    → scan_path path i (n ++ rest) (at_dirs dirs begun last)
      ≡ scan_path path j rest (at_dirs dirs (begun ++ n) last)
unfolding scan_path
scan-name path i j dirs begun [] rest last h e fits =
    ap (λ k. scan_path path k rest (at_dirs dirs begun last)) (omega arith)
    ∙ ap (λ b. scan_path path j rest (at_dirs dirs b last)) (sym (append-nil begun))
scan-name path i j dirs begun (c ∷ n) rest last h e fits = ground (
  arith,
  h.0,
  put-begun (length path) dirs begun c last (omega arith),
  scan-name path (suc i) j dirs (begun ++ c ∷ []) n rest last h.1 (omega arith)
      (omega (arith, length-append {0} begun (c ∷ []))),
  append_assoc begun (c ∷ []) n,
)

-- One name and the branch behind it.
scan-end : (path : Text) (j : ℕ) (st : Scan) → scan_path path j [] st ≡ close path j st
unfolding scan_path
scan-end path j st = refl

scan-slash :
    (path rest : Text) (j : ℕ) (st st' : Scan)
    → close path j st ≡ some st'
    → scan_path path j (slash ∷ rest) st ≡ scan_path path (suc j) rest st'
unfolding scan_path
scan-slash path rest j st st' e = rw (e, scan_path) refl

-- What stands behind the name `n` in the path.
abbrev whole : Text → Text → Text → Text
whole pre n rest = pre ++ slash ∷ (n ++ rest)

length-whole :
    (pre n rest : Text) → length (whole pre n rest) ≡ length pre + 1 + length n + length rest
length-whole pre n rest =
    omega (arith, length-append {0} pre (slash ∷ (n ++ rest)), length-append {0} n rest)

whole-shift :
    (pre n m rest : Text) → whole pre n (slash ∷ m ++ rest) ≡ whole (pre ++ slash ∷ n) m rest
whole-shift pre n m rest = sym (append_assoc pre (slash ∷ n) (slash ∷ m ++ rest))

scan-names :
    (pre n : Text) (ns dirs : List Text)
    → All (Lacks slash) (n ∷ ns)
    → NoEmpty dirs
    → length (buf dirs) ≤ length pre + 1
    → scan_path
        (whole pre n (path_of ns))
        (length pre + 1)
        (n ++ path_of ns)
        (at_dirs dirs [] (length pre))
      ≡ some (at_dirs (resolve dirs (n ∷ ns)) [] (length (whole pre n (path_of ns))))
unfolding path_of resolve
scan-names pre n [] dirs h full fits =
    let len = length-whole pre n [] in
    let j = length pre + length n + 1 in
    scan-name (whole pre n []) (length pre + 1) j dirs [] n [] (length pre) h.0 (omega arith)
      (omega (arith, len))
    ∙ scan-end (whole pre n []) j (at_dirs dirs n (length pre))
    ∙ close-enter pre n [] dirs j refl full (omega (arith, len))
    ∙ ap (λ k. some (at_dirs (enter dirs n) [] k)) (omega (arith, len))
scan-names pre n (m ∷ ms) dirs h full fits =
    let rest = slash ∷ m ++ path_of ms in
    let path = whole pre n rest in
    let len = length-whole pre n rest in
    let j = length pre + length n + 1 in
    let pre' = pre ++ slash ∷ n in
    let shift = whole-shift pre n m (path_of ms) in
    let at = length-append {0} pre (slash ∷ n) in
    scan-name path (length pre + 1) j dirs [] n rest (length pre) h.0 (omega arith)
      (omega (arith, len))
    ∙ scan-slash path (m ++ path_of ms) j (at_dirs dirs n (length pre))
        (at_dirs (enter dirs n) [] j) (close-enter pre n rest dirs j refl full (omega (arith, len)))
    ∙ ap (λ p. scan_path p (suc j) (m ++ path_of ms) (at_dirs (enter dirs n) [] j)) shift
    ∙ ap
        (λ k.
          scan_path (whole pre' m (path_of ms)) (suc k) (m ++ path_of ms)
            (at_dirs (enter dirs n) [] k))
        (omega (arith, at))
    ∙ ap
        (λ k.
          scan_path (whole pre' m (path_of ms)) k (m ++ path_of ms)
            (at_dirs (enter dirs n) [] (length pre')))
        (omega arith)
    ∙ scan-names pre' m ms (enter dirs n) h.1 (enter-NoEmpty dirs n full)
        (omega (arith, at, length-buf-enter dirs n))
    ∙ ap (λ p. some (at_dirs (resolve (enter dirs n) (m ∷ ms)) [] (length p))) (sym shift)

buf-path_of : (dirs : List Text) → buf dirs ≡ path_of (reverse dirs) ++ slash ∷ []
unfolding path_of
buf-path_of [] = refl
buf-path_of (d ∷ dirs) =
    ap (λ b. b ++ (d ++ slash ∷ [])) (buf-path_of dirs)
    ∙ append_assoc (path_of (reverse dirs)) (slash ∷ []) (d ++ slash ∷ [])
    ∙ sym (append_assoc (path_of (reverse dirs)) (slash ∷ d) (slash ∷ []))
    ∙ ap (λ p. (path_of (reverse dirs) ++ p) ++ slash ∷ []) (sym (path_of-single d))
    ∙ ap (λ p. p ++ slash ∷ [])
        (sym (path_of-append (reverse dirs) (d ∷ [])) ∙ ap path_of (sym (reverse-cons d dirs)))

-- The last slash is cut off, unless the path is the root.
finish-render :
    (len : ℕ) (dirs : List Text) (last : ℕ)
    → NoEmpty dirs
    → 0 < len
    → length (buf dirs) ≤ len + 1
    → finish len (at_dirs dirs [] last) ≡ some (render dirs)
unfolding finish
finish-render len [] last full pos fits = ground arith
finish-render len (d ∷ dirs) last full pos fits =
    let p = path_of (reverse (d ∷ dirs)) in
    let e = append-nil (buf (d ∷ dirs)) ∙ buf-path_of (d ∷ dirs) in
    ground (
      arith,
      e,
      ap (length {A = ℕ}) e,
      ap (length {A = ℕ}) (append-nil (buf (d ∷ dirs))),
      length-append p (slash ∷ []),
      length-buf dirs,
      length-append (buf dirs) (d ++ slash ∷ []),
      length-append d (slash ∷ []),
      take-front p (slash ∷ []) (length (buf (d ∷ dirs) ++ []) - 1),
    )

length-resolve :
    (dirs : List Text) (ns : List Text)
    → length (buf (resolve dirs ns)) ≤ length (buf dirs) + length (path_of ns)
unfolding resolve path_of
length-resolve dirs [] = omega arith
length-resolve dirs (n ∷ ns) = omega (
  arith,
  length-resolve (enter dirs n) ns,
  length-buf-enter dirs n,
  length-append {0} n (path_of ns),
)

resolve-NoEmpty : (dirs ns : List Text) → NoEmpty dirs → NoEmpty (resolve dirs ns)
unfolding resolve
resolve-NoEmpty dirs [] h = h
resolve-NoEmpty dirs (n ∷ ns) h = resolve-NoEmpty (enter dirs n) ns (enter-NoEmpty dirs n h)

pub simplify_path-path_of :
    (n : Text) (ns : List Text)
    → All (Lacks slash) (n ∷ ns)
    → simplify_path (path_of (n ∷ ns)) ≡ some (render (resolve [] (n ∷ ns)))
unfolding simplify_path path_of
simplify_path-path_of n ns h = ground (
  arith,
  scan-names [] n ns [] h tt (omega arith),
  finish-render (length (slash ∷ n ++ path_of ns)) (resolve [] (n ∷ ns))
      (length (slash ∷ n ++ path_of ns)) (resolve-NoEmpty [] (n ∷ ns) tt) (omega arith)
      (omega (arith, length-resolve [] (n ∷ ns))),
)

-- On every path that begins with a slash `simplifyPath` stays inside its arrays and returns the path of
-- the directory that the names of the path lead to, taken one after the other from the root; the names
-- are those that `splite_file_name` finds in it.
pub simplify_path-render :
    (s : Text)
    → (ns : List Text) × (splite_file_name (slash ∷ s) ≡ some ns)
      × (simplify_path (slash ∷ s) ≡ some (render (resolve [] ns)))
simplify_path-render s = let (ns, e, h, p) = path_of-splite_file_name s in (ns, e, lead ns h p)
  where
    lead :
        (ns : List Text)
        → All (Lacks slash) ns
        → path_of ns ≡ slash ∷ s
        → simplify_path (slash ∷ s) ≡ some (render (resolve [] ns))
    lead [] h p = absurd (unfold path_of in cc)
    lead (n ∷ ns) h p = ap simplify_path (sym p) ∙ simplify_path-path_of n ns h
