-- ===== src/Tool/FileName/Names.antt =====
-- `splite_file_name` cuts a path into the names between its slashes.
use netdisk.Prelude.{
  ◌≡◌, refl, ap, sym, ◌∙◌, inl, inr, List, [], ◌∷◌, ◌++◌, some, ◌==◌, arith, append-nil,
  append_assoc, All, All-append, subst, Bool-cases,
}
use netdisk.Wire.{Text}
use netdisk.Tool.Space.Words.{Lacks}
use netdisk.Tool.FileName.{slash, cut, splite_file_name}

-- each name behind a slash
unfoldable pub path_of : List Text → Text
path_of [] = []
path_of (n ∷ ns) = slash ∷ n ++ path_of ns

pub path_of-append : (ms ns : List Text) → path_of (ms ++ ns) ≡ path_of ms ++ path_of ns
unfolding path_of
path_of-append [] ns = refl
path_of-append (m ∷ ms) ns = simp (path_of-append ms ns, append_assoc)

cut-name :
    (w n s : Text) (done : List Text)
    → Lacks slash n
    → cut (slash ∷ w) done (n ++ s) ≡ cut (slash ∷ w ++ n) done s
unfolding cut
cut-name w [] s done h = rw append-nil
cut-name w (c ∷ n) s done h =
    ground (arith, h.0, cut-name (w ++ c ∷ []) n s done h.1, append_assoc w (c ∷ []) n)

cut-path_of :
    (w : Text) (ns done : List Text)
    → All (Lacks slash) ns
    → cut (slash ∷ w) done (path_of ns) ≡ done ++ w ∷ ns
unfolding cut path_of
cut-path_of w [] done h = refl
cut-path_of w (n ∷ ns) done h =
    cut-name [] n (path_of ns) (done ++ w ∷ []) h.0
    ∙ cut-path_of n ns (done ++ w ∷ []) h.1
    ∙ append_assoc done (w ∷ []) (n ∷ ns)

-- A path written from names without slashes is cut into those names.
pub splite_file_name-path_of :
    (n : Text) (ns : List Text)
    → All (Lacks slash) (n ∷ ns)
    → splite_file_name (path_of (n ∷ ns)) ≡ some (n ∷ ns)
unfolding splite_file_name path_of
splite_file_name-path_of n ns h =
    ap some (cut-name [] n (path_of ns) [] h.0 ∙ cut-path_of n ns [] h.1)

pub path_of-single : (w : Text) → path_of (w ∷ []) ≡ slash ∷ w
unfolding path_of
path_of-single w = ap (◌∷◌ slash) (append-nil w)

path_of-cut :
    (w s : Text) (done : List Text)
    → path_of (cut (slash ∷ w) done s) ≡ path_of done ++ (slash ∷ w ++ s)
unfolding cut
path_of-cut w [] done =
    path_of-append done (w ∷ [])
    ∙ ap (◌++◌ (path_of done)) (path_of-single w)
    ∙ ap (λ t. path_of done ++ slash ∷ t) (sym (append-nil w))
path_of-cut w (c ∷ s) done = elim (Bool-cases (c == slash)) [
  | inl e ↦
      let is : c ≡ slash = ground arith in
      rw (e, cut)
        (ap (λ d. path_of (cut (d ∷ []) (done ++ w ∷ []) s)) is
          ∙ path_of-cut [] s (done ++ w ∷ [])
          ∙ ap (λ p. p ++ slash ∷ s)
              (path_of-append done (w ∷ []) ∙ ap (◌++◌ (path_of done)) (path_of-single w))
          ∙ append_assoc (path_of done) (slash ∷ w) (slash ∷ s)
          ∙ ap (λ d. path_of done ++ (slash ∷ w ++ d ∷ s)) (sym is))
  | inr e ↦
      rw (e, cut)
        (path_of-cut (w ++ c ∷ []) s done
          ∙ ap (λ t. path_of done ++ slash ∷ t) (append_assoc w (c ∷ []) s))
]

cut-Lacks :
    (w s : Text) (done : List Text)
    → Lacks slash w
    → All (Lacks slash) done
    → All (Lacks slash) (cut (slash ∷ w) done s)
unfolding cut
cut-Lacks w [] done h k = All-append _ done (w ∷ []) k (h, tt)
cut-Lacks w (c ∷ s) done h k = elim (Bool-cases (c == slash)) [
  | inl e ↦
      let is : c ≡ slash = ground arith in
      rw (e, cut)
        (subst (λ d. All (Lacks slash) (cut (d ∷ []) (done ++ w ∷ []) s)) (sym is)
          (cut-Lacks [] s (done ++ w ∷ []) tt (All-append _ done (w ∷ []) k (h, tt))))
  | inr e ↦
      rw (e, cut)
        (cut-Lacks (w ++ c ∷ []) s done (All-append _ w (c ∷ []) h ((ground arith), tt)) k)
]

-- Every path that begins with a slash is cut into names without slashes, and these names, each behind a
-- slash, are the path again.
pub path_of-splite_file_name :
    (s : Text)
    → (ns : List Text) × (splite_file_name (slash ∷ s) ≡ some ns)
      × All (Lacks slash) ns
      × (path_of ns ≡ slash ∷ s)
unfolding splite_file_name path_of
path_of-splite_file_name s =
    (cut (slash ∷ []) [] s, refl, cut-Lacks [] s [] tt tt, path_of-cut [] s [])
