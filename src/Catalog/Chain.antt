-- ===== src/Catalog/Chain.antt =====
-- What `query_cd` finds: a chain of the user's rows, each the parent of the next.
use netdisk.Prelude.{
  ℕ, suc, ◌≤◌, ◌<◌, ◌≡◌, ◌⊎◌, inl, inr, refl, ap, sym, ◌∙◌, true, List, [], ◌∷◌, Option, none, some,
  ◌==◌, ◌&&◌, arith, All, Bool-cases, ltb, pos, subst,
}
use netdisk.Wire.{Text, text_eq, text_eq-eq, text_eq_self}
use netdisk.Tool.FileName.{splite_file_name}
use netdisk.Catalog.Tables.{UserFile, Tables, select, order_by, insert_by}
use netdisk.Catalog.Directory.{confirm, confirmed, rows_of, cd_in, query_cd, all_fit}
use netdisk.Catalog.Fits.{query_cd-fits, query_cd-rows}

abbrev pub Among : UserFile → List UserFile → Type 0
Among r [] = ⊥
Among r (x ∷ rows) = (r ≡ x) ⊎ Among r rows

-- From `parent` the names lead through rows of the list to the file `d`.
abbrev pub Chain : List UserFile → ℕ → List Text → ℕ → Type 0
Chain rows parent [] d = parent ≡ d
Chain rows parent (n ∷ names) d =
    (r : UserFile) × Among r rows
    × (r.name ≡ n)
    × (r.parent_id ≡ parent)
    × Chain rows r.file_id names d

Chain-cons :
    (x : UserFile) (rows : List UserFile) (parent : ℕ) (names : List Text) (d : ℕ)
    → Chain rows parent names d
    → Chain (x ∷ rows) parent names d
Chain-cons x rows parent [] d c = c
Chain-cons x rows parent (n ∷ names) d (r, a, e, f, c) =
    (r, inr a, e, f, Chain-cons x rows r.file_id names d c)

confirm-Chain :
    (rows : List UserFile) (parent : ℕ) (names : List Text) (d : ℕ)
    → confirm rows parent names ≡ (d, [])
    → Chain rows parent names d
unfolding confirm
confirm-Chain [] parent [] d e = ground arith
confirm-Chain [] parent (n ∷ names) d e = absurd (cc)
confirm-Chain (x ∷ rows) parent [] d e = ground arith
confirm-Chain (x ∷ rows) parent (n ∷ names) d e =
    elim (Bool-cases (text_eq x.name n && (parent == x.parent_id))) [
      | inl hit ↦ (
        x,
        inl refl,
        text_eq-eq x.name n (ground arith),
        ground arith,
        Chain-cons x rows x.file_id names d
            (confirm-Chain rows x.file_id names d (ground (arith, hit))),
      )
      | inr miss ↦
          Chain-cons x rows parent (n ∷ names) d
            (confirm-Chain rows parent (n ∷ names) d (ground (arith, miss)))
    ]

-- A positive result of `query_cd` on a path is the file at the end of a chain of the user's rows that bear
-- the names of the path, in order, from the parent of the user's first row on.
pub query_cd-Chain :
    (t : Tables) (path : Text) (user_id d : ℕ)
    → query_cd t path user_id ≡ some (pos (suc d))
    → (first : UserFile) × (rows : List UserFile) × (names : List Text) × (rows_of user_id t
        ≡ first ∷ rows)
      × (splite_file_name path ≡ some names)
      × Chain (first ∷ rows) first.parent_id names (suc d)
unfolding query_cd cd_in
query_cd-Chain t path user_id d e =
    go (rows_of user_id t) refl (splite_file_name path) refl
      (query_cd-fits t path user_id (pos (suc d)) e).1
  where
    finish :
        (first : UserFile) (rows : List UserFile) (names : List Text) (r : ℕ × List Text)
        → confirm (first ∷ rows) first.parent_id names ≡ r
        → confirmed r ≡ pos (suc d)
        → Chain (first ∷ rows) first.parent_id names (suc d)
    finish first rows names (p, []) f g =
        confirm-Chain (first ∷ rows) first.parent_id names (suc d) (ground (arith, f, g))
    finish first rows names (p, n ∷ left) f g = absurd (ground (arith, g))

    go :
        (l : List UserFile)
        → rows_of user_id t ≡ l
        → (o : Option (List Text)) → splite_file_name path ≡ o
        → cd_in l path ≡ some (pos (suc d))
        → (first : UserFile) × (rows : List UserFile) × (names : List Text) × (rows_of user_id t
            ≡ first ∷ rows)
          × (splite_file_name path ≡ some names)
          × Chain (first ∷ rows) first.parent_id names (suc d)
    go [] f o g h = absurd (cc)
    go (first ∷ rows) f none g h = absurd (ground (arith, g))
    go (first ∷ rows) f (some names) g h = (
      first,
      rows,
      names,
      f,
      g,
      finish first rows names (confirm (first ∷ rows) first.parent_id names) refl
          (ground (arith, g)),
    )

-- A chain of directories, each made after its parent.
abbrev pub Rising : List UserFile → ℕ → List Text → ℕ → Type 0
Rising rows parent [] d = parent ≡ d
Rising rows parent (n ∷ names) d =
    (r : UserFile) × Among r rows
    × (r.name ≡ n)
    × (r.parent_id ≡ parent)
    × (parent < r.file_id)
    × Rising rows r.file_id names d

abbrev pub Sorted : List UserFile → Type 0
Sorted [] = Unit {0}
Sorted (x ∷ rows) = All (λ y. x.file_id ≤ y.file_id) rows × Sorted rows

-- No two rows have the name and the parent in common.
abbrev pub Unique : List UserFile → Type 0
Unique [] = Unit {0}
Unique (x ∷ rows) = All (λ y. (y.parent_id ≡ x.parent_id) → ¬ (y.name ≡ x.name)) rows × Unique rows

All-Among :
    (P : UserFile → Type 0) (r : UserFile) (rows : List UserFile) → Among r rows → All P rows → P r
All-Among P r (x ∷ rows) (inl e) h = subst P (sym e) h.0
All-Among P r (x ∷ rows) (inr a) h = All-Among P r rows a h.1
All-Among P r [] a h = absurd a

-- A chain from a file that is not before the first row does not use that row.
Rising-drop :
    (x : UserFile) (rows : List UserFile) (parent : ℕ) (names : List Text) (d : ℕ)
    → x.file_id ≤ parent
    → Rising (x ∷ rows) parent names d
    → Rising rows parent names d
Rising-drop x rows parent [] d le c = c
Rising-drop x rows parent (n ∷ names) d le (r, inl is, e, f, lt, c) =
    absurd (omega (arith, ap (λ (q : UserFile). q.file_id) is))
Rising-drop x rows parent (n ∷ names) d le (r, inr a, e, f, lt, c) =
    (r, a, e, f, lt, Rising-drop x rows r.file_id names d (omega arith) c)

confirm-Rising :
    (rows : List UserFile) (parent : ℕ) (names : List Text) (d : ℕ)
    → Sorted rows
    → Unique rows
    → Rising rows parent names d
    → confirm rows parent names ≡ (d, [])
unfolding confirm
confirm-Rising [] parent [] d s u c = ground arith
confirm-Rising [] parent (n ∷ names) d s u c = absurd c.1
confirm-Rising (x ∷ rows) parent [] d s u c = ground arith
confirm-Rising (x ∷ rows) parent (n ∷ names) d s u (r, inl is, e, f, lt, c) =
    let hit : (text_eq x.name n && (parent == x.parent_id)) ≡ true = ground (
      arith,
      text_eq_self n,
      ap (λ (q : UserFile). q.name) is,
      ap (λ (q : UserFile). q.parent_id) is,
    ) in
    let same = ap (λ (q : UserFile). q.file_id) is in
    rw hit (
      confirm-Rising rows x.file_id names d s.1 u.1 (
        subst (λ p. Rising rows p names d) same
          (Rising-drop x rows r.file_id names d (omega (arith, same)) c)))
confirm-Rising (x ∷ rows) parent (n ∷ names) d s u (r, inr a, e, f, lt, c) =
    let le = All-Among (λ y. x.file_id ≤ y.file_id) r rows a s.0 in
    let apart = All-Among (λ y. (y.parent_id ≡ x.parent_id) → ¬ (y.name ≡ x.name)) r rows a u.0 in
    let rest =
      confirm-Rising rows parent (n ∷ names) d s.1 u.1
        (r, a, e, f, lt, Rising-drop x rows r.file_id names d le c) in
    elim (Bool-cases (text_eq x.name n && (parent == x.parent_id))) [
      | inl hit ↦
          absurd (apart (ground (arith, hit)) (e ∙ sym (text_eq-eq x.name n (ground (arith, hit)))))
      | inr miss ↦ rw miss rest
    ]

pub insert-All :
    (P : UserFile → Type 0) (x : UserFile) (l : List UserFile)
    → P x
    → All P l
    → All P (insert_by (λ r. r.file_id) x l)
insert-All P x [] p h = (p, tt)
insert-All P x (y ∷ l) p h = elim (Bool-cases (ltb y.file_id x.file_id)) [
  | inl e ↦ rw e (h.0, insert-All P x l p h.1)
  | inr e ↦ rw e (p, h)
]

All-le :
    (a b : ℕ) (l : List UserFile) → a ≤ b → All (λ y. b ≤ y.file_id) l → All (λ y. a ≤ y.file_id) l
All-le a b [] le h = tt
All-le a b (y ∷ l) le h = (omega arith, All-le a b l le h.1)

insert-Sorted :
    (x : UserFile) (l : List UserFile) → Sorted l → Sorted (insert_by (λ r. r.file_id) x l)
insert-Sorted x [] s = (tt, tt)
insert-Sorted x (y ∷ l) s = elim (Bool-cases (ltb y.file_id x.file_id)) [
  | inl e ↦
      rw e (insert-All (λ z. y.file_id ≤ z.file_id) x l (ground arith) s.0, insert-Sorted x l s.1)
  | inr e ↦ rw e ((ground arith, All-le x.file_id y.file_id l (ground arith) s.0), s)
]

pub order_by-Sorted : (l : List UserFile) → Sorted (order_by (λ r. r.file_id) l)
order_by-Sorted [] = tt
order_by-Sorted (x ∷ l) = insert-Sorted x _ (order_by-Sorted l)

-- If the names of a path lead from the parent of the user's first row through directories made each after
-- its parent, no two of the user's rows share name and parent, and their names fit the array of `user_file_t`,
-- `query_cd` finds the last of them.
pub query_cd_complete :
    (t : Tables) (path : Text) (user_id d : ℕ) (first : UserFile) (rows : List UserFile)
    (names : List Text)
    → rows_of user_id t ≡ first ∷ rows
    → Unique (rows_of user_id t)
    → splite_file_name path ≡ some names
    → all_fit (rows_of user_id t) ≡ true
    → Rising (first ∷ rows) first.parent_id names d
    → query_cd t path user_id ≡ some (pos d)
unfolding query_cd cd_in
query_cd_complete t path user_id d first rows names e u f fit c =
    let sorted =
      subst Sorted e (order_by-Sorted (select (λ r. r.user_id == user_id) t.user_files)) in
    let found = confirm-Rising (first ∷ rows) first.parent_id names d sorted (subst Unique e u) c in
    query_cd-rows t path user_id (first ∷ rows) e (ap all_fit (sym e) ∙ fit)
    ∙ rw (f, cd_in) (ap (λ r. some (confirmed r)) found)
