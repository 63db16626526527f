-- ===== src/Catalog/MakeDir.antt =====
-- `query_mkdir`: the directory that it reports as made is there for `query_cd`, and nothing is left
-- uncommitted.
use netdisk.Prelude.{
  ℕ, zero, suc, ◌<◌, ◌≡◌, inl, inr, refl, ap, sym, ◌∙◌, Bool, true, false, List, [], ◌∷◌, ◌++◌,
  length, Option, none, some, ◌==◌, ◌&&◌, arith, All, All-append, Bool-cases, ℤ, pos, negsuc, subst,
}
use netdisk.Wire.{Text, text_eq, text_eq-eq, text_eq_self}
use netdisk.Tool.Space.Words.{Lacks}
use netdisk.Tool.FileName.{slash, splite_file_name}
use netdisk.Tool.FileName.Names.{path_of, path_of-append, path_of-single, splite_file_name-path_of}
use netdisk.Catalog.Tables.{file_name_size, UserFile, Tables, Session, select, order_by, insert_by}
use netdisk.Catalog.Chain.{insert-All}
use netdisk.Catalog.Directory.{
  Collation, confirm, confirmed, rows_of, cd_in, query_cd, named_in, insert_named_dir, make_in,
  in_dir, query_mkdir,
}
use netdisk.Catalog.Fits.{all_fit-last, query_cd-fits, query_cd-rows}

-- every row's file was made by the counter
abbrev pub Below : ℕ → List UserFile → Type 0
Below n = All (λ r. r.file_id < n)

insert_by-last :
    (x m : UserFile) (l : List UserFile)
    → x.file_id < m.file_id
    → insert_by (λ r. r.file_id) x (l ++ m ∷ []) ≡ insert_by (λ r. r.file_id) x l ++ m ∷ []
insert_by-last x m [] lt = ground arith
insert_by-last x m (y ∷ l) lt = ground (arith, insert_by-last x m l lt)

order_by-last :
    (m : UserFile) (l : List UserFile)
    → Below m.file_id l
    → order_by (λ r. r.file_id) (l ++ m ∷ []) ≡ order_by (λ r. r.file_id) l ++ m ∷ []
order_by-last m [] h = refl
order_by-last m (x ∷ l) h =
    ap (insert_by (λ r. r.file_id) x) (order_by-last m l h.1)
    ∙ insert_by-last x m (order_by (λ r. r.file_id) l) h.0

select-last :
    (p : UserFile → Bool) (m : UserFile) (l : List UserFile)
    → p m ≡ true
    → select p (l ++ m ∷ []) ≡ select p l ++ m ∷ []
select-last p m [] e = rw e
select-last p m (x ∷ l) e = ground (arith, select-last p m l e)

select-Below : (p : UserFile → Bool) (n : ℕ) (l : List UserFile) → Below n l → Below n (select p l)
select-Below p n [] h = tt
select-Below p n (x ∷ l) h = ground (arith, select-Below p n l h.1)

-- A row with a new file is the last of its user's rows.
pub rows_of-last :
    (t t' : Tables) (m : UserFile)
    → Below m.file_id t.user_files
    → t'.user_files ≡ t.user_files ++ m ∷ []
    → rows_of m.user_id t' ≡ rows_of m.user_id t ++ m ∷ []
rows_of-last t t' m h e =
    ap (λ l. order_by (λ r. r.file_id) (select (λ r. r.user_id == m.user_id) l)) e
    ∙ ap (order_by (λ r. r.file_id))
        (select-last (λ r. r.user_id == m.user_id) m t.user_files (ground arith))
    ∙ order_by-last m (select (λ r. r.user_id == m.user_id) t.user_files)
        (select-Below (λ r. r.user_id == m.user_id) m.file_id t.user_files h)

-- no row of the list has this name in this directory
abbrev Free : ℕ → Text → List UserFile → Type 0
Free dir name = All (λ r. ((r.parent_id == dir) && text_eq r.name name) ≡ false)

-- With one more name, and a last row of that name in the directory, the search goes one step further.
confirm-last :
    (rows : List UserFile) (m : UserFile) (parent dir : ℕ) (names : List Text)
    → confirm rows parent names ≡ (dir, [])
    → Free dir m.name rows
    → m.parent_id ≡ dir
    → confirm (rows ++ m ∷ []) parent (names ++ m.name ∷ []) ≡ (m.file_id, [])
unfolding confirm
confirm-last [] m parent dir [] e free here = ground (arith, text_eq_self m.name)
confirm-last [] m parent dir (n ∷ names) e free here = absurd (cc)
confirm-last (x ∷ rows) m parent dir [] e free here =
    let rest : confirm rows parent [] ≡ (dir, []) = done rows parent dir (ground arith) in
    ground (arith, free.0, confirm-last rows m parent dir [] rest free.1 here)
  where
    done : (l : List UserFile) (p d : ℕ) → p ≡ d → confirm l p [] ≡ (d, [])
    done [] p d e = ground arith
    done (y ∷ l) p d e = ground arith
confirm-last (x ∷ rows) m parent dir (n ∷ names) e free here =
    elim (Bool-cases (text_eq x.name n && (parent == x.parent_id))) [
      | inl hit ↦
          ground
            (arith, hit, confirm-last rows m x.file_id dir names (ground (arith, hit)) free.1 here)
      | inr miss ↦ ground (
        arith,
        miss,
        confirm-last rows m parent dir (n ∷ names) (ground (arith, miss)) free.1 here,
      )
    ]

pub cd_in-inverse :
    (l : List UserFile) (path : Text) (names : List Text) (d : ℕ)
    → splite_file_name path ≡ some names
    → cd_in l path ≡ some (pos (suc d))
    → (first : UserFile) × (rows : List UserFile) × (l ≡ first ∷ rows)
      × (confirm (first ∷ rows) first.parent_id names ≡ (suc d, []))
unfolding cd_in
cd_in-inverse [] path names d f e = absurd (cc)
cd_in-inverse (first ∷ rows) path names d f e =
    (first, rows, refl, back (confirm (first ∷ rows) first.parent_id names) (ground (arith, f)))
  where
    back : (r : ℕ × List Text) → confirmed r ≡ pos (suc d) → r ≡ (suc d, [])
    back (p, []) g = ground arith
    back (p, n ∷ left) g = absurd (ground arith)

select-none :
    (sql : Collation) (dir : ℕ) (name : Text) (l : List UserFile)
    → select (λ r. (r.parent_id == dir) && sql.equal r.name name) l ≡ []
    → Free dir name l
select-none sql dir name [] e = tt
select-none sql dir name (x ∷ l) e =
    elim (Bool-cases ((x.parent_id == dir) && sql.equal x.name name)) [
      | inl hit ↦ absurd (ground (arith, hit))
      | inr miss ↦ (apart miss, select-none sql dir name l (ground (arith, miss)))
    ]
  where
    apart :
        ((x.parent_id == dir) && sql.equal x.name name) ≡ false
        → ((x.parent_id == dir) && text_eq x.name name) ≡ false
    apart miss = elim (Bool-cases (text_eq x.name name)) [
      | inl same ↦ ground (
        arith,
        same,
        subst (λ n. sql.equal x.name n ≡ true) (text_eq-eq x.name name same)
            (sql.equal_refl x.name),
      )
      | inr other ↦ ground (arith, other)
    ]

Free-rows :
    (user_id dir : ℕ) (name : Text) (l : List UserFile)
    → Free dir name l
    → Free dir name (order_by (λ r. r.file_id) (select (λ r. r.user_id == user_id) l))
Free-rows user_id dir name [] h = tt
Free-rows user_id dir name (x ∷ l) h = elim (Bool-cases (x.user_id == user_id)) [
  | inl e ↦ rw e (insert-All _ x _ h.0 (Free-rows user_id dir name l h.1))
  | inr e ↦ rw e (Free-rows user_id dir name l h.1)
]

-- The search in the tables with one more row.
cd_in-last :
    (rows : List UserFile) (m : UserFile) (path path' : Text) (names : List Text) (d : ℕ)
    → splite_file_name path ≡ some names
    → splite_file_name path' ≡ some (names ++ m.name ∷ [])
    → cd_in rows path ≡ some (pos (suc d))
    → Free (suc d) m.name rows
    → m.parent_id ≡ suc d
    → cd_in (rows ++ m ∷ []) path' ≡ some (pos m.file_id)
unfolding cd_in
cd_in-last rows m path path' names d f f' e free here =
    let (first, more, is, c) = cd_in-inverse rows path names d f e in
    let step =
      confirm-last (first ∷ more) m first.parent_id (suc d) names c
        (subst (Free (suc d) m.name) is free) here in
    ap (λ l. cd_in (l ++ m ∷ []) path') is ∙ rw (f', cd_in) (ap (λ r. some (confirmed r)) step)

-- A result 2 comes from the two inserts only.
make_in-made :
    (sql : Collation) (s s' : Session) (name : Text) (user_id d : ℕ)
    → make_in sql s name user_id d ≡ some (pos 2, s')
    → (named_in sql d name s.view ≡ []) × (insert_named_dir sql d name user_id s ≡ s')
unfolding make_in
make_in-made sql s s' name user_id d e = go (named_in sql d name s.view) refl
  where
    go :
        (l : List UserFile)
        → named_in sql d name s.view ≡ l
        → (named_in sql d name s.view ≡ []) × (insert_named_dir sql d name user_id s ≡ s')
    go [] f = (f, ground (arith, f))
    go (r ∷ rows) f = absurd (ground (arith, f))

in_dir-made :
    (c : Option ℤ) (s s' : Session) (change : ℕ → Option (ℤ × Session))
    → in_dir c s change ≡ some (pos 2, s')
    → (d : ℕ) × (c ≡ some (pos (suc d))) × (change (suc d) ≡ some (pos 2, s'))
in_dir-made none s s' change e = absurd (cc)
in_dir-made (some (negsuc n)) s s' change e = absurd (ground arith)
in_dir-made (some (pos zero)) s s' change e = absurd (ground arith)
in_dir-made (some (pos (suc d))) s s' change e = (d, refl, e)

-- A directory that `query_mkdir` reports as made, under a name without a slash of at most 127 bytes and in tables whose rows all
-- have files below the counter, is found by `query_cd` under the path and that name, with a new id, and
-- the change is committed.
pub query_mkdir-cd :
    (sql : Collation) (s s' : Session) (n name : Text) (ns : List Text) (user_id : ℕ)
    → All (Lacks slash) (n ∷ ns)
    → Lacks slash name
    → length name < file_name_size
    → Below s.view.next_file s.view.user_files
    → query_mkdir sql s (path_of (n ∷ ns)) name user_id ≡ some (pos 2, s')
    → (query_cd s'.view (path_of (n ∷ ns) ++ slash ∷ name) user_id ≡ some (pos s.view.next_file))
      × (s'.committed ≡ s'.view)
      × (s'.autocommit ≡ true)
unfolding query_mkdir query_cd
query_mkdir-cd sql s s' n name ns user_id h k short below e =
    let path = path_of (n ∷ ns) in
    let (d, cd, made) =
      in_dir-made (query_cd s.view path user_id) s s' (make_in sql s name user_id) e in
    let (fit, cd_found) = query_cd-fits s.view path user_id (pos (suc d)) cd in
    let (none_named, is) = make_in-made sql s s' name user_id (suc d) made in
    let m : UserFile = record {
      id = s.view.next_user_file;
      name = name;
      user_id = user_id;
      file_id = s.view.next_file;
      parent_id = suc d;
    } in
    let whole = path_of-append (n ∷ ns) (name ∷ []) ∙ ap (λ l. path ++ l) (path_of-single name) in
    let names' =
      ap splite_file_name (sym whole)
      ∙ splite_file_name-path_of n (ns ++ name ∷ [])
          (All-append _ (n ∷ ns) (name ∷ []) h (k, tt)) in
    let free =
      Free-rows user_id (suc d) name s.view.user_files
        (select-none sql (suc d) name s.view.user_files none_named) in
    let rows =
      rows_of-last s.view s'.view m below (sym (ap (λ (q : Session). q.view.user_files) is)) in
    (
      query_cd-rows s'.view (path ++ slash ∷ name) user_id _ rows
            (all_fit-last (rows_of user_id s.view) m fit short)
          ∙ cd_in-last (rows_of user_id s.view) m path (path ++ slash ∷ name) (n ∷ ns) d
              (splite_file_name-path_of n ns h) names' cd_found free refl,
      subst (λ (q : Session). q.committed ≡ q.view) is refl,
      subst (λ (q : Session). q.autocommit ≡ true) is refl,
    )
