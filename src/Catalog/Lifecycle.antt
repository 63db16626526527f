-- ===== src/Catalog/Lifecycle.antt =====
-- The life of an upload: `query_puts`, `query_update` and `query_gets`.
use netdisk.Prelude.{
  ℕ, suc, ◌<◌, ◌≡◌, inl, inr, refl, ap, sym, ◌∙◌, Bool, true, false, List, [], ◌∷◌, ◌++◌, Option,
  none, some, ◌==◌, length, if◌then◌else◌, ◌&&◌, arith, All, Bool-cases, pos, subst,
}
use netdisk.Wire.{Text, text_eq, text_eq_self}
use netdisk.Tool.FileName.{splite_file_name}
use netdisk.Catalog.Tables.{
  hash_size, file_name_size, File, UserFile, Tables, Session, select, some_row, update_where, exec,
}
use netdisk.Catalog.Directory.{Collation, confirm, confirmed, rows_of, cd_in, query_cd, named_in}
use netdisk.Catalog.Fits.{select_last-none, all_fit-last, query_cd-fits, query_cd-rows}
use netdisk.Catalog.Transfer.{
  hashed, puts_same_name, puts_in, puts_new_name, insert_new_file, files_named, set_complete,
  query_puts, query_gets, query_update, gets_at,
}
use netdisk.Catalog.MakeDir.{Below, rows_of-last, cd_in-inverse}

confirm-more :
    (rows : List UserFile) (m : UserFile) (parent dir : ℕ) (names : List Text)
    → confirm rows parent names ≡ (dir, [])
    → confirm (rows ++ m ∷ []) parent names ≡ (dir, [])
unfolding confirm
confirm-more [] m parent dir [] e = ground arith
confirm-more [] m parent dir (n ∷ names) e = absurd (cc)
confirm-more (x ∷ rows) m parent dir [] e = ground arith
confirm-more (x ∷ rows) m parent dir (n ∷ names) e =
    elim (Bool-cases (text_eq x.name n && (parent == x.parent_id))) [
      | inl hit ↦ ground (arith, hit, confirm-more rows m x.file_id dir names (ground (arith, hit)))
      | inr miss ↦
          ground (arith, miss, confirm-more rows m parent dir (n ∷ names) (ground (arith, miss)))
    ]

-- A row behind the others does not change where a path leads.
cd_in-more :
    (rows : List UserFile) (m : UserFile) (path : Text) (d : ℕ)
    → cd_in rows path ≡ some (pos (suc d))
    → cd_in (rows ++ m ∷ []) path ≡ some (pos (suc d))
unfolding cd_in
cd_in-more [] m path d e = absurd (cc)
cd_in-more (x ∷ rows) m path d e = go (splite_file_name path) refl
  where
    go :
        (o : Option (List Text))
        → splite_file_name path ≡ o
        → cd_in ((x ∷ rows) ++ m ∷ []) path ≡ some (pos (suc d))
    go none f = absurd (ground (arith, f))
    go (some names) f =
        let (first, more, is, c) = cd_in-inverse (x ∷ rows) path names d f e in
        let c' : confirm (x ∷ rows) x.parent_id names ≡ (suc d, []) =
          ap (λ l. elim l [ [] ↦ (0, []) | y ∷ ys ↦ confirm (y ∷ ys) y.parent_id names ]) is ∙ c in
        rw (f, cd_in)
          (ap (λ r. some (confirmed r)) (confirm-more (x ∷ rows) m x.parent_id (suc d) names c'))

-- every file was made by the counter
abbrev pub FilesBelow : ℕ → List File → Type 0
FilesBelow n = All (λ f. f.id < n)

select-Below_none : (n : ℕ) (l : List File) → FilesBelow n l → select (λ f. f.id == n) l ≡ []
select-Below_none n [] h = refl
select-Below_none n (f ∷ l) h = ground (arith, h.0, select-Below_none n l h.1)

module _ (sql : Collation) where
  -- whether the row is the user's link of that name and directory to the file
  abbrev link_to : ℕ → ℕ → Text → ℕ → UserFile → Bool
  link_to user_id dir name file_id r =
      ((r.user_id == user_id) && (r.parent_id == dir))
      && (sql.equal r.name name && (r.file_id == file_id))

  no_link :
      (user_id dir : ℕ) (name : Text) (file_id : ℕ) (l : List UserFile) (m : UserFile)
      → select (λ r. (r.parent_id == dir) && sql.equal r.name name) l ≡ []
      → ¬ (m.file_id ≡ file_id)
      → some_row (link_to user_id dir name file_id) (l ++ m ∷ []) ≡ false
  no_link user_id dir name file_id [] m none_named ne = ground arith
  no_link user_id dir name file_id (x ∷ l) m none_named ne =
      elim (Bool-cases ((x.parent_id == dir) && sql.equal x.name name)) [
        | inl hit ↦ absurd (ground (arith, hit))
        | inr miss ↦
            ground (arith, miss, no_link user_id dir name file_id l m (ground (arith, miss)) ne)
      ]

  one_link :
      (user_id dir : ℕ) (name : Text) (l : List UserFile) (m : UserFile)
      → link_to user_id dir name m.file_id m ≡ true
      → some_row (link_to user_id dir name m.file_id) (l ++ m ∷ []) ≡ true
  one_link user_id dir name [] m e = ground (arith, e)
  one_link user_id dir name (x ∷ l) m e = ground (arith, one_link user_id dir name l m e)

  -- With one more file and one more row, which links it, the name leads to that file alone.
  files-new :
      (user_id dir : ℕ) (name : Text) (l : List UserFile) (m : UserFile) (files : List File)
      (f : File)
      → select (λ r. (r.parent_id == dir) && sql.equal r.name name) l ≡ []
      → link_to user_id dir name m.file_id m ≡ true
      → m.file_id ≡ f.id
      → f.is_file ≡ true
      → FilesBelow f.id files
      → select
          (λ g. some_row (link_to user_id dir name g.id) (l ++ m ∷ []) && g.is_file)
          (files ++ f ∷ [])
        ≡ f ∷ []
  files-new user_id dir name l m [] f none_named link same is_file below =
      let found =
        subst (λ i. some_row (link_to user_id dir name i) (l ++ m ∷ []) ≡ true) same
          (one_link user_id dir name l m link) in
      ground (arith, found, is_file)
  files-new user_id dir name l m (g ∷ files) f none_named link same is_file below = ground (
    arith,
    no_link user_id dir name g.id l m none_named (omega (arith, same, below.0)),
    files-new user_id dir name l m files f none_named link same is_file below.1,
  )

update_where-last :
    (p : File → Bool) (g : File → File) (l : List File) (f : File)
    → p f ≡ true
    → update_where p g (l ++ f ∷ []) ≡ update_where p g l ++ g f ∷ []
update_where-last p g [] f e = rw e
update_where-last p g (x ∷ l) f e = ap (◌∷◌ (if p x then g x else x)) (update_where-last p g l f e)

update-FilesBelow :
    (sql : Collation) (hash : Text) (n : ℕ) (l : List File)
    → FilesBelow n l
    → FilesBelow n
        (update_where (λ f. sql.equal f.hash_value hash) (λ f. record f { complete = true }) l)
update-FilesBelow sql hash n [] h = tt
update-FilesBelow sql hash n (x ∷ l) h = (ground (arith, h.0), update-FilesBelow sql hash n l h.1)

-- the directory, and what has to be new in it
pub record Fresh (sql : Collation) (s : Session) (path name hash : Text) (user_id d : ℕ)
    : Type 0 where
  pub at : query_cd s.view path user_id ≡ some (pos (suc d))
  pub no_name : named_in sql (suc d) name s.view ≡ []
  pub no_hash : hashed sql hash s.view ≡ []
  pub name_fits : length name < file_name_size
  pub hash_fits : length hash < hash_size
  pub rows : Below s.view.next_file s.view.user_files
  pub files : FilesBelow s.view.next_file s.view.files

module _ (sql : Collation) (s : Session) (path name hash : Text) (user_id d : ℕ)
    (fresh : Fresh sql s path name hash user_id d) where
  open fresh use {at, no_name, no_hash, name_fits, hash_fits, rows, files}

  made : Session
  made = insert_new_file sql (suc d) name hash user_id s

  puts-made : query_puts sql s path name hash user_id ≡ some (pos 1, made)
  unfolding query_puts puts_in puts_new_name made
  puts-made = ground (arith, at, no_name, no_hash)

  -- the file and the row that the two inserts add
  new_file : File
  new_file = record {
    id = s.view.next_file;
    is_file = true;
    real_path = hash;
    hash_value = hash;
    complete = false;
    quote = 1;
  }

  new_row : UserFile
  new_row = record {
    id = s.view.next_user_file;
    name = name;
    user_id = user_id;
    file_id = s.view.next_file;
    parent_id = suc d;
  }

  cd-more :
      (t : Tables)
      → t.user_files ≡ s.view.user_files ++ new_row ∷ []
      → query_cd t path user_id ≡ some (pos (suc d))
  unfolding query_cd new_row
  cd-more t e =
      let (fit, cd) = query_cd-fits s.view path user_id (pos (suc d)) at in
      query_cd-rows t path user_id _ (rows_of-last s.view t new_row rows e)
        (all_fit-last (rows_of user_id s.view) new_row fit name_fits)
      ∙ cd_in-more (rows_of user_id s.view) new_row path d cd

  linked : link_to sql user_id (suc d) name s.view.next_file new_row ≡ true
  unfolding new_row
  linked = ground (arith, sql.equal_refl name)

  gets-file :
      (t : Tables) (files' : List File) (f : File)
      → t.user_files ≡ s.view.user_files ++ new_row ∷ []
      → t.files ≡ files' ++ f ∷ []
      → f.id ≡ s.view.next_file
      → f.is_file ≡ true
      → f.hash_value ≡ hash
      → f.real_path ≡ hash
      → FilesBelow s.view.next_file files'
      → query_gets sql t path name user_id
        ≡ some (if f.complete then (pos 1, some f.hash_value) else (pos 0, none))
  unfolding query_gets gets_at
  gets-file t files' f e e' id is_file same_hash same_path below =
      let alone =
        files-new sql user_id (suc d) name s.view.user_files new_row files' f no_name
          (unfold new_row in linked) (unfold new_row in sym id) is_file
          (subst (λ n. FilesBelow n files') (sym id) below) in
      let named : files_named sql user_id (suc d) name t ≡ f ∷ [] =
        ap
          (λ l.
            select (λ g. some_row (link_to sql user_id (suc d) name g.id) l && g.is_file) t.files)
          e
        ∙ ap
            (select (λ g.
              some_row (link_to sql user_id (suc d) name g.id) (s.view.user_files ++ new_row ∷ [])
              && g.is_file))
            e'
        ∙ alone in
      ground (arith, cd-more t e, named, hash_fits, same_hash, same_path)

module _ (sql : Collation) (s : Session) (path name hash : Text) (user_id d : ℕ)
    (fresh : Fresh sql s path name hash user_id d) where
  -- the file that the row links is found by its id
  filed :
      select
        (λ f. f.id == s.view.next_file)
        (s.view.files ++ new_file sql s path name hash user_id d fresh ∷ [])
      ≡ new_file sql s path name hash user_id d fresh ∷ []
  unfolding new_file
  filed =
      select_last-none (λ f. f.id == s.view.next_file) s.view.files
        (new_file sql s path name hash user_id d fresh)
        (select-Below_none s.view.next_file s.view.files fresh.files) (ground arith)

  -- Asked for twice, the same upload is wanted twice, and the second request changes nothing.
  pub puts_twice :
      (s1 : Session) × (query_puts sql s path name hash user_id ≡ some (pos 1, s1))
      × (query_puts sql s1 path name hash user_id ≡ some (pos 1, s1))
  unfolding query_puts puts_in puts_same_name made new_row new_file
  puts_twice =
      let row = new_row sql s path name hash user_id d fresh in
      let named =
        select_last-none (λ r. (r.parent_id == suc d) && sql.equal r.name name) s.view.user_files
          row fresh.no_name (ground (arith, sql.equal_refl name)) in
      let s1 = made sql s path name hash user_id d fresh in
      let stored : select (λ f. f.id == s.view.next_file) s1.view.files
          ≡ new_file sql s path name hash user_id d fresh ∷ [] =
        unfold new_file in filed in
      let again = cd-more sql s path name hash user_id d fresh s1.view refl in
      (
        s1,
        puts-made sql s path name hash user_id d fresh,
        ground (arith, again, named, stored, text_eq_self hash),
      )

-- In a directory of the user, with a name that is not there and a hash value that no file has, which fit the arrays of
-- `user_file_t` and `file_t`, `query_puts`
-- asks for the upload (1) and `query_gets` does not hand the file out (0); once `query_update` has noted
-- the upload as complete, `query_gets` returns that hash value (1), and all of it is committed.
pub upload_lifecycle :
    (sql : Collation) (s : Session) (path name hash : Text) (user_id d : ℕ)
    → Fresh sql s path name hash user_id d
    → (s1 : Session) × (s2 : Session) × (query_puts sql s path name hash user_id ≡ some (pos 1, s1))
      × (query_gets sql s1.view path name user_id ≡ some (pos 0, none))
      × (query_update sql s1 hash ≡ (pos 0, s2))
      × (query_gets sql s2.view path name user_id ≡ some (pos 1, some hash))
      × (s2.committed ≡ s2.view)
unfolding query_update made new_file new_row
upload_lifecycle sql s path name hash user_id d fresh =
    let s1 = made sql s path name hash user_id d fresh in
    let f = new_file sql s path name hash user_id d fresh in
    (
      s1,
      exec (set_complete sql hash) s1,
      puts-made sql s path name hash user_id d fresh,
      gets-file sql s path name hash user_id d fresh s1.view s.view.files f refl refl refl refl refl
          refl fresh.files,
      refl,
      gets-file sql s path name hash user_id d fresh (set_complete sql hash s1.view)
          (update_where (λ f. sql.equal f.hash_value hash) (λ f. record f { complete = true })
            s.view.files)
          (record f { complete = true }) refl
          (update_where-last (λ f. sql.equal f.hash_value hash) (λ f. record f { complete = true })
            s.view.files f (sql.equal_refl hash))
          refl refl refl refl
          (update-FilesBelow sql hash s.view.next_file s.view.files fresh.files),
      refl,
    )
