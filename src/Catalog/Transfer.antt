-- ===== src/Catalog/Transfer.antt =====
-- `query_puts`, `query_gets` and `query_update` of server/deal_sql.c.
use netdisk.Prelude.{
  ℕ, zero, suc, length, ltb, Bool, true, false, List, [], ◌∷◌, Option, none, some, ◌==◌,
  if◌then◌else◌, ◌&&◌, ℤ, pos, negsuc, minus_one, minus_two,
}
use netdisk.Wire.{Text, text_eq}
use netdisk.Catalog.Tables.{
  hash_size, real_path_size, File, UserFile, Tables, Session, select, some_row, update_where, exec,
  autocommit_off, autocommit_on, commit, insert_file, insert_user_file,
}
use netdisk.Catalog.Directory.{Collation, query_cd, named_in}

-- whether `convert_to_file` keeps within its arrays
abbrev pub files_fit : List File → Bool
files_fit [] = true
files_fit (f ∷ fs) =
    (ltb (length f.real_path) real_path_size && ltb (length f.hash_value) hash_size) && files_fit fs

-- the answer for a file: 2 if it is complete, 1 if not
abbrev pub progress : Bool → ℤ
progress true = pos 2
progress false = pos 1

module _ (sql : Collation) where
  -- `select * from file where hash = …`
  abbrev pub hashed : Text → Tables → List File
  hashed hash t = select (λ f. sql.equal f.hash_value hash) t.files

  -- a row of that name stands in the directory
  unfoldable pub puts_same_name : Session → UserFile → Text → Option (ℤ × Session)
  puts_same_name s r hash = elim (select (λ f. f.id == r.file_id) s.view.files) [
    | [] ↦ none
    | f ∷ fs ↦ some ((if text_eq hash f.hash_value then progress f.complete else pos 0), s)
  ]

  -- the two inserts for a file that is not in the library
  abbrev pub insert_new_file : ℕ → Text → Text → ℕ → Session → Session
  insert_new_file dir name hash user_id s =
      let s' = exec (insert_file hash) (autocommit_off s) in
      autocommit_on (commit (exec (insert_user_file name user_id s.view.next_file dir) s'))

  -- no row of that name stands in the directory
  unfoldable pub puts_new_name : Session → ℕ → Text → Text → ℕ → Option (ℤ × Session)
  puts_new_name s dir name hash user_id = elim (hashed hash s.view) [
    | [] ↦ some (pos 1, insert_new_file dir name hash user_id s)
    | f ∷ fs ↦ some (progress f.complete, exec (insert_user_file name user_id f.id dir) s)
  ]

  unfoldable pub puts_in : Session → Text → Text → ℕ → ℕ → Option (ℤ × Session)
  unfolding puts_same_name puts_new_name
  puts_in s name hash user_id dir = elim (named_in sql dir name s.view) [
    | [] ↦ puts_new_name s dir name hash user_id
    | r ∷ rows ↦ puts_same_name s r hash
  ]

  -- -2 where `query_cd` is negative, and -1 where it is 0
  abbrev pub puts_at : Option ℤ → Session → Text → Text → ℕ → Option (ℤ × Session)
  puts_at none s name hash user_id = none
  puts_at (some (negsuc n)) s name hash user_id = some (minus_two, s)
  puts_at (some (pos zero)) s name hash user_id = some (minus_one, s)
  puts_at (some (pos (suc d))) s name hash user_id = puts_in s name hash user_id (suc d)

  unfoldable pub query_puts : Session → Text → Text → Text → ℕ → Option (ℤ × Session)
  unfolding puts_in
  query_puts s path file_name hash_value user_id =
      puts_at (query_cd s.view path user_id) s file_name hash_value user_id

  -- `select * from file where id in (select file_id from user_file where user_id = … and parent_id = …
  -- and name = …) and type = 'file'`
  abbrev pub files_named : ℕ → ℕ → Text → Tables → List File
  files_named user_id dir name t =
      select
        (λ f.
          some_row
            (λ r.
              ((r.user_id == user_id) && (r.parent_id == dir))
              && (sql.equal r.name name && (r.file_id == f.id)))
            t.user_files
          && f.is_file)
        t.files

  -- The result with the hash value that is written on success.
  unfoldable pub gets_at : Option ℤ → Tables → Text → ℕ → Option (ℤ × Option Text)
  gets_at none t name user_id = none
  gets_at (some (negsuc n)) t name user_id = some (minus_one, none)
  gets_at (some (pos zero)) t name user_id = some (pos 0, none)
  gets_at (some (pos (suc d))) t name user_id = elim (files_named user_id (suc d) name t) [
    | [] ↦ some (pos 0, none)
    | f ∷ fs ↦
        if files_fit (f ∷ fs)
        then some (if f.complete then (pos 1, some f.hash_value) else (pos 0, none))
        else none
  ]

  unfoldable pub query_gets : Tables → Text → Text → ℕ → Option (ℤ × Option Text)
  unfolding gets_at
  query_gets t path file_name user_id = gets_at (query_cd t path user_id) t file_name user_id

  -- `update file set complete = '1' where hash = …`
  abbrev pub set_complete : Text → Tables → Tables
  set_complete hash t = record t {
    files =
        update_where (λ f. sql.equal f.hash_value hash) (λ f. record f { complete = true }) t.files;
  }

  unfoldable pub query_update : Session → Text → ℤ × Session
  query_update s hash_value = (pos 0, exec (set_complete hash_value) s)
