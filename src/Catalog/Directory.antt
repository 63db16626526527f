-- ===== src/Catalog/Directory.antt =====
-- `query_cd`, `query_ls`, `query_ll`, `query_mkdir` and `query_remove` of server/deal_sql.c. A result
-- `none` stands for an access outside an array; `query_cd` copies the names of all rows of its user, and the rows that
-- the others read below the directory it finds are taken to fit as those do. Ids are below 2 ^ 31, so that `int` holds them.
use netdisk.Prelude.{
  ℕ, zero, suc, Bool, true, length, ltb, List, [], ◌∷◌, Option, none, some, ◌==◌, if◌then◌else◌,
  ◌&&◌, ◌≡◌, ℤ, pos, negsuc, minus_one,
}
use netdisk.Wire.{Text, text_eq}
use netdisk.Tool.FileName.{splite_file_name}
use netdisk.Catalog.Tables.{
  file_name_size, File, UserFile, Tables, Session, select, some_row, order_by, delete_where, exec,
  autocommit_off, autocommit_on, commit, insert_dir, insert_user_file,
}

-- What MySQL compares texts by: `=` under the column's collation, and `like`.
pub record Collation : Type 0 where
  pub equal : Text → Text → Bool
  pub like : Text → Text → Bool
  pub equal_refl : (s : Text) → equal s s ≡ true

-- The loop of `query_cd` over the user's rows: the last directory confirmed, and the names of the path
-- that are still to be confirmed.
unfoldable pub confirm : List UserFile → ℕ → List Text → ℕ × List Text
confirm [] parent names = (parent, names)
confirm (r ∷ rows) parent [] = (parent, [])
confirm (r ∷ rows) parent (n ∷ names) =
    let hit = text_eq r.name n && (parent == r.parent_id) in
    confirm rows (if hit then r.file_id else parent) (if hit then names else n ∷ names)

-- `path_confirm == path_depth ? parent_id : 0`
abbrev pub confirmed : ℕ × List Text → ℤ
confirmed (parent, []) = pos parent
confirmed (parent, n ∷ names) = pos 0

-- `select * from user_file where user_id = … order by file_id`
abbrev pub rows_of : ℕ → Tables → List UserFile
rows_of user_id t = order_by (λ r. r.file_id) (select (λ r. r.user_id == user_id) t.user_files)

-- the part of `query_cd` behind the query
unfoldable pub cd_in : List UserFile → Text → Option ℤ
unfolding confirm
cd_in [] path = some minus_one
cd_in (r ∷ rows) path = elim (splite_file_name path) [
  | none ↦ none
  | some names ↦ some (confirmed (confirm (r ∷ rows) r.parent_id names))
]

abbrev pub all_fit : List UserFile → Bool
all_fit [] = true
all_fit (r ∷ rows) = ltb (length r.name) file_name_size && all_fit rows

unfoldable pub query_cd : Tables → Text → ℕ → Option ℤ
query_cd t path user_id =
    let rows = rows_of user_id t in if all_fit rows then cd_in rows path else none

-- `id in (select id from file where complete = '1')`
abbrev pub is_complete : Tables → ℕ → Bool
is_complete t file_id = some_row (λ f. (f.id == file_id) && f.complete) t.files

-- what a query of a directory's rows comes to: NULL or rows
abbrev pub list_dir : {A : Type 0} → Option ℤ → (ℕ → List A) → Option (Option (List A))
list_dir none rows = none
list_dir (some (negsuc n)) rows = some none
list_dir (some (pos zero)) rows = some none
list_dir (some (pos (suc d))) rows = some (some (rows (suc d)))

unfoldable pub query_ls : Tables → Text → ℕ → Option (Option (List UserFile))
query_ls t path user_id = list_dir (query_cd t path user_id) λ dir.
    order_by (λ r. r.file_id)
      (select (λ r. is_complete t r.file_id && (r.parent_id == dir)) t.user_files)

unfoldable pub query_ll : Tables → Text → ℕ → Option (Option (List File))
query_ll t path user_id = list_dir (query_cd t path user_id) λ dir.
    order_by (λ f. f.id)
      (select
        (λ f.
          some_row (λ r. (r.file_id == f.id) && (r.parent_id == dir)) t.user_files && f.complete)
        t.files)

-- The part of a change behind `query_cd`: a result that is not positive is handed on as it is.
abbrev pub in_dir : Option ℤ → Session → (ℕ → Option (ℤ × Session)) → Option (ℤ × Session)
in_dir none s change = none
in_dir (some (negsuc n)) s change = some (negsuc n, s)
in_dir (some (pos zero)) s change = some (pos 0, s)
in_dir (some (pos (suc d))) s change = change (suc d)

module _ (sql : Collation) where
  -- `select * from user_file where parent_id = … and name = …`
  abbrev pub named_in : ℕ → Text → Tables → List UserFile
  named_in dir name t = select (λ r. (r.parent_id == dir) && sql.equal r.name name) t.user_files

  -- the two inserts of `query_mkdir`
  abbrev pub insert_named_dir : ℕ → Text → ℕ → Session → Session
  insert_named_dir dir name user_id s =
      let s' = exec insert_dir (autocommit_off s) in
      autocommit_on (commit (exec (insert_user_file name user_id s.view.next_file dir) s'))

  unfoldable pub make_in : Session → Text → ℕ → ℕ → Option (ℤ × Session)
  make_in s name user_id dir = elim (named_in dir name s.view) [
    | [] ↦ some (pos 2, insert_named_dir dir name user_id s)
    | r ∷ rows ↦ some (pos 1, s)
  ]

  unfoldable pub query_mkdir : Session → Text → Text → ℕ → Option (ℤ × Session)
  unfolding make_in
  query_mkdir s path dir_name user_id =
      in_dir (query_cd s.view path user_id) s (make_in s dir_name user_id)

  -- `select * from user_file where file_id in (select file_id from user_file where user_id = … and
  -- parent_id = …) and name like …`
  abbrev pub matching : ℕ → ℕ → Text → Tables → List UserFile
  matching user_id dir name t =
      select
        (λ r.
          some_row
            (λ q. ((q.user_id == user_id) && (q.parent_id == dir)) && (q.file_id == r.file_id))
            t.user_files
          && sql.like r.name name)
        t.user_files

  -- `delete from user_file where file_id = … and user_id = …`
  abbrev pub delete_links : ℕ → ℕ → Tables → Tables
  delete_links file_id user_id t = record t {
    user_files = delete_where (λ r. (r.file_id == file_id) && (r.user_id == user_id)) t.user_files;
  }

  -- The end of `query_remove`, for the rows `select * from file where id = …`; without a row the code
  -- reads behind an empty array.
  unfoldable pub remove_file_row : Session → ℕ → ℕ → List File → Option (ℤ × Session)
  remove_file_row s file_id user_id [] = none
  remove_file_row s file_id user_id (f ∷ fs) =
      if f.is_file
      then some (pos 0, exec (delete_links file_id user_id) s)
      else elim (select (λ r. r.parent_id == file_id) s.view.user_files) [
        | [] ↦ some (pos 0, exec (delete_links file_id user_id) s)
        | r ∷ rows ↦ some (pos 2, s)
      ]

  unfoldable pub remove_in : Session → Text → ℕ → ℕ → Option (ℤ × Session)
  unfolding remove_file_row
  remove_in s name user_id dir = elim (matching user_id dir name s.view) [
    | [] ↦ some (pos 1, s)
    | r ∷ rows ↦ remove_file_row s r.file_id user_id (select (λ f. f.id == r.file_id) s.view.files)
  ]

  unfoldable pub query_remove : Session → Text → Text → ℕ → Option (ℤ × Session)
  unfolding remove_in
  query_remove s path file_name user_id =
      in_dir (query_cd s.view path user_id) s (remove_in s file_name user_id)
