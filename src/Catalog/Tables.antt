-- ===== src/Catalog/Tables.antt =====
-- The tables of the database (server/entity.h) and the SQL statements of server/deal_sql.c on them. The
-- rows of a table stand in the order of insertion; `order by` sorts them and keeps the order of equals;
-- an AUTO_INCREMENT key is the table's counter. A NULL parent is 0, as `convert_to_userfile` reads it.
use netdisk.Prelude.{ℕ, ◌+◌, Bool, true, false, List, [], ◌∷◌, ◌++◌, if◌then◌else◌, ◌||◌, ltb}
use netdisk.Wire.{Text}

-- `user_t`
pub record User : Type 0 where
  pub id : ℕ
  pub name : Text
  pub password : Text

-- `file_t`; `is_file` is the field `type`, 0 for a directory
pub record File : Type 0 where
  pub id : ℕ
  pub is_file : Bool
  pub real_path : Text
  pub hash_value : Text
  pub complete : Bool
  pub quote : ℕ

-- `user_file_t`
pub record UserFile : Type 0 where
  pub id : ℕ
  pub name : Text
  pub user_id : ℕ
  pub file_id : ℕ
  pub parent_id : ℕ

-- the sizes of the arrays `real_path`, `hash_value` and `user_file_t.name`
abbrev pub real_path_size : ℕ
real_path_size = 1024

abbrev pub hash_size : ℕ
hash_size = 255

abbrev pub file_name_size : ℕ
file_name_size = 128

pub record Tables : Type 0 where
  pub users : List User
  pub files : List File
  pub user_files : List UserFile
  pub next_user : ℕ
  pub next_file : ℕ
  pub next_user_file : ℕ

-- The tables as one connection sees them, with what is committed. With autocommit on, each statement
-- commits.
pub record Session : Type 0 where
  pub view : Tables
  pub committed : Tables
  pub autocommit : Bool

module _ {ℓ} {A : Type ℓ} where
  -- `where`
  abbrev pub select : (A → Bool) → List A → List A
  select p [] = []
  select p (x ∷ xs) = if p x then x ∷ select p xs else select p xs

  -- `where … in (select …)`
  abbrev pub some_row : (A → Bool) → List A → Bool
  some_row p [] = false
  some_row p (x ∷ xs) = p x || some_row p xs

  -- `order by`
  abbrev pub insert_by : (A → ℕ) → A → List A → List A
  insert_by key x [] = x ∷ []
  insert_by key x (y ∷ ys) = if ltb (key y) (key x) then y ∷ insert_by key x ys else x ∷ y ∷ ys

  abbrev pub order_by : (A → ℕ) → List A → List A
  order_by key [] = []
  order_by key (x ∷ xs) = insert_by key x (order_by key xs)

  -- `update … set … where`
  abbrev pub update_where : (A → Bool) → (A → A) → List A → List A
  update_where p f [] = []
  update_where p f (x ∷ xs) = (if p x then f x else x) ∷ update_where p f xs

  -- `delete … where`
  abbrev pub delete_where : (A → Bool) → List A → List A
  delete_where p [] = []
  delete_where p (x ∷ xs) = if p x then delete_where p xs else x ∷ delete_where p xs

-- a statement that writes
abbrev pub exec : (Tables → Tables) → Session → Session
exec f s = record {
  view = f s.view;
  committed = if s.autocommit then f s.view else s.committed;
  autocommit = s.autocommit;
}

-- `mysql_autocommit` (turning it on commits) and `mysql_commit`
abbrev pub autocommit_off : Session → Session
autocommit_off s = record s { autocommit = false }

abbrev pub autocommit_on : Session → Session
autocommit_on s = record { view = s.view; committed = s.view; autocommit = true }

abbrev pub commit : Session → Session
commit s = record s { committed = s.view }

abbrev pub insert_user : Text → Text → Tables → Tables
insert_user name password t = record t {
  users = t.users ++ record { id = t.next_user; name = name; password = password } ∷ [];
  next_user = t.next_user + 1;
}

abbrev pub insert_dir : Tables → Tables
insert_dir t = record t {
  files =
      t.files
      ++ record {
        id = t.next_file;
        is_file = false;
        real_path = [];
        hash_value = [];
        complete = true;
        quote = 1;
      }
        ∷ [];
  next_file = t.next_file + 1;
}

abbrev pub insert_file : Text → Tables → Tables
insert_file hash t = record t {
  files =
      t.files
      ++ record {
        id = t.next_file;
        is_file = true;
        real_path = hash;
        hash_value = hash;
        complete = false;
        quote = 1;
      }
        ∷ [];
  next_file = t.next_file + 1;
}

-- The column takes a name of any length; whether it fits `user_file_t` is tested where rows are read.
abbrev pub insert_user_file : Text → ℕ → ℕ → ℕ → Tables → Tables
insert_user_file name user_id file_id parent_id t = record t {
  user_files =
      t.user_files
      ++ record {
        id = t.next_user_file;
        name = name;
        user_id = user_id;
        file_id = file_id;
        parent_id = parent_id;
      }
        ∷ [];
  next_user_file = t.next_user_file + 1;
}
