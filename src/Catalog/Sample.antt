-- ===== src/Catalog/Sample.antt =====
-- Small tables, as `server/database` keeps them, on which the tests of several parts run.
use netdisk.Prelude.{ℕ, Bool, true, false, [], ◌∷◌, codes}
use netdisk.Wire.{Text, text_eq, text_eq_self}
use netdisk.Catalog.Tables.{File, UserFile, Tables, Session}
use netdisk.Catalog.Directory.{Collation}

-- texts compared byte by byte
abbrev pub sql : Collation
sql = record { equal = text_eq; like = text_eq; equal_refl = text_eq_self }

abbrev pub dir_row : ℕ → File
dir_row id = record {
  id = id;
  is_file = false;
  real_path = [];
  hash_value = [];
  complete = true;
  quote = 1;
}

abbrev pub file_row : ℕ → Text → Bool → File
file_row id hash complete = record {
  id = id;
  is_file = true;
  real_path = hash;
  hash_value = hash;
  complete = complete;
  quote = 1;
}

abbrev pub link : ℕ → Text → ℕ → ℕ → ℕ → UserFile
link id name user_id file_id parent_id = record {
  id = id;
  name = name;
  user_id = user_id;
  file_id = file_id;
  parent_id = parent_id;
}

-- user 1, `ann`, has the directories /ann and /ann/a and the file f in both
abbrev pub tables : Tables
tables = record {
  users = record { id = 1; name = codes "ann"; password = codes "x" } ∷ [];
  files = dir_row 1 ∷ dir_row 2 ∷ file_row 3 (codes "h") true ∷ [];
  user_files =
      link 1 (codes "ann") 1 1 0
      ∷ link 2 (codes "a") 1 2 1
      ∷ link 3 (codes "f") 1 3 1
      ∷ link 4 (codes "f") 1 3 2
      ∷ [];
  next_user = 2;
  next_file = 4;
  next_user_file = 5;
}

abbrev pub session : Session
session = record { view = tables; committed = tables; autocommit = true }
