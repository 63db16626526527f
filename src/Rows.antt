-- ===== src/Rows.antt =====
-- Result rows of MySQL (server/convert_entity.c, and `get_result_set` of server/database.c). A row is the list of its
-- columns, with `none` for NULL. A column that is not there, a NULL that is read, and a text that does not fit its
-- array are `none` in the result. The time of a deletion is left out: no statement reads it.
pub mod Laws
mod Tests
use netdisk.Prelude.{
  ℕ, Bool, true, false, not, List, [], ◌∷◌, Option, none, some, ◌==◌, ◌&&◌, if◌then◌else◌, length,
  ltb, codes,
}
use netdisk.Wire.{Text, text_eq}
use netdisk.Token.Decimal.{atol}
use netdisk.Catalog.Tables.{real_path_size, hash_size, file_name_size, User, File, UserFile}

abbrev pub Row : Type 0
Row = List (Option Text)

-- the sizes of the arrays in server/entity.h
abbrev pub user_name_size : ℕ
user_name_size = 30

abbrev pub password_size : ℕ
password_size = 70

unfoldable pub convert_to_user : Row → Option User
convert_to_user (some id ∷ some name ∷ some password ∷ row) =
    if ltb (length name) user_name_size && ltb (length password) password_size
    then some (record { id = atol id; name = name; password = password })
    else none
convert_to_user row = none

-- a text that may be NULL: the array is all 0 before
abbrev pub text_of : Option Text → Text
text_of none = []
text_of (some text) = text

unfoldable pub convert_to_file : Row → Option File
convert_to_file (some id ∷ some type ∷ real_path ∷ hash_value ∷ some complete ∷ some quote ∷ row) =
    if ltb (length (text_of real_path)) real_path_size
      && ltb (length (text_of hash_value)) hash_size
    then some (record {
      id = atol id;
      is_file = not (text_eq (codes "dir") type);
      real_path = text_of real_path;
      hash_value = text_of hash_value;
      complete = not (atol complete == 0);
      quote = atol quote;
    })
    else none
convert_to_file row = none

-- `row_curr[4] == NULL ? 0 : strtoul(…)`
abbrev pub parent_of : Option Text → ℕ
parent_of none = 0
parent_of (some parent_id) = atol parent_id

unfoldable pub convert_to_userfile : Row → Option UserFile
convert_to_userfile (some id ∷ some name ∷ some user_id ∷ some file_id ∷ parent_id ∷ row) =
    if ltb (length name) file_name_size
    then some (record {
      id = atol id;
      name = name;
      user_id = atol user_id;
      file_id = atol file_id;
      parent_id = parent_of parent_id;
    })
    else none
convert_to_userfile row = none

-- The loop of `get_result_set` over the rows that `mysql_fetch_row` returns.
unfoldable pub get_result_set :
    {A : Type 0} → (convert : Row → Option A) → List Row → Option (List A)
get_result_set convert [] = some []
get_result_set convert (row ∷ rows) =
    let others = get_result_set convert rows in
    elim (convert row) [
      | none ↦ none
      | some x ↦ elim others [ none ↦ none | some xs ↦ some (x ∷ xs) ]
    ]
