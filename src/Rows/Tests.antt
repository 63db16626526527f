-- ===== src/Rows/Tests.antt =====
-- The rows of small tables, and the theorem there.
use netdisk.Prelude.{ℕ, zero, suc, ◌≡◌, [], ◌∷◌, map, none, some, arith}
use netdisk.Wire.{Text}
use netdisk.Catalog.Tables.{User}
use netdisk.Catalog.Sample.{tables}
use netdisk.Rows.{convert_to_user, convert_to_file, convert_to_userfile, get_result_set}
use netdisk.Rows.Laws.{user_row, file_row, userfile_row, get_result_set-rows}

abbrev long_name : ℕ → Text
long_name zero = []
long_name (suc n) = b'n' ∷ long_name n

abbrev long : User
long = record { id = 1; name = long_name 30; password = [] }

get_result_set-rows_example :
    (get_result_set convert_to_user (map user_row tables.users) ≡ some tables.users)
    × (get_result_set convert_to_file (map file_row tables.files) ≡ some tables.files)
    × (get_result_set convert_to_userfile (map userfile_row tables.user_files)
        ≡ some tables.user_files)
    × (convert_to_user (user_row long) ≡ none)
get_result_set-rows_example =
    get_result_set-rows tables.users tables.files tables.user_files long
      ((omega arith, omega arith), tt)
      ((omega arith, omega arith), ((omega arith, omega arith), ((omega arith, omega arith), tt)))
      (omega arith, (omega arith, (omega arith, (omega arith, tt)))) (omega arith)
