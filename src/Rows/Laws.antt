-- ===== src/Rows/Laws.antt =====
-- What the conversions keep of the rows of the tables.
use netdisk.Prelude.{
  ℕ, zero, suc, ◌<◌, ◌≤◌, ◌≡◌, refl, ap, Bool, true, false, not, List, [], ◌∷◌, map, Option, none,
  some, ◌==◌, if◌then◌else◌, length, codes, arith, All,
}
use netdisk.Wire.{Text, text_eq}
use netdisk.Token.Decimal.{to_decimal, atol, atol-to_decimal}
use netdisk.Catalog.Tables.{real_path_size, hash_size, file_name_size, User, File, UserFile}
use netdisk.Rows.{
  Row, text_of, parent_of, user_name_size, password_size, convert_to_user, convert_to_file,
  convert_to_userfile, get_result_set,
}

-- how MySQL gives the rows of the tables; an empty text of a directory is a NULL, and so is the parent 0
abbrev pub user_row : User → Row
user_row u = some (to_decimal u.id) ∷ some u.name ∷ some u.password ∷ none ∷ []

abbrev pub nullable : Text → Option Text
nullable [] = none
nullable (c ∷ s) = some (c ∷ s)

abbrev pub flag_text : Bool → Text
flag_text b = if b then to_decimal 1 else to_decimal 0

abbrev pub file_row : File → Row
file_row f =
    some (to_decimal f.id)
    ∷ some (if f.is_file then codes "file" else codes "dir")
    ∷ nullable f.real_path
    ∷ nullable f.hash_value
    ∷ some (flag_text f.complete)
    ∷ some (to_decimal f.quote)
    ∷ none
    ∷ []

abbrev pub parent_row : ℕ → Option Text
parent_row zero = none
parent_row (suc n) = some (to_decimal (suc n))

abbrev pub userfile_row : UserFile → Row
userfile_row r =
    some (to_decimal r.id)
    ∷ some r.name
    ∷ some (to_decimal r.user_id)
    ∷ some (to_decimal r.file_id)
    ∷ parent_row r.parent_id
    ∷ none
    ∷ []

-- the texts fit the arrays
abbrev pub UserFits : User → Type 0
UserFits u = (length u.name < user_name_size) × (length u.password < password_size)

abbrev pub FileFits : File → Type 0
FileFits f = (length f.real_path < real_path_size) × (length f.hash_value < hash_size)

abbrev pub UserFileFits : UserFile → Type 0
UserFileFits r = length r.name < file_name_size

text_of-nullable : (t : Text) → text_of (nullable t) ≡ t
text_of-nullable [] = refl
text_of-nullable (c ∷ t) = refl

flag-text : (b : Bool) → not (atol (flag_text b) == 0) ≡ b
flag-text true = ap (λ n. not (n == 0)) (atol-to_decimal 1)
flag-text false = ap (λ n. not (n == 0)) (atol-to_decimal 0)

type-text : (b : Bool) → not (text_eq (codes "dir") (if b then codes "file" else codes "dir")) ≡ b
type-text true = refl
type-text false = refl

parent-row : (n : ℕ) → parent_of (parent_row n) ≡ n
parent-row zero = refl
parent-row (suc n) = atol-to_decimal (suc n)

user-row : (u : User) → UserFits u → convert_to_user (user_row u) ≡ some u
unfolding convert_to_user
user-row u h = ground (arith, h.0, h.1, atol-to_decimal u.id)

file-row : (f : File) → FileFits f → convert_to_file (file_row f) ≡ some f
unfolding convert_to_file
file-row f h = ground (
  arith,
  h.0,
  h.1,
  text_of-nullable f.real_path,
  text_of-nullable f.hash_value,
  flag-text f.complete,
  type-text f.is_file,
  atol-to_decimal f.id,
  atol-to_decimal f.quote,
)

userfile-row : (r : UserFile) → UserFileFits r → convert_to_userfile (userfile_row r) ≡ some r
unfolding convert_to_userfile
userfile-row r h = ground (
  arith,
  h,
  parent-row r.parent_id,
  atol-to_decimal r.id,
  atol-to_decimal r.user_id,
  atol-to_decimal r.file_id,
)

result_set-map :
    {A : Type 0} (convert : Row → Option A) (row_of : A → Row) (Fits : A → Type 0) (xs : List A)
    → ((x : A) → Fits x → convert (row_of x) ≡ some x)
    → All Fits xs
    → get_result_set convert (map row_of xs) ≡ some xs
unfolding get_result_set
result_set-map convert row_of Fits [] h k = refl
result_set-map convert row_of Fits (x ∷ xs) h k =
    rw (h x k.0, result_set-map convert row_of Fits xs h k.1) refl

long-user : (u : User) → user_name_size ≤ length u.name → convert_to_user (user_row u) ≡ none
unfolding convert_to_user
long-user u h = ground (arith, h)

-- Rows of the three tables, given out by MySQL as texts and read back by the conversions, are what they were, if
-- their texts fit the arrays of the structures. A user's name of 30 bytes or more, though, is written past the end
-- of its array.
pub get_result_set-rows :
    (users : List User) (files : List File) (user_files : List UserFile) (long : User)
    → All UserFits users
    → All FileFits files
    → All UserFileFits user_files
    → user_name_size ≤ length long.name
    → (get_result_set convert_to_user (map user_row users) ≡ some users)
      × (get_result_set convert_to_file (map file_row files) ≡ some files)
      × (get_result_set convert_to_userfile (map userfile_row user_files) ≡ some user_files)
      × (convert_to_user (user_row long) ≡ none)
get_result_set-rows users files user_files long h k l over = (
  result_set-map convert_to_user user_row UserFits users user-row h,
  result_set-map convert_to_file file_row FileFits files file-row k,
  result_set-map convert_to_userfile userfile_row UserFileFits user_files userfile-row l,
  long-user long over,
)
