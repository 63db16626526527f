-- ===== src/Command/Names.antt =====
-- `ll` reads the names of `query_ls` by the positions of the files of `query_ll`: whether they are enough.
use netdisk.Prelude.{
  ℕ, suc, ◌+◌, ◌≤◌, ◌≡◌, ◌≢◌, refl, ap, ◌∙◌, Bool, true, false, List, [], ◌∷◌, ◌++◌, Option, some,
  ◌==◌, ◌&&◌, if◌then◌else◌, length, pos, All, arith, Bool-cases, Option-cases, inl, inr,
}
use netdisk.Wire.{Text, TransFile}
use netdisk.Tool.UserPath.{TokenInfo, get_user_path}
use netdisk.Catalog.Tables.{File, UserFile, Tables, select, some_row, order_by, insert_by}
use netdisk.Catalog.Directory.{is_complete, query_cd, query_ls, query_ll}
use netdisk.Command.{send_message}
use netdisk.Command.Detail.{detail_line, details, show_dir_detail, query_complete}

-- a primary key: no two files have one id
abbrev pub UniqueIds : List File → Type 0
UniqueIds [] = Unit {0}
UniqueIds (f ∷ fs) = All (λ g. g.id ≢ f.id) fs × UniqueIds fs

module _ {A : Type 0} (key : A → ℕ) where
  length-insert_by : (x : A) (xs : List A) → length (insert_by key x xs) ≡ suc (length xs)
  length-insert_by x [] = refl
  length-insert_by x (y ∷ xs) = ground (arith, length-insert_by x xs)

  length-order_by : (xs : List A) → length (order_by key xs) ≡ length xs
  length-order_by [] = refl
  length-order_by (x ∷ xs) = length-insert_by x (order_by key xs) ∙ ap suc (length-order_by xs)

-- a row of a directory
abbrev pub links : ℕ → File → UserFile → Bool
links dir f r = (r.file_id == f.id) && (r.parent_id == dir)

abbrev pub complete_id : ℕ → File → Bool
complete_id id f = (f.id == id) && f.complete

absent : (id : ℕ) (fs : List File) → All (λ g. g.id ≢ id) fs → some_row (complete_id id) fs ≡ false
absent id [] h = refl
absent id (f ∷ fs) h = ground (arith, h.0, absent id fs h.1)

-- the complete files that a row of the list links
abbrev pub linked : ℕ → List UserFile → List File → List File
linked dir rows fs = select (λ f. some_row (links dir f) rows && f.complete) fs

-- One row more links one complete file more at most.
linked-row :
    (dir : ℕ) (r : UserFile) (rows : List UserFile) (fs : List File)
    → UniqueIds fs
    → length (linked dir (r ∷ rows) fs)
      ≤ (if some_row (complete_id r.file_id) fs && (r.parent_id == dir) then 1 else 0)
        + length (linked dir rows fs)
linked-row dir r rows [] u = omega arith
linked-row dir r rows (f ∷ fs) u = elim (Bool-cases (r.file_id == f.id)) [
  | inl same ↦
      ground
        (arith, same, linked-row dir r rows fs u.1, absent f.id fs u.0, some_row (links dir f) rows)
  | inr other ↦ ground (arith, other, linked-row dir r rows fs u.1)
]

linked-nothing : (dir : ℕ) (fs : List File) → length (linked dir [] fs) ≡ 0
linked-nothing dir [] = refl
linked-nothing dir (f ∷ fs) = linked-nothing dir fs

-- There are no more complete files than rows that link them.
linked-rows :
    (dir : ℕ) (rows : List UserFile) (fs : List File)
    → UniqueIds fs
    → length (linked dir rows fs)
      ≤ length (select (λ r. some_row (complete_id r.file_id) fs && (r.parent_id == dir)) rows)
linked-rows dir [] fs u = omega (arith, linked-nothing dir fs)
linked-rows dir (r ∷ rows) fs u =
    ground (arith, linked-row dir r rows fs u, linked-rows dir rows fs u)

details_total :
    (generate : TokenInfo → Option Text) (stat : Text → Option ℕ) (info : TokenInfo)
    (fs : List File) (uf : List UserFile)
    → length fs ≤ length uf
    → (lines : List TransFile) × (details generate stat info fs uf ≡ some lines)
      × (length lines ≤ length fs)
unfolding details
details_total generate stat info [] uf h = ([], refl, omega arith)
details_total generate stat info (f ∷ fs) [] h = absurd (omega arith)
details_total generate stat info (f ∷ fs) (u ∷ uf) h =
    let (lines, e, le) = details_total generate stat info fs uf (omega arith) in
    elim (Option-cases (stat f.real_path)) [
      | inl g ↦ (lines, ground (arith, e, g), omega (arith, le))
      | inr (st_size, g) ↦ (
        send_message generate (detail_line u.name st_size f.is_file) true info ∷ lines,
        ground (arith, e, g),
        omega (arith, le),
      )
    ]

-- For a path that the tables have, where ids of files are unique, `ll` reads inside both lists: there are at least
-- as many names from `query_ls` as files from `query_ll`. It sends at most one line for each of the files, and a
-- last message.
pub show_dir_detail-names :
    (generate : TokenInfo → Option Text) (stat : Text → Option ℕ) (t : Tables)
    (argument path : Text) (info : TokenInfo) (dir : ℕ)
    → UniqueIds t.files
    → get_user_path argument info ≡ some path
    → query_cd t path info.user_id ≡ some (pos (suc dir))
    → (files : List File) × (names : List UserFile) × (lines : List TransFile) × (query_ll t path
          info.user_id
        ≡ some (some files))
      × (query_ls t path info.user_id ≡ some (some names))
      × (length files ≤ length names)
      × (length lines ≤ length files)
      × (show_dir_detail generate stat t argument info
          ≡ some (lines ++ send_message generate query_complete false info ∷ []))
unfolding query_ll query_ls show_dir_detail
show_dir_detail-names generate stat t argument path info dir u at found =
    let files = linked (suc dir) t.user_files t.files in
    let names = select (λ r. is_complete t r.file_id && (r.parent_id == suc dir)) t.user_files in
    let fs = order_by (λ f. f.id) files in
    let ns = order_by (λ r. r.file_id) names in
    let enough : length fs ≤ length ns = omega (
      arith,
      length-order_by (λ f. f.id) files,
      length-order_by (λ r. r.file_id) names,
      linked-rows (suc dir) t.user_files t.files u,
    ) in
    let (lines, e, le) = details_total generate stat info fs ns enough in
    (fs, ns, lines, rw found refl, rw found refl, enough, le, ground (arith, at, found, e))
