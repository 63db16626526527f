-- ===== src/Command/Detail.antt =====
-- `show_dir_detail` of server/file_no_change.c, the command `ll`. `stat` gives the size of the file that
-- has a name in the directory of the server, or `none` where the system call fails.
use netdisk.Prelude.{
  ℕ, zero, suc, ◌-◌, Bool, true, false, List, [], ◌∷◌, ◌++◌, Option, none, some, if◌then◌else◌,
  codes, length, take,
}
use netdisk.Wire.{Text, TransFile}
use netdisk.Tool.UserPath.{TokenInfo, get_user_path}
use netdisk.Token.Decimal.{to_decimal}
use netdisk.Catalog.Tables.{File, UserFile, Tables}
use netdisk.Catalog.Directory.{query_ls, query_ll}
use netdisk.Command.{send_message}

-- "系统繁忙，请稍候重试"
abbrev pub system_busy : Text
system_busy =
    231 ∷ 179 ∷ 187 ∷ 231 ∷ 187 ∷ 159 ∷ 231 ∷ 185 ∷ 129 ∷ 229 ∷ 191 ∷ 153 ∷ 239 ∷ 188 ∷ 140 ∷ 232
    ∷ 175 ∷ 183 ∷ 231 ∷ 168 ∷ 141 ∷ 229 ∷ 128 ∷ 153 ∷ 233 ∷ 135 ∷ 141 ∷ 232 ∷ 175 ∷ 149 ∷ []

-- "查询完成"
abbrev pub query_complete : Text
query_complete = 230 ∷ 159 ∷ 165 ∷ 232 ∷ 175 ∷ 162 ∷ 229 ∷ 174 ∷ 140 ∷ 230 ∷ 136 ∷ 144 ∷ []

abbrev pub spaces : ℕ → Text
spaces zero = []
spaces (suc n) = b' ' ∷ spaces n

-- `%4ld`
abbrev pub wide : ℕ → Text
wide n = spaces (4 - length (to_decimal n)) ++ to_decimal n

-- the line of a name, as much as `buf` holds
abbrev pub detail_line : (name : Text) → (st_size : ℕ) → (is_file : Bool) → Text
detail_line name st_size is_file =
    take 1023
      (name ++ (b' ' ∷ (wide st_size ++ (b' ' ∷ (if is_file then codes "file" else codes "dir")))))

module _ (generate : TokenInfo → Option Text) (stat : Text → Option ℕ) where
  -- The loop over `f[i]` and `uf[i]`; past the end of `uf` a read is `none`.
  unfoldable pub details : TokenInfo → List File → List UserFile → Option (List TransFile)
  details info [] uf = some []
  details info (f ∷ fs) [] = elim (stat f.real_path) [
    | none ↦ details info fs []
    | some st_size ↦ none
  ]
  details info (f ∷ fs) (u ∷ uf) =
      let others = details info fs uf in
      elim (stat f.real_path) [
        | none ↦ others
        | some st_size ↦ elim others [
          | none ↦ none
          | some lines ↦
              some (send_message generate (detail_line u.name st_size f.is_file) true info ∷ lines)
        ]
      ]

  -- The names that `query_ls` gives are read without a test of its NULL.
  unfoldable pub show_dir_detail : Tables → Text → TokenInfo → Option (List TransFile)
  unfolding details
  show_dir_detail t argument info = elim (get_user_path argument info) [
    | none ↦ none
    | some user_path ↦ elim (query_ll t user_path info.user_id) [
      | none ↦ none
      | some none ↦ some (send_message generate system_busy false info ∷ [])
      | some (some files) ↦ elim (query_ls t user_path info.user_id) [
        | none ↦ none
        | some none ↦ none
        | some (some names) ↦ elim (details info files names) [
          | none ↦ none
          | some lines ↦ some (lines ++ send_message generate query_complete false info ∷ [])
        ]
      ]
    ]
  ]
