-- ===== src/Command/Change.antt =====
-- `add_dir` and `remove_file` of server/file_change.c: the commands `mkdir` and `rm`.
use netdisk.Prelude.{
  ℕ, zero, suc, ◌-◌, false, [], ◌∷◌, Option, none, some, ◌==◌, if◌then◌else◌, length, get_or, take,
  ℤ, pos, negsuc, minus_one,
}
use netdisk.Wire.{Text, TransFile}
use netdisk.Tool.FileName.{slash, get_file_name}
use netdisk.Tool.UserPath.{TokenInfo, get_user_path}
use netdisk.Catalog.Tables.{Session}
use netdisk.Catalog.Directory.{Collation, query_mkdir, query_remove}
use netdisk.Command.{send_message}

-- The loop that cuts a path at its last slash, from the byte `i` down to the byte 1.
unfoldable pub cut_last : (i : ℕ) → Text → Text
cut_last zero path = path
cut_last (suc i) path =
    let rest = cut_last i path in if get_or path (suc i) 0 == slash then take (suc i) path else rest

-- The path that is searched and the name in it. On an empty path `i` begins below 0.
unfoldable pub place : Text → TokenInfo → Option (Text × Text)
place argument info = elim (get_user_path argument info) [
  | none ↦ none
  | some user_path ↦ elim (get_file_name argument) [
    | none ↦ none
    | some file_name ↦ some (cut_last (length user_path - 1) user_path, file_name)
  ]
]

-- "系统繁忙，请稍候重试"
abbrev pub system_busy : Text
system_busy =
    231 ∷ 179 ∷ 187 ∷ 231 ∷ 187 ∷ 159 ∷ 231 ∷ 185 ∷ 129 ∷ 229 ∷ 191 ∷ 153 ∷ 239 ∷ 188 ∷ 140 ∷ 232
    ∷ 175 ∷ 183 ∷ 231 ∷ 168 ∷ 141 ∷ 229 ∷ 128 ∷ 153 ∷ 233 ∷ 135 ∷ 141 ∷ 232 ∷ 175 ∷ 149 ∷ []

-- "请输入正确路径"
abbrev pub give_right_path : Text
give_right_path =
    232 ∷ 175 ∷ 183 ∷ 232 ∷ 190 ∷ 147 ∷ 229 ∷ 133 ∷ 165 ∷ 230 ∷ 173 ∷ 163 ∷ 231 ∷ 161 ∷ 174 ∷ 232
    ∷ 183 ∷ 175 ∷ 229 ∷ 190 ∷ 132 ∷ []

-- "文件夹非空，请清空后重试"
abbrev pub dir_not_empty : Text
dir_not_empty =
    230 ∷ 150 ∷ 135 ∷ 228 ∷ 187 ∷ 182 ∷ 229 ∷ 164 ∷ 185 ∷ 233 ∷ 157 ∷ 158 ∷ 231 ∷ 169 ∷ 186 ∷ 239
    ∷ 188 ∷ 140 ∷ 232 ∷ 175 ∷ 183 ∷ 230 ∷ 184 ∷ 133 ∷ 231 ∷ 169 ∷ 186 ∷ 229 ∷ 144 ∷ 142 ∷ 233 ∷ 135
    ∷ 141 ∷ 232 ∷ 175 ∷ 149 ∷ []

-- "删除成功"
abbrev pub removed : Text
removed = 229 ∷ 136 ∷ 160 ∷ 233 ∷ 153 ∷ 164 ∷ 230 ∷ 136 ∷ 144 ∷ 229 ∷ 138 ∷ 159 ∷ []

-- "当前目录下已有同名文件"
abbrev pub name_taken : Text
name_taken =
    229 ∷ 189 ∷ 147 ∷ 229 ∷ 137 ∷ 141 ∷ 231 ∷ 155 ∷ 174 ∷ 229 ∷ 189 ∷ 149 ∷ 228 ∷ 184 ∷ 139 ∷ 229
    ∷ 183 ∷ 178 ∷ 230 ∷ 156 ∷ 137 ∷ 229 ∷ 144 ∷ 140 ∷ 229 ∷ 144 ∷ 141 ∷ 230 ∷ 150 ∷ 135 ∷ 228 ∷ 187
    ∷ 182 ∷ []

-- "创建成功"
abbrev pub created : Text
created = 229 ∷ 136 ∷ 155 ∷ 229 ∷ 187 ∷ 186 ∷ 230 ∷ 136 ∷ 144 ∷ 229 ∷ 138 ∷ 159 ∷ []

-- what `add_dir` returns and says for a result of `query_mkdir`
abbrev pub mkdir_answer : ℤ → ℤ × Text
mkdir_answer (negsuc zero) = (minus_one, system_busy)
mkdir_answer (pos zero) = (minus_one, give_right_path)
mkdir_answer (pos (suc zero)) = (minus_one, name_taken)
mkdir_answer (pos (suc (suc n))) = (pos 0, created)
mkdir_answer (negsuc (suc n)) = (pos 0, created)

-- what `remove_file` returns and says for a result of `query_remove`
abbrev pub remove_answer : ℤ → ℤ × Text
remove_answer (negsuc zero) = (minus_one, system_busy)
remove_answer (negsuc (suc n)) = (pos 0, removed)
remove_answer (pos zero) = (pos 0, removed)
remove_answer (pos (suc zero)) = (minus_one, give_right_path)
remove_answer (pos (suc (suc zero))) = (minus_one, dir_not_empty)
remove_answer (pos (suc (suc (suc n)))) = (pos 0, removed)

module _ (sql : Collation) (generate : TokenInfo → Option Text) where
  -- The result, the message sent, and the tables.
  unfoldable pub add_dir : Session → Text → TokenInfo → Option (ℤ × TransFile × Session)
  unfolding place send_message
  add_dir s argument info = elim (place argument info) [
    | none ↦ none
    | some (path, name) ↦ elim (query_mkdir sql s path name info.user_id) [
      | none ↦ none
      | some (r, s') ↦
          some ((mkdir_answer r).0, send_message generate (mkdir_answer r).1 false info, s')
    ]
  ]

  unfoldable pub remove_file : Session → Text → TokenInfo → Option (ℤ × TransFile × Session)
  unfolding place send_message
  remove_file s argument info = elim (place argument info) [
    | none ↦ none
    | some (path, name) ↦ elim (query_remove sql s path name info.user_id) [
      | none ↦ none
      | some (r, s') ↦
          some ((remove_answer r).0, send_message generate (remove_answer r).1 false info, s')
    ]
  ]
