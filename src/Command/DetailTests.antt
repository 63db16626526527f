-- ===== src/Command/DetailTests.antt =====
-- `ll` where one file has two names, and the theorem there.
use netdisk.Prelude.{ℕ, ◌≡◌, refl, true, false, [], ◌∷◌, Option, none, some, codes, pos}
use netdisk.Wire.{Text, TransFile}
use netdisk.Tool.FileName.{splite_file_name}
use netdisk.Tool.UserPath.{TokenInfo, get_user_path}
use netdisk.Catalog.Tables.{Tables}
use netdisk.Catalog.Directory.{confirm, cd_in, query_cd}
use netdisk.Command.{send_message}
use netdisk.Prelude.{◌++◌, length, arith}
use netdisk.Prelude.{List, ◌≤◌}
use netdisk.Catalog.Tables.{File, UserFile}
use netdisk.Catalog.Sample
use netdisk.Catalog.Directory.{query_ls, query_ll}
use netdisk.Token.Decimal.{to_decimal}
use netdisk.Command.Detail.{details, show_dir_detail, query_complete}
use netdisk.Command.Names.{UniqueIds, show_dir_detail-names}

abbrev ann : TokenInfo
ann = record { user_id = 1; workpath = codes "/ann" }

abbrev no_token : TokenInfo → Option Text
no_token info = none

-- the directory /ann with the names f and g of one file
abbrev two_names : Tables
two_names = record Sample.tables {
  user_files =
      Sample.link 1 (codes "ann") 1 1 0
      ∷ Sample.link 2 (codes "f") 1 3 1
      ∷ Sample.link 3 (codes "g") 1 3 1
      ∷ [];
}

abbrev four : Text → Option ℕ
four name = some 4

-- `ll` has one line for them
ll_short :
    show_dir_detail no_token four two_names [] ann
    ≡ some (
        send_message no_token (codes "f    4 file") true ann
        ∷ send_message no_token query_complete false ann
        ∷ [])
unfolding show_dir_detail details get_user_path query_ll query_ls query_cd cd_in confirm
    splite_file_name send_message to_decimal
ll_short = refl

ann_found : query_cd two_names (codes "/ann") 1 ≡ some (pos 1)
unfolding query_cd cd_in confirm splite_file_name
ann_found = refl

ann_path : get_user_path [] ann ≡ some (codes "/ann")
unfolding get_user_path
ann_path = refl

two_names-UniqueIds : UniqueIds two_names.files
two_names-UniqueIds = (
  ((λ e. absurd (omega (arith, e))), ((λ e. absurd (omega (arith, e))), tt)),
  (((λ e. absurd (omega (arith, e))), tt), (tt, tt)),
)

show_dir_detail-names_example :
    (files : List File) × (names : List UserFile) × (lines : List TransFile) × (query_ll two_names
        (codes "/ann")
        1
      ≡ some (some files))
    × (query_ls two_names (codes "/ann") 1 ≡ some (some names))
    × (length files ≤ length names)
    × (length lines ≤ length files)
    × (show_dir_detail no_token four two_names [] ann
        ≡ some (lines ++ send_message no_token query_complete false ann ∷ []))
show_dir_detail-names_example =
    show_dir_detail-names no_token four two_names [] (codes "/ann") ann 0 two_names-UniqueIds
      ann_path ann_found
