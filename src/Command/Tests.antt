-- ===== src/Command/Tests.antt =====
-- Commands on small tables, and their theorems there.
use netdisk.Prelude.{ℕ, ◌≡◌, refl, true, false, [], ◌∷◌, Option, none, some, codes, pos, All}
use netdisk.Wire.{Text, TransFile}
use netdisk.Tool.Space.{remove_space}
use netdisk.Tool.Argument.{splite_argument}
use netdisk.Tool.FileName.{splite_file_name}
use netdisk.Tool.Simplify.{simplify_path}
use netdisk.Tool.UserPath.{TokenInfo, get_user_path}
use netdisk.Catalog.Tables.{Tables}
use netdisk.Catalog.Directory.{confirm, cd_in, query_cd}
use netdisk.Command.{command, find_command, parse, send_message, change_to, change_dir}
use netdisk.Prelude.{◌++◌, length, arith, ◌+◌, ◌<◌}
use netdisk.Wire.{text_eq, text_eq_self}
use netdisk.Tool.Space.Words.{Lacks}
use netdisk.Tool.FileName.{slash, get_file_name}
use netdisk.Tool.FileName.Names.{path_of}
use netdisk.Tool.UserPath.{path_size}
use netdisk.Tool.Simplify.Resolve.{enter}
use netdisk.Catalog.Tables.{Session}
use netdisk.Catalog.Directory.{Collation}
use netdisk.Command.Change.{place, cut_last, created, add_dir}
use netdisk.Command.MakeDir.{Proper, add_dir-change_dir}
use netdisk.Command.Laws.{Valid, change_dir-Valid}

-- user 1, `ann`, has the directories /ann and /ann/a
abbrev tables : Tables
tables = record {
  users = [];
  files = [];
  user_files =
      record { id = 1; name = codes "ann"; user_id = 1; file_id = 1; parent_id = 0 }
      ∷ record { id = 2; name = codes "a"; user_id = 1; file_id = 2; parent_id = 1 }
      ∷ [];
  next_user = 2;
  next_file = 3;
  next_user_file = 3;
}

abbrev ann : TokenInfo
ann = record { user_id = 1; workpath = codes "/ann" }

abbrev in_a : TokenInfo
in_a = record { user_id = 1; workpath = codes "/ann/a" }

abbrev no_token : TokenInfo → Option Text
no_token info = none

line : parse 20 (codes " cd   a \n") ≡ some (codes "cd", codes "a")
unfolding parse remove_space splite_argument
line = refl

third : find_command (codes "pwd") command ≡ some 3
unfolding find_command
third = refl

abbrev moved : TransFile
moved = record {
  body = codes "change success";
  data_length = 14;
  command_no = 0;
  flag = false;
  token = [];
}

cd : change_dir no_token tables (codes "a") ann ≡ some (moved ∷ [], in_a)
unfolding change_dir change_to send_message get_user_path simplify_path splite_file_name query_cd
    cd_in confirm
cd = refl

ann-Valid : Valid tables ann
unfolding query_cd cd_in confirm splite_file_name
ann-Valid = (0, refl)

lost_path : get_user_path (codes "b") ann ≡ some (codes "/ann/b")
unfolding get_user_path simplify_path splite_file_name
lost_path = refl

not_found : query_cd tables (codes "/ann/b") 1 ≡ some (pos 0)
unfolding query_cd cd_in confirm splite_file_name
not_found = refl

change_dir-Valid_example :
    Valid tables in_a × (in_a.user_id ≡ ann.user_id) × ((m : TransFile) × (moved ∷ [] ≡ m ∷ []))
change_dir-Valid_example =
    change_dir-Valid no_token tables (codes "a") ann in_a (moved ∷ []) ann-Valid cd

-- texts compared byte by byte
abbrev sql : Collation
sql = record { equal = text_eq; like = text_eq; equal_refl = text_eq_self }

abbrev session : Session
session = record { view = tables; committed = tables; autocommit = true }

above : place (codes "../b/x") in_a ≡ some (codes "/ann/b", codes "x")
unfolding place cut_last get_user_path get_file_name simplify_path splite_file_name
above = refl

ann_a-plain : All (Lacks slash) (codes "ann" ∷ codes "a" ∷ [])
ann_a-plain = (
  (
    (λ e. absurd (omega (arith, e))),
    ((λ e. absurd (omega (arith, e))), ((λ e. absurd (omega (arith, e))), tt)),
  ),
  (((λ e. absurd (omega (arith, e))), tt), tt),
)

b-plain : Lacks slash (codes "b")
b-plain = ((λ e. absurd (omega (arith, e))), tt)

ann_a-Proper : All Proper (codes "ann" ∷ codes "a" ∷ [])
unfolding enter
ann_a-Proper = (refl, (refl, tt))

b-Proper : Proper (codes "b")
unfolding enter
b-Proper = refl

ann_a-fits : length (path_of (codes "ann" ∷ codes "a" ∷ [])) + length {A = ℕ} [] + 2 < path_size
unfolding path_of
ann_a-fits = omega arith

ann_a-found : query_cd tables (path_of (codes "ann" ∷ codes "a" ∷ [])) 1 ≡ some (pos 2)
unfolding query_cd cd_in confirm splite_file_name path_of
ann_a-found = refl

abbrev at_a : TokenInfo
at_a = record { user_id = 1; workpath = path_of (codes "ann" ∷ codes "a" ∷ []) }

abbrev at_b : TokenInfo
at_b = record {
  user_id = 1;
  workpath = path_of (codes "ann" ∷ codes "a" ∷ []) ++ slash ∷ codes "b";
}

add_dir-change_dir_example :
    (s' : Session) × (add_dir sql no_token session (codes "b") at_a
      ≡ some (pos 0, send_message no_token created false at_a, s'))
    × (change_dir no_token s'.view (codes "b") at_a
        ≡ some (send_message no_token (codes "change success") false at_b ∷ [], at_b))
    × (s'.committed ≡ s'.view)
add_dir-change_dir_example =
    add_dir-change_dir sql no_token session (codes "ann") (codes "a" ∷ []) 1 b'b' [] ann_a-plain
      b-plain ann_a-Proper b-Proper ann_a-fits 1 ann_a-found refl (omega arith)
      (omega arith, (omega arith, tt)) (omega arith)
