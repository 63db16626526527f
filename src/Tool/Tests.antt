-- ===== src/Tool/Tests.antt =====
-- The text functions on small inputs, and their theorems there.
use netdisk.Prelude.{◌≡◌, refl, List, [], ◌∷◌, ◌++◌, some, arith, All, codes}
use netdisk.Wire.{Text}
use netdisk.Tool.Space.{newline, remove_space}
use netdisk.Tool.Space.Words.{words, words_from, unwords, Lacks}
use netdisk.Tool.Space.Laws.{remove_space-unwords}
use netdisk.Tool.Argument.{splite_argument, get_sult, arguments_of, splite_argument-remove_space}
use netdisk.Tool.FileName.{slash, splite_file_name, get_file_name}
use netdisk.Tool.FileName.Names.{path_of, path_of-splite_file_name}
use netdisk.Tool.Simplify.{simplify_path}
use netdisk.Tool.Simplify.Resolve.{resolve, render}
use netdisk.Tool.Simplify.Laws.{simplify_path-render}
use netdisk.Tool.UserPath.{get_user_path, start_of, rooted, get_user_path-resolve}

spaced : remove_space (codes "  cd   dir \n") ≡ some (codes "cd dir")
unfolding remove_space
spaced = refl

-- a newline between two spaces keeps both spaces
newline_inside : remove_space (codes "a \n b") ≡ some (codes "a  b")
unfolding remove_space
newline_inside = refl

two : splite_argument (codes "puts a b") ≡ some (codes "puts", codes "a b")
unfolding splite_argument
two = refl

salt : get_sult (codes "$2b$11$salt") ≡ some (codes "$2b$11$")
unfolding get_sult
salt = refl

names : splite_file_name (codes "/feng/dir1") ≡ some (codes "feng" ∷ codes "dir1" ∷ [])
unfolding splite_file_name
names = refl

last_name : get_file_name (codes "/feng/dir1/1.txt") ≡ some (codes "1.txt")
unfolding get_file_name
last_name = refl

simple : simplify_path (codes "/a//./b/../c/") ≡ some (codes "/a/c")
unfolding simplify_path
simple = refl

root : simplify_path (codes "/a/../../") ≡ some (codes "/")
unfolding simplify_path
root = refl

three_dots : simplify_path (codes "/a/...") ≡ some (codes "/a/...")
unfolding simplify_path
three_dots = refl

relative :
    get_user_path (codes "../x") (record { user_id = 1; workpath = codes "/feng/dir1" })
    ≡ some (codes "/feng/x")
unfolding get_user_path simplify_path splite_file_name
relative = refl

absolute :
    get_user_path (codes "/x") (record { user_id = 1; workpath = codes "/feng/dir1" })
    ≡ some (codes "/feng/x")
unfolding get_user_path simplify_path splite_file_name
absolute = refl

remove_space-unwords_example :
    (remove_space (codes " cd  dir ") ≡ some (unwords (words (codes " cd  dir "))))
    × (remove_space (codes " cd  dir " ++ newline ∷ [])
        ≡ some (unwords (words (codes " cd  dir "))))
unfolding words_from
remove_space-unwords_example = remove_space-unwords (codes " cd  dir ") (omega arith) (cc)

splite_argument-remove_space_example :
    (t : Text) × (remove_space (codes " cd  dir ") ≡ some t)
    × (remove_space (codes " cd  dir " ++ newline ∷ []) ≡ some t)
    × (splite_argument t ≡ arguments_of (words (codes " cd  dir ")))
unfolding words_from
splite_argument-remove_space_example =
    splite_argument-remove_space (codes " cd  dir ") (omega arith) (cc)

path_of-splite_file_name_example :
    (ns : List Text) × (splite_file_name (slash ∷ codes "a/b") ≡ some ns)
    × All (Lacks slash) ns
    × (path_of ns ≡ slash ∷ codes "a/b")
path_of-splite_file_name_example = path_of-splite_file_name (codes "a/b")

simplify_path-render_example :
    (ns : List Text) × (splite_file_name (slash ∷ codes "a/../b") ≡ some ns)
    × (simplify_path (slash ∷ codes "a/../b") ≡ some (render (resolve [] ns)))
simplify_path-render_example = simplify_path-render (codes "a/../b")

get_user_path-resolve_example :
    (ms : List Text) × (splite_file_name (rooted (codes "../x")) ≡ some ms)
    × (get_user_path
          (codes "../x")
          (record { user_id = 1; workpath = path_of (codes "feng" ∷ codes "dir1" ∷ []) })
        ≡ some (
            render (resolve [] (start_of (codes "../x") (codes "feng") (codes "dir1" ∷ []) ++ ms))))
unfolding path_of
get_user_path-resolve_example =
    get_user_path-resolve (codes "feng") (codes "dir1" ∷ []) 1 b'.' (codes "./x") (omega arith)
      (omega arith)
