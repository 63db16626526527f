-- ===== src/Client/PathTests.antt =====
-- The client's paths on small inputs, and the theorems there.
use netdisk.Prelude.{◌+◌, ◌<◌, ◌≡◌, [], ◌∷◌, ◌++◌, some, codes, length, arith}
use netdisk.Wire.{TransFile}
use netdisk.Tool.Space.{space}
use netdisk.Tool.Space.Words.{Lacks}
use netdisk.Tool.FileName.{slash}
use netdisk.Client.{train_of}
use netdisk.Client.Paths.{get_file_name}
use netdisk.Client.PathLaws.{get_file_name-slash}

g-plain : Lacks slash (codes "g")
g-plain = ((λ e. absurd (omega (arith, e))), tt)

get_file_name-slash_example :
    (get_file_name (codes "/d" ++ slash ∷ codes "g") ≡ some (codes "/g", 2))
    × (get_file_name (codes "g") ≡ some (codes "/g", 2))
    × (2 < length (codes "/g") + 1)
get_file_name-slash_example = get_file_name-slash (codes "/d") (codes "g") g-plain (omega arith)

abbrev puts : TransFile
puts = train_of [] (codes "puts" ++ (space ∷ (codes "g" ++ (space ∷ codes "d")))) 5

abbrev gets : TransFile
gets = train_of [] (codes "gets" ++ (space ∷ (codes "g" ++ (space ∷ codes "d")))) 6
