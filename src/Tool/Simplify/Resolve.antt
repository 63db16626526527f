-- ===== src/Tool/Simplify/Resolve.antt =====
-- What a path means: its names, taken one after the other from the root.
use mathlib.Core.List.{reverse}
use netdisk.Prelude.{List, [], ◌∷◌, ◌==◌, if◌then◌else◌, ◌&&◌}
use netdisk.Wire.{Text}
use netdisk.Tool.FileName.{slash}
use netdisk.Tool.FileName.Names.{path_of}
use netdisk.Tool.Simplify.{dot}

-- The directories passed, the deepest first. An empty name and "." stay, ".." leaves the deepest
-- directory, or stays at the root.
abbrev pub leave : List Text → List Text
leave [] = []
leave (d ∷ dirs) = dirs

unfoldable pub enter : List Text → Text → List Text
enter dirs [] = dirs
enter dirs (a ∷ []) = if a == dot then dirs else (a ∷ []) ∷ dirs
enter dirs (a ∷ b ∷ []) = if (a == dot) && (b == dot) then leave dirs else (a ∷ b ∷ []) ∷ dirs
enter dirs (a ∷ b ∷ c ∷ n) = (a ∷ b ∷ c ∷ n) ∷ dirs

unfoldable pub resolve : List Text → List Text → List Text
unfolding enter
resolve dirs [] = dirs
resolve dirs (n ∷ ns) = resolve (enter dirs n) ns

-- the absolute path of a directory
abbrev pub render : List Text → Text
render [] = slash ∷ []
render (d ∷ dirs) = path_of (reverse (d ∷ dirs))
