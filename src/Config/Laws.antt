-- ===== src/Config/Laws.antt =====
-- What both readers find in a file of entries.
use netdisk.Prelude.{
  ◌≡◌, ◌≢◌, List, [], ◌∷◌, ◌++◌, Option, none, some, if◌then◌else◌, pos, ℤ, minus_one,
}
use netdisk.Wire.{Text, text_eq}
use netdisk.Tool.Space.{newline}
use netdisk.Tool.Space.Words.{Lacks}
use netdisk.Token.{is_prefix}
use netdisk.Config.{equals, nothing_found}

abbrev pub Entry : Type 0
Entry = Text × Text

abbrev pub line_of : Entry → Text
line_of (key, value) = key ++ (equals ∷ (value ++ newline ∷ []))

-- the value of the first entry with a key
abbrev pub lookup : Text → List Entry → Option Text
lookup key [] = none
lookup key ((k, v) ∷ es) = if text_eq key k then some v else lookup key es

-- an entry that both readers can read beside a request: key and value have no equals sign, the key is not empty,
-- and the request is not just a part of it
abbrev pub Readable : Text → Entry → Type 0
Readable request (key, value) =
    (key ≢ [])
    × Lacks equals key
    × Lacks equals value
    × (is_prefix request key ≡ text_eq request key)

-- the result of the client's reader: the value is copied with its newline
abbrev pub copied : Option Text → ℤ × Text
copied none = (minus_one, nothing_found)
copied (some value) = (pos 0, value ++ newline ∷ [])
