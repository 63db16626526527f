-- ===== src/Client/Strtok.antt =====
-- `strtok` of the C library, for one delimiter: its documented behaviour, with what is left for the next call.
use netdisk.Prelude.{ℕ, [], ◌∷◌, Option, none, some, ◌==◌, if◌then◌else◌}
use netdisk.Wire.{Text}

-- the rest of a token, and the text behind its delimiter
abbrev pub token_from : ℕ → Text → Text × Text
token_from delim [] = ([], [])
token_from delim (c ∷ s) =
    if c == delim then ([], s) else (c ∷ (token_from delim s).0, (token_from delim s).1)

-- the next token, and NULL without one
abbrev pub strtok : ℕ → Text → Option (Text × Text)
strtok delim [] = none
strtok delim (c ∷ s) =
    let rest = strtok delim s in
    if c == delim then rest else some (c ∷ (token_from delim s).0, (token_from delim s).1)
