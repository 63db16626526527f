-- ===== src/Config/Tests.antt =====
-- Both readers on a small file.
use netdisk.Prelude.{map, List, [], ◌∷◌, none, some, ◌≡◌, refl}
use netdisk.Wire.{Text}
use netdisk.Config.{read_config, getparameter}
use netdisk.Config.Laws.{Entry, line_of, copied}

-- ip=12 and port=80
abbrev entries : List Entry
entries =
    ((b'i' ∷ b'p' ∷ []), (b'1' ∷ b'2' ∷ []))
    ∷ ((b'p' ∷ b'o' ∷ b'r' ∷ b't' ∷ []), (b'8' ∷ b'0' ∷ []))
    ∷ []

abbrev port : Text
port = b'p' ∷ b'o' ∷ b'r' ∷ b't' ∷ []

-- a request that is a part of a key: the server finds the line, the client does not
part_of_a_key :
    (read_config (map line_of entries) (b'p' ∷ b'o' ∷ []) ≡ some (some (b'8' ∷ b'0' ∷ [])))
    × (getparameter (map line_of entries) (b'p' ∷ b'o' ∷ []) ≡ some (copied none))
unfolding read_config getparameter
part_of_a_key = (refl, refl)

whole_key :
    (read_config (map line_of entries) port ≡ some (some (b'8' ∷ b'0' ∷ [])))
    × (getparameter (map line_of entries) port ≡ some (copied (some (b'8' ∷ b'0' ∷ []))))
unfolding read_config getparameter
whole_key = (refl, refl)
