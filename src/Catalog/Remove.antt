-- ===== src/Catalog/Remove.antt =====
-- What `query_remove` may change.
use netdisk.Prelude.{ℕ, ◌≡◌, ◌⊎◌, Bool, true, not, [], Option, none, some, ◌==◌, ◌&&◌, ℤ, pos}
use netdisk.Catalog.Tables.{UserFile, Session, select, some_row}

-- whether the row is a link of the user to the file
abbrev pub is_link : ℕ → ℕ → UserFile → Bool
is_link file_id user_id r = (r.file_id == file_id) && (r.user_id == user_id)

-- whether the row belongs to somebody else
abbrev pub of_others : ℕ → UserFile → Bool
of_others user_id r = not (r.user_id == user_id)

-- what a removal may come to
abbrev pub Removed : Session → ℕ → ℤ × Session → Type 0
Removed s user_id (k, s') =
    (select (of_others user_id) s'.view.user_files ≡ select (of_others user_id) s.view.user_files)
    × (s'.view.files ≡ s.view.files)
    × (s'.view.users ≡ s.view.users)
    × ((s' ≡ s)
        ⊎ ((k ≡ pos 0)
            × ((file_id : ℕ) × (some_row (is_link file_id user_id) s.view.user_files ≡ true)
                × (select (is_link file_id user_id) s'.view.user_files ≡ []))))

-- a result that is none, or as it may be
abbrev Allowed : Session → ℕ → Option (ℤ × Session) → Type 0
Allowed s user_id none = Unit {0}
Allowed s user_id (some r) = Removed s user_id r
