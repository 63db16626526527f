-- ===== src/Catalog/Register.antt =====
-- A new account: `user_register`, then `get_user` and the user's own directory.
use netdisk.Prelude.{
  ℕ, length, ◌<◌, ◌≡◌, refl, ap, sym, ◌∙◌, List, [], ◌∷◌, some, ◌==◌, arith, All, pos,
}
use netdisk.Wire.{Text, text_eq_self}
use netdisk.Tool.Space.Words.{Lacks}
use netdisk.Tool.FileName.{slash, splite_file_name}
use netdisk.Tool.FileName.Names.{path_of-single, splite_file_name-path_of}
use netdisk.Catalog.Tables.{
  file_name_size, User, UserFile, Session, select, order_by, autocommit_off,
}
use netdisk.Catalog.Directory.{Collation, confirm, cd_in, query_cd}
use netdisk.Catalog.Fits.{select_last-none, query_cd-rows}
use netdisk.Catalog.Account.{users_named, insert_account, get_user, user_register}

-- no row belongs to the user
abbrev pub NoRows : ℕ → List UserFile → Type 0
NoRows user_id = All (λ r. ¬ (r.user_id ≡ user_id))

select-NoRows :
    (user_id : ℕ) (l : List UserFile) → NoRows user_id l → select (λ r. r.user_id == user_id) l ≡ []
select-NoRows user_id [] h = refl
select-NoRows user_id (x ∷ l) h = ground (arith, h.0, select-NoRows user_id l h.1)

-- A free account name without a slash, of at most 127 bytes, is registered under the next id, with the change committed: `get_user`
-- then returns the row with the hashed password, and `query_cd` finds the user's own directory, a new file,
-- under a slash and the name.
pub user_register-get_user :
    (sql : Collation) (s : Session) (account hash_word : Text)
    → users_named sql account s.view ≡ []
    → NoRows s.view.next_user s.view.user_files
    → Lacks slash account
    → length account < file_name_size
    → (s' : Session) × (user_register sql s account hash_word ≡ (pos s.view.next_user, s'))
      × (get_user sql s'.view account
          ≡ some (record { id = s.view.next_user; name = account; password = hash_word } ∷ []))
      × (query_cd s'.view (slash ∷ account) s.view.next_user ≡ some (pos s.view.next_file))
      × (s'.committed ≡ s'.view)
unfolding user_register get_user cd_in confirm
user_register-get_user sql s account hash_word free no_rows plain short =
    let row : UserFile = record {
      id = s.view.next_user_file;
      name = account;
      user_id = s.view.next_user;
      file_id = s.view.next_file;
      parent_id = 0;
    } in
    let own =
      select_last-none (λ r. r.user_id == s.view.next_user) s.view.user_files row
        (select-NoRows s.view.next_user s.view.user_files no_rows) (ground arith) in
    let user : User = record { id = s.view.next_user; name = account; password = hash_word } in
    let named =
      select_last-none (λ u. sql.equal u.name account) s.view.users user free
        (sql.equal_refl account) in
    let names =
      ap splite_file_name (sym (path_of-single account))
      ∙ splite_file_name-path_of account [] (plain, tt) in
    (
      insert_account sql account hash_word (autocommit_off s),
      ground (arith, free),
      ground (arith, named),
      query_cd-rows (insert_account sql account hash_word (autocommit_off s)).view (slash ∷ account)
            s.view.next_user (row ∷ []) (ap (order_by (λ r. r.file_id)) own) (ground (arith, short))
          ∙ rw (names, cd_in) (ground (arith, text_eq_self account)),
      refl,
    )
