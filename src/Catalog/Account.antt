-- ===== src/Catalog/Account.antt =====
-- `get_user` and `user_register` of server/deal_sql.c.
use netdisk.Prelude.{List, [], ◌∷◌, Option, none, some, ℤ, pos}
use netdisk.Wire.{Text}
use netdisk.Catalog.Tables.{
  User, Tables, Session, select, exec, autocommit_off, autocommit_on, commit, insert_user,
  insert_dir, insert_user_file,
}
use netdisk.Catalog.Directory.{Collation}

module _ (sql : Collation) where
  -- `select * from user where name = …`
  abbrev pub users_named : Text → Tables → List User
  users_named name t = select (λ u. sql.equal u.name name) t.users

  -- NULL, or the rows
  unfoldable pub get_user : Tables → Text → Option (List User)
  get_user t user_name = elim (users_named user_name t) [ [] ↦ none | u ∷ us ↦ some (u ∷ us) ]

  -- The three inserts and the commit. `hash_word` is the password as `encrypt_password` returns it.
  abbrev pub insert_account : Text → Text → Session → Session
  insert_account account hash_word s =
      let s1 = exec (insert_user account hash_word) s in
      let s2 = exec insert_dir s1 in
      let s3 = exec (insert_user_file account s.view.next_user s.view.next_file 0) s2 in
      autocommit_on (commit s3)

  -- the user's id, or 0 if the name is taken
  unfoldable pub user_register : Session → Text → Text → ℤ × Session
  user_register s account hash_word =
      let off = autocommit_off s in
      elim (users_named account s.view) [
        | [] ↦ (pos s.view.next_user, insert_account account hash_word off)
        | u ∷ us ↦ (pos 0, off)
      ]
