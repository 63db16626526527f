-- ===== src/Catalog/Tests.antt =====
-- The statements of server/deal_sql.c on small tables, and their theorems there.
use netdisk.Prelude.{
  ℕ, ◌≡◌, inl, inr, refl, true, List, [], ◌∷◌, ◌++◌, none, some, arith, All, codes, pos,
}
use netdisk.Wire.{Text}
use netdisk.Tool.FileName.{slash, splite_file_name}
use netdisk.Tool.FileName.Names.{path_of}
use netdisk.Tool.Space.Words.{Lacks}
use netdisk.Catalog.Tables.{UserFile, Tables, Session}
use netdisk.Catalog.Directory.{
  confirm, rows_of, cd_in, query_cd, make_in, insert_named_dir, query_mkdir, query_ls, query_ll,
  remove_file_row, remove_in, query_remove,
}
use netdisk.Catalog.Transfer.{puts_same_name, puts_in, query_puts, query_gets, query_update}
use netdisk.Catalog.Sample.{sql, dir_row, file_row, link, tables, session}
use netdisk.Catalog.Tables.{exec}
use netdisk.Catalog.Directory.{delete_links}
use netdisk.Catalog.Chain.{Chain, Unique, query_cd-Chain, query_cd_complete}
use netdisk.Catalog.MakeDir.{Below, query_mkdir-cd}
use netdisk.Catalog.Lifecycle.{Fresh, upload_lifecycle}

found : query_cd tables (codes "/ann/a") 1 ≡ some (pos 2)
unfolding query_cd cd_in confirm splite_file_name
found = refl

lost : query_cd tables (codes "/ann/b") 1 ≡ some (pos 0)
unfolding query_cd cd_in confirm splite_file_name
lost = refl

listed :
    query_ls tables (codes "/ann") 1
    ≡ some (some (link 2 (codes "a") 1 2 1 ∷ link 3 (codes "f") 1 3 1 ∷ []))
unfolding query_ls query_cd cd_in confirm splite_file_name
listed = refl

listed_long :
    query_ll tables (codes "/ann") 1 ≡ some (some (dir_row 2 ∷ file_row 3 (codes "h") true ∷ []))
unfolding query_ll query_cd cd_in confirm splite_file_name
listed_long = refl

put_again :
    query_puts sql session (codes "/ann/a") (codes "f") (codes "h") 1 ≡ some (pos 2, session)
unfolding query_puts puts_in puts_same_name query_cd cd_in confirm splite_file_name
put_again = refl

not_empty : query_remove sql session (codes "/ann") (codes "a") 1 ≡ some (pos 2, session)
unfolding query_remove remove_in remove_file_row query_cd cd_in confirm splite_file_name
not_empty = refl

query_cd-Chain_example :
    (first : UserFile) × (rows : List UserFile) × (names : List Text) × (rows_of 1 tables
      ≡ first ∷ rows)
    × (splite_file_name (codes "/ann/a") ≡ some names)
    × Chain (first ∷ rows) first.parent_id names 2
query_cd-Chain_example = query_cd-Chain tables (codes "/ann/a") 1 1 found

abbrev one_each : Tables
one_each = record tables { user_files = link 1 (codes "ann") 1 1 0 ∷ link 2 (codes "a") 1 2 1 ∷ [] }

one_each-Unique : Unique (rows_of 1 one_each)
one_each-Unique = (((λ e. absurd (omega (arith, e))), tt), (tt, tt))

ann_names : splite_file_name (codes "/ann/a") ≡ some (codes "ann" ∷ codes "a" ∷ [])
unfolding splite_file_name
ann_names = refl

query_cd_complete_example : query_cd one_each (codes "/ann/a") 1 ≡ some (pos 2)
query_cd_complete_example =
    query_cd_complete one_each (codes "/ann/a") 1 2 (link 1 (codes "ann") 1 1 0)
      (link 2 (codes "a") 1 2 1 ∷ []) (codes "ann" ∷ codes "a" ∷ []) refl one_each-Unique ann_names
      refl
      (
        link 1 (codes "ann") 1 1 0,
        inl refl,
        refl,
        refl,
        omega arith,
        (link 2 (codes "a") 1 2 1, inr (inl refl), refl, refl, omega arith, refl),
      )

abbrev with_dir : Session
with_dir = insert_named_dir sql 2 (codes "b") 1 session

mkdir_made :
    query_mkdir sql session (path_of (codes "ann" ∷ codes "a" ∷ [])) (codes "b") 1
    ≡ some (pos 2, with_dir)
unfolding query_mkdir make_in query_cd cd_in confirm splite_file_name path_of
mkdir_made = refl

ann_a-plain : All (Lacks slash) (codes "ann" ∷ codes "a" ∷ [])
ann_a-plain = (
  (
    (λ e. absurd (omega (arith, e))),
    ((λ e. absurd (omega (arith, e))), ((λ e. absurd (omega (arith, e))), tt)),
  ),
  (((λ e. absurd (omega (arith, e))), tt), tt),
)

b-plain : Lacks slash (codes "b")
b-plain = ((λ e. absurd (omega (arith, e))), tt)

tables-Below : Below 4 tables.user_files
tables-Below = (omega arith, (omega arith, (omega arith, (omega arith, tt))))

query_mkdir-cd_example :
    (query_cd with_dir.view (path_of (codes "ann" ∷ codes "a" ∷ []) ++ slash ∷ codes "b") 1
      ≡ some (pos 4))
    × (with_dir.committed ≡ with_dir.view)
    × (with_dir.autocommit ≡ true)
query_mkdir-cd_example =
    query_mkdir-cd sql session with_dir (codes "ann") (codes "b") (codes "a" ∷ []) 1 ann_a-plain
      b-plain (omega arith) tables-Below mkdir_made

g-Fresh : Fresh sql session (codes "/ann/a") (codes "g") (codes "k") 1 1
g-Fresh = record {
  at = found;
  no_name = refl;
  no_hash = refl;
  name_fits = omega arith;
  hash_fits = omega arith;
  rows = tables-Below;
  files = (omega arith, (omega arith, (omega arith, tt)));
}

upload_lifecycle_example :
    (s1 : Session) × (s2 : Session) × (query_puts sql session
        (codes "/ann/a")
        (codes "g")
        (codes "k")
        1
      ≡ some (pos 1, s1))
    × (query_gets sql s1.view (codes "/ann/a") (codes "g") 1 ≡ some (pos 0, none))
    × (query_update sql s1 (codes "k") ≡ (pos 0, s2))
    × (query_gets sql s2.view (codes "/ann/a") (codes "g") 1 ≡ some (pos 1, some (codes "k")))
    × (s2.committed ≡ s2.view)
upload_lifecycle_example =
    upload_lifecycle sql session (codes "/ann/a") (codes "g") (codes "k") 1 1 g-Fresh

apart : ¬ (◌≡◌ {A = ℕ} 1 2)
apart e = absurd (omega (arith, e))

-- the file f is in two directories
abbrev without_f : Session
without_f = exec (delete_links sql 3 1) session
