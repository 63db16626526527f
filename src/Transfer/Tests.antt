-- ===== src/Transfer/Tests.antt =====
-- Transfers with pages of two bytes, and the theorems at them.
use netdisk.Prelude.{
  pos, if◌then◌else◌, ltb, ◌++◌, length, append_assoc, append-nil, ◌↔◌, ◌≤◌, ◌≡◌, ◌≢◌, refl, true,
  List, [], ◌∷◌, Option, none, some, arith, codes, pos,
}
use netdisk.Wire.{Text}
use netdisk.Tool.Argument.{splite_argument}
use netdisk.Tool.FileName.{slash, splite_file_name, get_file_name}
use netdisk.Tool.Simplify.{simplify_path}
use netdisk.Tool.UserPath.{TokenInfo, get_user_path}
use netdisk.Catalog.Directory.{query_cd, cd_in, confirm}
use netdisk.Catalog.Transfer.{query_update}
use netdisk.Catalog.MakeDir.{Below}
use netdisk.Catalog.Lifecycle.{Fresh}
use netdisk.Catalog.Sample.{sql, tables, session}
use netdisk.Transfer.{no_message, page_floor, recv_loop}
use netdisk.Transfer.Loop.{bytes_of, Paged, recv_loop_unaligned}
use netdisk.Transfer.Server.{Disk, PutsDone, recv_file, send_file}
use netdisk.Transfer.Client.{puts_hello, puts_File, gets_File}
use netdisk.Transfer.Roundtrip.{gets_hello, puts-gets}
use netdisk.Token.Hex.{string_to_hex}
use netdisk.Transfer.Bounds.{recv_loop_bounds}
use netdisk.Transfer.Digest.{Sha, generate_digest, match_digest, match_digest-generate_digest}
use netdisk.Transfer.Again.{recv_file_resumed}
use netdisk.Catalog.Tables.{Session}
use netdisk.Catalog.Transfer.{query_puts}

-- a token, whatever the claims
abbrev generate : TokenInfo → Option Text
generate info = some (codes "t")

abbrev digest : Text → Text
digest file = codes "k"

abbrev disk : Disk
disk name = none

abbrev ann : TokenInfo
ann = record { user_id = 1; workpath = codes "/ann/a" }

abbrev file : Text
file = codes "abcde"

-- two blocks, of a page and more
abbrev blocks : List Text
blocks = codes "abcd" ∷ codes "e" ∷ []

blocks-Paged : Paged 2 blocks
blocks-Paged = (omega arith, refl, omega arith)

ann_a-Below : Below 4 tables.user_files
ann_a-Below = (omega arith, (omega arith, (omega arith, (omega arith, tt))))

there : query_cd tables (codes "/ann/a") 1 ≡ some (pos 2)
unfolding query_cd cd_in confirm splite_file_name
there = refl

g-Fresh : Fresh sql session (codes "/ann/a") (codes "g") (codes "k") 1 1
g-Fresh = record {
  at = there;
  no_name = refl;
  no_hash = refl;
  name_fits = omega arith;
  hash_fits = omega arith;
  rows = ann_a-Below;
  files = (omega arith, (omega arith, (omega arith, tt)));
}

puts_words : splite_argument (codes "g .") ≡ some (codes "g", codes ".")
unfolding splite_argument
puts_words = refl

name_g : get_file_name (codes "g") ≡ some (codes "g")
unfolding get_file_name
name_g = refl

in_a : get_user_path (codes ".") ann ≡ some (codes "/ann/a")
unfolding get_user_path splite_file_name simplify_path
in_a = refl

at_g : get_user_path (codes "g") ann ≡ some (codes "/ann/a/g")
unfolding get_user_path splite_file_name simplify_path
at_g = refl

sent : bytes_of blocks ≡ (puts_File file (record no_message { flag = true })).0
unfolding puts_File
sent = refl

puts-gets_example :
    (done : PutsDone) × (recv_file sql generate 2 session disk
        (codes "g .")
        ann
        none
        (puts_hello digest file)
        blocks
      ≡ some done)
    × (done.disk (codes "k") ≡ some file)
    × (done.session.committed ≡ done.session.view)
    × (send_file sql generate 2 done.session.view done.disk (codes "g .") ann 0
        ≡ some (gets_hello file ∷ [], file))
    × (gets_File 2 [] (gets_hello file) blocks
        ≡ record { told = some (page_floor 2 0); file = file; acknowledged = true; token = none })
puts-gets_example =
    puts-gets sql generate digest 2 session disk (codes "g .") (codes "g") (codes ".") (codes "g")
      file slash (codes "ann/a") ann 1 blocks (codes "g .") (codes "g") (codes ".") blocks
      puts_words name_g ((λ e. absurd (omega (arith, e))), tt) (omega arith) in_a g-Fresh refl sent
      blocks-Paged puts_words at_g refl blocks-Paged

recv_file_resumed_example :
    (s1 : Session) × (first : PutsDone) × (second : PutsDone) × (stored : Text) × (query_puts sql
        session
        (codes "/ann/a")
        (codes "g")
        (codes "k")
        1
      ≡ some (pos 1, s1))
    × (recv_file sql generate 2 session disk
          (codes "g .")
          ann
          none
          (puts_hello digest file)
          (codes "ab" ∷ [])
        ≡ some first)
    × (first.session ≡ s1)
    × (recv_file sql generate 2 first.session first.disk
          (codes "g .")
          ann
          none
          (puts_hello digest file)
          (codes "e" ∷ [])
        ≡ some second)
    × (second.session ≡ (query_update sql s1 (codes "k")).1)
    × (second.disk (codes "k") ≡ some stored)
    × (stored ≢ file)
recv_file_resumed_example =
    recv_file_resumed sql generate 2 session disk digest (codes "g .") (codes "g") (codes ".")
      (codes "g") (codes "/ann/a") file ann 1 (codes "ab" ∷ []) (codes "e" ∷ []) puts_words name_g
      in_a g-Fresh refl (omega arith) (λ e. absurd (omega (arith, e))) refl (omega arith)
      (omega arith)

recv_loop_unaligned_example :
    recv_loop 2 5 (codes "abc" ∷ codes "de" ∷ []) 0 (codes "-----") ≡ (3, codes "abc--")
recv_loop_unaligned_example =
    recv_loop_unaligned 2 5 0 (codes "abc") (codes "de" ∷ []) (codes "-----") refl
      (λ e. absurd (omega (arith, e))) (omega arith)

-- a hash that is the text itself
abbrev sha : Sha
sha = record {
  Context = Text;
  init = [];
  update = λ c a. c ++ a;
  final = λ c. c;
  update-append = append_assoc;
  update_nothing = append-nil;
}

match_digest-generate_digest_example :
    (generate_digest sha (2 ∷ 2 ∷ 1 ∷ []) file ≡ string_to_hex file)
    × (match_digest sha (2 ∷ 2 ∷ 1 ∷ []) file (generate_digest sha (5 ∷ 0 ∷ []) file) ≡ true
        ↔ (string_to_hex file ≡ string_to_hex file))
match_digest-generate_digest_example =
    match_digest-generate_digest sha (2 ∷ 2 ∷ 1 ∷ []) (5 ∷ 0 ∷ []) file file refl refl

recv_loop_bounds_example :
    let (end, file') = recv_loop 2 5 (codes "abc" ∷ codes "de" ∷ []) 0 (codes "-----") in
    (0 ≤ end) × (end ≤ (if ltb 5 0 then 0 else 5)) × (length file' ≡ 5)
recv_loop_bounds_example =
    recv_loop_bounds 2 5 0 (codes "abc" ∷ codes "de" ∷ []) (codes "-----") refl
