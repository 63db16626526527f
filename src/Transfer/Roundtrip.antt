-- ===== src/Transfer/Roundtrip.antt =====
-- A file from one client to the server and back.
use native.Mathlib.Nat.{zero-div, zero-mod}
use netdisk.Prelude.{
  ℕ, ◌-◌, ◌*◌, ◌<◌, ◌≡◌, ap, ◌∙◌, true, List, [], ◌∷◌, ◌++◌, Option, none, some, length,
  length-append, pos, arith,
}
use netdisk.Wire.{Text, TransFile, text_eq_self}
use netdisk.Tool.Space.Words.{Lacks}
use netdisk.Tool.Argument.{splite_argument}
use netdisk.Tool.FileName.{slash, get_file_name, temp_size}
use netdisk.Tool.FileName.Last.{get_file_name-last}
use netdisk.Tool.UserPath.{TokenInfo, get_user_path}
use netdisk.Catalog.Tables.{Session}
use netdisk.Catalog.Directory.{Collation}
use netdisk.Catalog.Transfer.{query_puts, query_gets, query_update}
use netdisk.Catalog.Lifecycle.{Fresh, upload_lifecycle}
use netdisk.Command.MakeDir.{cut_last-at}
use netdisk.Transfer.{no_message, ftruncate, page_floor, recv_loop}
use netdisk.Transfer.Loop.{bytes_of, Paged, recv_loop-all}
use netdisk.Transfer.Bytes.{length-ftruncate}
use netdisk.Transfer.Server.{
  Disk, set_file, PutsDone, receive, puts_switch, recv_file, gets_switch, send_file,
}
use netdisk.Transfer.Client.{puts_hello, puts_File, gets_File}

-- A file that is not there yet is received whole.
new_file :
    (page : ℕ) (file : Text) (blocks : List Text)
    → bytes_of blocks ≡ file
    → Paged page blocks
    → recv_loop page (length file) blocks (page_floor page 0) (ftruncate [] (length file))
      ≡ (length file, file)
new_file page file blocks is paged =
    let start : page_floor page 0 ≡ 0 = ap (λ n. n * page) (zero-div page) ∙ omega arith in
    ap (λ n. recv_loop page (length file) blocks n (ftruncate [] (length file))) start
    ∙ recv_loop-all page (length file) 0 blocks (ftruncate [] (length file))
        (length-ftruncate [] (length file)) (zero-mod page) (omega (arith, ap length is)) paged
    ∙ ap (λ t. (length file, t)) is

-- what the server says before it sends a file
abbrev pub gets_hello : Text → TransFile
gets_hello file = record no_message { data_length = length file; flag = true }

module _ (sql : Collation) (generate : TokenInfo → Option Text) (digest : Text → Text)
    (page : ℕ) where
  puts_new :
      (s s1 s2 : Session) (disk : Disk) (argument local net name path file : Text)
      (info : TokenInfo) (blocks : List Text)
      → splite_argument argument ≡ some (local, net)
      → get_file_name local ≡ some name
      → get_user_path net info ≡ some path
      → disk (digest file) ≡ none
      → query_puts sql s path name (digest file) info.user_id ≡ some (pos 1, s1)
      → query_update sql s1 (digest file) ≡ (pos 0, s2)
      → bytes_of blocks ≡ file
      → Paged page blocks
      → recv_file sql generate page s disk argument info none (puts_hello digest file) blocks
        ≡ some (record {
          result = pos 0;
          sent =
              record (puts_hello digest file) { flag = true; data_length = page_floor page 0 }
              ∷ no_message
              ∷ [];
          session = s2;
          disk = set_file disk (digest file) file;
        })
  unfolding recv_file puts_switch receive
  puts_new s s1 s2 disk argument local net name path file info blocks arg at_name at_path new asked
        noted is paged =
      ground (arith, arg, at_name, at_path, new, asked, noted, new_file page file blocks is paged)

  gets_stored :
      (s : Session) (disk : Disk) (argument net local name file hash : Text) (c : ℕ) (path : Text)
      (info : TokenInfo)
      → splite_argument argument ≡ some (net, local)
      → get_user_path net info ≡ some ((c ∷ path) ++ slash ∷ name)
      → Lacks slash name
      → length name < temp_size
      → query_gets sql s.view (c ∷ path) name info.user_id ≡ some (pos 1, some hash)
      → disk hash ≡ some file
      → send_file sql generate page s.view disk argument info 0 ≡ some (gets_hello file ∷ [], file)
  unfolding send_file gets_switch
  gets_stored s disk argument net local name file hash c path info arg at_path plain short found
        stored =
      let named : get_file_name ((c ∷ path) ++ slash ∷ name) ≡ some name =
        (get_file_name-last (c ∷ path) name plain).0 ∙ ground (arith, short) in
      let len = length-append {0} (c ∷ path) (slash ∷ name) in
      let cut =
        cut_last-at c path name (length ((c ∷ path) ++ slash ∷ name) - 1) plain (omega (arith, len))
          (omega (arith, len)) in
      ground (arith, arg, at_path, named, cut, found, stored)

  -- A file whose digest is new, put under a new name into a directory of the user, is stored whole and noted as
  -- complete, with the change committed; a `gets` of that path then sends its bytes, and a client that
  -- has nothing of it ends with the same file. Both ways the bytes come in whole pages but for the last block, and the
  -- name and the digest fit the arrays of `user_file_t` and `file_t`.
  pub puts-gets :
      (s : Session) (disk : Disk) (argument local net name file : Text) (c : ℕ) (path : Text)
      (info : TokenInfo) (d : ℕ) (blocks : List Text) (argument' net' local' : Text)
      (blocks' : List Text)
      → splite_argument argument ≡ some (local, net)
      → get_file_name local ≡ some name
      → Lacks slash name
      → length name < temp_size
      → get_user_path net info ≡ some (c ∷ path)
      → Fresh sql s (c ∷ path) name (digest file) info.user_id d
      → disk (digest file) ≡ none
      → bytes_of blocks ≡ (puts_File file (record no_message { flag = true })).0
      → Paged page blocks
      → splite_argument argument' ≡ some (net', local')
      → get_user_path net' info ≡ some ((c ∷ path) ++ slash ∷ name)
      → bytes_of blocks' ≡ file
      → Paged page blocks'
      → (done : PutsDone) × (recv_file sql generate page s disk argument info none
            (puts_hello digest file)
            blocks
          ≡ some done)
        × (done.disk (digest file) ≡ some file)
        × (done.session.committed ≡ done.session.view)
        × (send_file sql generate page done.session.view done.disk argument' info 0
            ≡ some (gets_hello file ∷ [], file))
        × (gets_File page [] (gets_hello file) blocks' ≡ record {
          told = some (page_floor page 0);
          file = file;
          acknowledged = true;
          token = none;
        })
  unfolding puts_File gets_File
  puts-gets s disk argument local net name file c path info d blocks argument' net' local' blocks'
        arg at_name plain short at_path fresh new is paged arg' at_path' is' paged' =
      let (s1, s2, asked, wait, noted, found, committed) =
        upload_lifecycle sql s (c ∷ path) name (digest file) info.user_id d fresh in
      let stored : set_file disk (digest file) file (digest file) ≡ some file =
        ground (arith, text_eq_self (digest file)) in
      (
        _,
        puts_new s s1 s2 disk argument local net name (c ∷ path) file info blocks arg at_name
            at_path new asked noted is paged,
        stored,
        committed,
        gets_stored s2 (set_file disk (digest file) file) argument' net' local' name file
            (digest file) c path info arg' at_path' plain short found stored,
        ground (arith, new_file page file blocks' is' paged'),
      )
