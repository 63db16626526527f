-- ===== src/Transfer/Again.antt =====
-- A `puts` of a new file that is broken off and asked for again, as the whole of `recv_file`.
use netdisk.Prelude.{ℕ, ◌<◌, ◌≡◌, ◌≢◌, List, Option, none, some, length, drop, get_or, pos, arith}
use netdisk.Wire.{Text}
use netdisk.Tool.Argument.{splite_argument}
use netdisk.Tool.FileName.{get_file_name}
use netdisk.Tool.UserPath.{TokenInfo, get_user_path}
use netdisk.Catalog.Tables.{Session}
use netdisk.Catalog.Directory.{Collation}
use netdisk.Catalog.Transfer.{query_puts, query_update}
use netdisk.Catalog.Lifecycle.{Fresh, puts_twice}
use netdisk.Transfer.{page_floor}
use netdisk.Transfer.Loop.{bytes_of, Paged}
use netdisk.Transfer.Server.{Disk, PutsDone, receive, puts_switch, recv_file}
use netdisk.Transfer.Client.{puts_hello}
use netdisk.Transfer.Resume.{receive_resumed}

-- The upload of a new file under a new name, of which more than the last page is missing when it is broken off, leaves
-- the tables as `query_puts`, with the result 1, made them. Asked for again and taken up
-- with the bytes from the last page on, it ends with the file noted as complete, although what is stored is not
-- the file. The first missing byte is not 0, and both times the bytes come in whole pages but for the last block.
pub recv_file_resumed :
    (sql : Collation) (generate : TokenInfo → Option Text) (page : ℕ) (s : Session) (disk : Disk)
    (digest : Text → Text) (argument local net name path file : Text) (info : TokenInfo) (d : ℕ)
    (blocks blocks' : List Text)
    → splite_argument argument ≡ some (local, net)
    → get_file_name local ≡ some name
    → get_user_path net info ≡ some path
    → Fresh sql s path name (digest file) info.user_id d
    → disk (digest file) ≡ none
    → length (bytes_of blocks) < page_floor page (length file)
    → get_or file (length (bytes_of blocks)) 0 ≢ 0
    → bytes_of blocks' ≡ drop (page_floor page (length file)) file
    → Paged page blocks
    → Paged page blocks'
    → (s1 : Session) × (first : PutsDone) × (second : PutsDone) × (stored : Text) × (query_puts sql
          s path name
          (digest file)
          info.user_id
        ≡ some (pos 1, s1))
      × (recv_file sql generate page s disk argument info none (puts_hello digest file) blocks
          ≡ some first)
      × (first.session ≡ s1)
      × (recv_file sql generate page first.session first.disk argument info none
            (puts_hello digest file)
            blocks'
          ≡ some second)
      × (second.session ≡ (query_update sql s1 (digest file)).1)
      × (second.disk (digest file) ≡ some stored)
      × (stored ≢ file)
unfolding recv_file puts_switch
recv_file_resumed sql generate page s disk digest argument local net name path file info d blocks
      blocks' arg at_name at_path fresh new missing wrong is paged paged' =
    let (s1, asked, again) = puts_twice sql s path name (digest file) info.user_id d fresh in
    let hello = puts_hello digest file in
    let first = receive sql generate page s1 disk hello blocks in
    let second = receive sql generate page first.session first.disk hello blocks' in
    let (same, noted, (stored, there, other)) =
      receive_resumed sql generate page s1 disk digest file blocks blocks' new missing wrong is
        paged paged' in
    let asked_again : query_puts sql first.session path name (digest file) info.user_id
        ≡ some (pos 1, first.session) =
      rw same again in
    (
      s1,
      first,
      second,
      stored,
      asked,
      ground (arith, arg, at_name, at_path, asked),
      same,
      ground (arith, arg, at_name, at_path, asked_again),
      noted,
      there,
      other,
    )
