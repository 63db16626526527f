-- ===== src/Transfer/Client.antt =====
-- `puts_File` and `gets_File` of client/pthread.c. `digest` is `generate_digest`.
use netdisk.Prelude.{
  ℕ, Bool, not, false, List, [], Option, none, some, if◌then◌else◌, length, drop, ltb,
}
use netdisk.Wire.{Text, TransFile}
use netdisk.Transfer.{no_message, ftruncate, page_floor, recv_loop}

-- the first message of `puts_File`
abbrev pub puts_hello : (digest : Text → Text) → (file : Text) → TransFile
puts_hello digest file = record no_message { body = digest file; data_length = length file }

-- The bytes that `puts_File` sends after the server's answer, and the token that it keeps if the server
-- refuses.
unfoldable pub puts_File : (file : Text) → (answer : TransFile) → Text × Option Text
puts_File file answer =
    if answer.flag then (drop answer.data_length file, none) else ([], some answer.token)

-- What `gets_File` comes to: the length it tells the server, the local file, whether it has sent the last
-- message, and the token that it keeps if the server refuses.
pub record GotFile : Type 0 where
  pub told : Option ℕ
  pub file : Text
  pub acknowledged : Bool
  pub token : Option Text

unfoldable pub gets_File :
    (page : ℕ) → (file : Text) → (hello : TransFile) → (blocks : List Text) → GotFile
gets_File page file hello blocks =
    let cur_size = page_floor page (length file) in
    let (size, file') =
      recv_loop page hello.data_length blocks cur_size (ftruncate file hello.data_length) in
    if hello.flag
    then record {
      told = some cur_size;
      file = file';
      acknowledged = not (ltb size hello.data_length);
      token = none;
    }
    else record { told = none; file = file; acknowledged = false; token = some hello.token }
