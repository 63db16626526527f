-- ===== src/Transfer/Server.antt =====
-- `recv_file` and `send_file` of server/file_change.c: the commands `puts` and `gets`. The directory `data` of
-- the server is `Disk`; what the client sends, and the blocks in which `recv` returns it, are arguments.
use netdisk.Prelude.{
  ℕ, zero, suc, ◌-◌, ◌^◌, true, false, List, [], ◌∷◌, Option, none, some, ◌==◌, if◌then◌else◌,
  length, drop, ℤ, pos, negsuc, minus_one,
}
use netdisk.Wire.{Text, TransFile, text_eq}
use netdisk.Tool.Argument.{splite_argument}
use netdisk.Tool.FileName.{get_file_name}
use netdisk.Tool.UserPath.{TokenInfo, get_user_path}
use netdisk.Catalog.Tables.{Tables, Session}
use netdisk.Catalog.Directory.{Collation}
use netdisk.Catalog.Transfer.{query_puts, query_gets, query_update}
use netdisk.Command.{send_message}
use netdisk.Command.Change.{cut_last}
use netdisk.Transfer.{no_message, ftruncate, page_floor, Received, recv_loop}

-- the files under `data` by their names
abbrev pub Disk : Type 0
Disk = Text → Option Text

abbrev pub set_file : Disk → Text → Text → Disk
set_file disk name file n = if text_eq n name then some file else disk n

-- the bytes of a file that `O_CREAT` opens
abbrev pub opened : Option Text → Text
opened none = []
opened (some file) = file

-- what a `puts` comes to: the result, the messages sent, the tables and the files
pub record PutsDone : Type 0 where
  pub result : ℤ
  pub sent : List TransFile
  pub session : Session
  pub disk : Disk

-- "服务器繁忙，请稍候重试"
abbrev pub puts_busy : Text
puts_busy =
    230 ∷ 156 ∷ 141 ∷ 229 ∷ 138 ∷ 161 ∷ 229 ∷ 153 ∷ 168 ∷ 231 ∷ 185 ∷ 129 ∷ 229 ∷ 191 ∷ 153 ∷ 239
    ∷ 188 ∷ 140 ∷ 232 ∷ 175 ∷ 183 ∷ 231 ∷ 168 ∷ 141 ∷ 229 ∷ 128 ∷ 153 ∷ 233 ∷ 135 ∷ 141 ∷ 232 ∷ 175
    ∷ 149 ∷ []

-- "无效的路径，请重试"
abbrev pub puts_path : Text
puts_path =
    230 ∷ 151 ∷ 160 ∷ 230 ∷ 149 ∷ 136 ∷ 231 ∷ 154 ∷ 132 ∷ 232 ∷ 183 ∷ 175 ∷ 229 ∷ 190 ∷ 132 ∷ 239
    ∷ 188 ∷ 140 ∷ 232 ∷ 175 ∷ 183 ∷ 233 ∷ 135 ∷ 141 ∷ 232 ∷ 175 ∷ 149 ∷ []

-- "该目录下有同名文件，请检查"
abbrev pub puts_taken : Text
puts_taken =
    232 ∷ 175 ∷ 165 ∷ 231 ∷ 155 ∷ 174 ∷ 229 ∷ 189 ∷ 149 ∷ 228 ∷ 184 ∷ 139 ∷ 230 ∷ 156 ∷ 137 ∷ 229
    ∷ 144 ∷ 140 ∷ 229 ∷ 144 ∷ 141 ∷ 230 ∷ 150 ∷ 135 ∷ 228 ∷ 187 ∷ 182 ∷ 239 ∷ 188 ∷ 140 ∷ 232 ∷ 175
    ∷ 183 ∷ 230 ∷ 163 ∷ 128 ∷ 230 ∷ 159 ∷ 165 ∷ []

-- "上传成功"
abbrev pub puts_there : Text
puts_there = 228 ∷ 184 ∷ 138 ∷ 228 ∷ 188 ∷ 160 ∷ 230 ∷ 136 ∷ 144 ∷ 229 ∷ 138 ∷ 159 ∷ []

-- "服务器错误"
abbrev pub gets_error : Text
gets_error =
    230 ∷ 156 ∷ 141 ∷ 229 ∷ 138 ∷ 161 ∷ 229 ∷ 153 ∷ 168 ∷ 233 ∷ 148 ∷ 153 ∷ 232 ∷ 175 ∷ 175 ∷ []

-- "不合法的路径或文件不存在"
abbrev pub gets_path : Text
gets_path =
    228 ∷ 184 ∷ 141 ∷ 229 ∷ 144 ∷ 136 ∷ 230 ∷ 179 ∷ 149 ∷ 231 ∷ 154 ∷ 132 ∷ 232 ∷ 183 ∷ 175 ∷ 229
    ∷ 190 ∷ 132 ∷ 230 ∷ 136 ∷ 150 ∷ 230 ∷ 150 ∷ 135 ∷ 228 ∷ 187 ∷ 182 ∷ 228 ∷ 184 ∷ 141 ∷ 229 ∷ 173
    ∷ 152 ∷ 229 ∷ 156 ∷ 168 ∷ []

module _ (sql : Collation) (generate : TokenInfo → Option Text) (page : ℕ) where
  -- The end of `recv_file`, for what the loop returns.
  abbrev pub puts_end :
      Session
      → Disk
      → (hash_value : Text) → (file_size : ℕ) → (reply : TransFile) → Received
      → PutsDone
  puts_end s disk hash_value file_size reply (offset, file) = record {
    result = pos 0;
    sent = reply ∷ no_message ∷ [];
    session = if offset == file_size then (query_update sql s hash_value).1 else s;
    disk = set_file disk hash_value file;
  }

  -- `recv_file` from the opening of the file on
  unfoldable pub receive : Session → Disk → (hello : TransFile) → (blocks : List Text) → PutsDone
  receive s disk hello blocks =
      let old = opened (disk hello.body) in
      let offset = page_floor page (length old) in
      puts_end s disk hello.body hello.data_length
        (record hello { flag = true; data_length = offset })
        (recv_loop page hello.data_length blocks offset (ftruncate old hello.data_length))

  abbrev pub refused : Text → Session → Disk → TokenInfo → PutsDone
  refused msg s disk info = record {
    result = pos 0;
    sent = send_message generate msg false info ∷ [];
    session = s;
    disk = disk;
  }

  -- `switch (ret)` on what `query_puts` returns, and the rest. `open_error` is the text of the error if the
  -- file cannot be opened.
  unfoldable pub puts_switch :
      (ret : ℤ)
      → Session
      → Disk
      → TokenInfo
      → (open_error : Option Text) → (hello : TransFile) → (blocks : List Text) → PutsDone
  unfolding receive
  puts_switch (negsuc (suc zero)) s disk info open_error hello blocks =
      refused puts_busy s disk info
  puts_switch (negsuc zero) s disk info open_error hello blocks = refused puts_path s disk info
  puts_switch (pos zero) s disk info open_error hello blocks = refused puts_taken s disk info
  puts_switch (pos (suc (suc zero))) s disk info open_error hello blocks =
      refused puts_there s disk info
  puts_switch _ s disk info (some msg) hello blocks = record (refused msg s disk info) {
    result = minus_one;
  }
  puts_switch _ s disk info none hello blocks = receive s disk hello blocks

  -- `hello` is what the first `recv` leaves in `trans`. Without two words in the argument the code follows a
  -- NULL.
  unfoldable pub recv_file :
      Session
      → Disk
      → (argument : Text) → TokenInfo
      → (open_error : Option Text) → (hello : TransFile) → (blocks : List Text) → Option PutsDone
  unfolding puts_switch
  recv_file s disk argument info open_error hello blocks = elim (splite_argument argument) [
    | none ↦ none
    | some (local, net) ↦ elim (get_file_name local) [
      | none ↦ none
      | some file_name ↦ elim (get_user_path net info) [
        | none ↦ none
        | some user_path ↦ elim (query_puts sql s user_path file_name hello.body info.user_id) [
          | none ↦ none
          | some (ret, s') ↦ some (puts_switch ret s' disk info open_error hello blocks)
        ]
      ]
    ]
  ]

  -- what a `gets` comes to: the messages, and the bytes that `sendfile` sends
  abbrev pub GetsDone : Type 0
  GetsDone = List TransFile × Text

  -- -1 as an `int`
  abbrev pub int_minus_one : ℕ
  int_minus_one = 2 ^ 32 - 1

  -- `send_file` from the opening of the file on. Without the file the code goes on with the size -1. The
  -- offset of the file is that of `lseek`; behind the end of the file nothing is sent.
  abbrev pub send_from : Option Text → TokenInfo → (client_size : ℕ) → GetsDone
  send_from none info client_size = (
    send_message generate gets_error false info
        ∷ record no_message { data_length = int_minus_one; flag = true }
        ∷ [],
    [],
  )
  send_from (some file) info client_size =
      (record no_message { data_length = length file; flag = true } ∷ [], drop client_size file)

  unfoldable pub gets_switch : ℤ × Option Text → Disk → TokenInfo → (client_size : ℕ) → GetsDone
  gets_switch (negsuc zero, hash) disk info client_size =
      (send_message generate gets_error false info ∷ [], [])
  gets_switch (pos zero, hash) disk info client_size =
      (send_message generate gets_path false info ∷ [], [])
  gets_switch (ret, none) disk info client_size = send_from (disk []) info client_size
  gets_switch (ret, some hash) disk info client_size = send_from (disk hash) info client_size

  -- `client_size` is the length in the client's answer. The test of `recv_file`, a function, where the size
  -- received is meant is never true.
  unfoldable pub send_file :
      Tables → Disk → (argument : Text) → TokenInfo → (client_size : ℕ) → Option GetsDone
  unfolding gets_switch
  send_file t disk argument info client_size = elim (splite_argument argument) [
    | none ↦ none
    | some (net, local) ↦ elim (get_user_path net info) [
      | none ↦ none
      | some user_path ↦ elim (get_file_name user_path) [
        | none ↦ none
        | some file_name ↦
            elim (query_gets sql t (cut_last (length user_path - 1) user_path) file_name
              info.user_id) [
                | none ↦ none
                | some found ↦ some (gets_switch found disk info client_size)
              ]
      ]
    ]
  ]
