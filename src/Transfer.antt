-- ===== src/Transfer.antt =====
-- Files on their way (server/file_change.c, client/pthread.c): the loop that `recv_file` and `gets_File` share,
-- over a file as its bytes. `page` is what `sysconf(_SC_PAGE_SIZE)` returns.
pub mod Bytes
pub mod Loop
pub mod Server
pub mod Client
pub mod Digest
pub mod Roundtrip
pub mod Resume
pub mod Again
pub mod Bounds
mod Tests
use netdisk.Prelude.{
  ℕ, zero, suc, ◌+◌, ◌-◌, ◌*◌, ◌/◌, ◌%◌, Bool, true, false, List, [], ◌∷◌, ◌++◌, ◌==◌, ◌&&◌,
  if◌then◌else◌, not, length, take, drop, ltb, leb,
}
use netdisk.Wire.{Text, TransFile}

-- `memset(&trans, 0, sizeof(trans))`
abbrev pub no_message : TransFile
no_message = record { body = []; data_length = 0; command_no = 0; flag = false; token = [] }

abbrev pub zeros : ℕ → Text
zeros zero = []
zeros (suc n) = 0 ∷ zeros n

-- `ftruncate`: cuts a file, or extends it by zeros
abbrev pub ftruncate : Text → ℕ → Text
ftruncate [] n = zeros n
ftruncate (b ∷ file) zero = []
ftruncate (b ∷ file) (suc n) = b ∷ ftruncate file n

-- `memcpy` into the bytes of a file from `offset` on
abbrev pub write_at : Text → (offset : ℕ) → Text → Text
write_at file offset bytes = take offset file ++ (bytes ++ drop (offset + length bytes) file)

-- `offset = (offset/page_size)*page_size`
abbrev pub page_floor : (page : ℕ) → ℕ → ℕ
page_floor page offset = (offset / page) * page

-- where the loop stops, and the file then
abbrev pub Received : Type 0
Received = ℕ × Text

-- `count = offset+recv_num>file_size?file_size-offset:recv_num`
abbrev pub count_of : (file_size offset recv_num : ℕ) → ℕ
count_of file_size offset recv_num =
    if ltb file_size (offset + recv_num) then file_size - offset else recv_num

-- `while (offset < file_size)`, for the blocks that `recv` returns one after the other; the empty block and the
-- end of the list are its results that are not positive. `mmap` fails at an offset that is not a
-- multiple of the page size.
unfoldable pub recv_loop : (page file_size : ℕ) → List Text → (offset : ℕ) → Text → Received
recv_loop page file_size [] offset file = (offset, file)
recv_loop page file_size ([] ∷ blocks) offset file = (offset, file)
recv_loop page file_size ((b ∷ buf) ∷ blocks) offset file =
    elim (ltb offset file_size && (offset % page == 0)) [
      | false ↦ (offset, file)
      | true ↦
          let count = count_of file_size offset (length (b ∷ buf)) in
          recv_loop page file_size blocks (offset + count)
            (write_at file offset (take count (b ∷ buf)))
    ]
