-- ===== src/Transfer/Loop.antt =====
-- What the receiving loop writes.
use native.Mathlib.Nat.{add-mod, zero-mod, mod-mod}
use netdisk.Prelude.{
  ℕ, ◌+◌, ◌%◌, ◌≤◌, ◌<◌, ◌≡◌, ◌≢◌, refl, ap, sym, ◌∙◌, Bool, true, false, List, [], ◌∷◌, ◌++◌,
  append-nil, ◌==◌, ◌&&◌, length, length-append, take, ltb, arith,
}
use netdisk.Wire.{Text}
use netdisk.Transfer.{write_at, count_of, recv_loop}
use netdisk.Transfer.Bytes.{take_all, drop_all, length-write_at, take-drop, write_at_twice}

-- the bytes of the blocks
abbrev pub bytes_of : List Text → Text
bytes_of [] = []
bytes_of (b ∷ blocks) = b ++ bytes_of blocks

-- No block is empty, and all but the last are whole pages.
abbrev pub Paged : ℕ → List Text → Type 0
Paged page [] = Unit {0}
Paged page (b ∷ []) = 0 < length b
Paged page (b ∷ c ∷ blocks) = (0 < length b) × (length b % page ≡ 0) × Paged page (c ∷ blocks)

recv_step :
    (page file_size b : ℕ) (buf : Text) (blocks : List Text) (offset : ℕ) (file : Text)
    → offset % page ≡ 0
    → offset + length (b ∷ buf) ≤ file_size
    → recv_loop page file_size ((b ∷ buf) ∷ blocks) offset file
      ≡ recv_loop page file_size blocks (offset + length (b ∷ buf)) (write_at file offset (b ∷ buf))
unfolding recv_loop
recv_step page file_size b buf blocks offset file at fits =
    let go : (ltb offset file_size && (offset % page == 0)) ≡ true = ground (arith, at, fits) in
    let whole : count_of file_size offset (length (b ∷ buf)) ≡ length (b ∷ buf) = ground arith in
    ap
      (λ (t : Bool). elim t [
        | false ↦ (offset, file)
        | true ↦
            let count = count_of file_size offset (length (b ∷ buf)) in
            recv_loop page file_size blocks (offset + count)
              (write_at file offset (take count (b ∷ buf)))
      ])
      go
    ∙ ap
        (λ k.
          recv_loop page file_size blocks (offset + k) (write_at file offset (take k (b ∷ buf))))
        whole
    ∙ ap (λ t. recv_loop page file_size blocks (offset + length (b ∷ buf)) (write_at file offset t))
        (take_all (b ∷ buf))

mod_sum : (a b page : ℕ) → a % page ≡ 0 → b % page ≡ 0 → (a + b) % page ≡ 0
mod_sum a b page h k = add-mod a b page ∙ rw (h, k) (zero-mod page)

-- From a page boundary on, blocks that are whole pages but for the last one are all written, one behind the
-- other, and the loop ends behind the last.
pub recv_loop-write_at :
    (page file_size offset : ℕ) (blocks : List Text) (file : Text)
    → length file ≡ file_size
    → offset % page ≡ 0
    → offset + length (bytes_of blocks) ≤ file_size
    → Paged page blocks
    → recv_loop page file_size blocks offset file
      ≡ (offset + length (bytes_of blocks), write_at file offset (bytes_of blocks))
unfolding recv_loop
recv_loop-write_at page file_size offset [] file size at sum paged =
    let n : offset ≡ offset + 0 = omega arith in cc (n, sym (take-drop offset file))
recv_loop-write_at page file_size offset ([] ∷ []) file size at sum paged =
    absurd (omega (arith, paged))
recv_loop-write_at page file_size offset ([] ∷ c ∷ blocks) file size at sum paged =
    absurd (omega (arith, paged.0))
recv_loop-write_at page file_size offset ((b ∷ buf) ∷ []) file size at sum paged =
    recv_step page file_size b buf [] offset file at
      (omega (arith, sum, length-append {0} (b ∷ buf) []))
    ∙ ap (λ (t : Text). (offset + length t, write_at file offset t)) (sym (append-nil (b ∷ buf)))
recv_loop-write_at page file_size offset ((b ∷ buf) ∷ c ∷ blocks) file size at sum paged =
    let len = length-append {0} (b ∷ buf) (bytes_of (c ∷ blocks)) in
    let fits : offset + length (b ∷ buf) ≤ file_size = omega (arith, sum, len) in
    let n : offset + length (b ∷ buf) + length (bytes_of (c ∷ blocks))
        ≡ offset + length (bytes_of ((b ∷ buf) ∷ c ∷ blocks)) =
      omega (arith, len) in
    recv_step page file_size b buf (c ∷ blocks) offset file at fits
    ∙ recv_loop-write_at page file_size (offset + length (b ∷ buf)) (c ∷ blocks)
        (write_at file offset (b ∷ buf))
        (length-write_at file offset (b ∷ buf) (omega (arith, fits, size)) ∙ size)
        (mod_sum offset (length (b ∷ buf)) page at paged.1) (omega (arith, sum, len)) paged.2
    ∙ cc (
      n,
      write_at_twice file offset (b ∷ buf) (bytes_of (c ∷ blocks)) (omega (arith, sum, len, size)),
    )

-- Where the blocks are all that is missing, the loop ends at the size of the file, and the file is its old
-- part with their bytes.
pub recv_loop-all :
    (page file_size offset : ℕ) (blocks : List Text) (file : Text)
    → length file ≡ file_size
    → offset % page ≡ 0
    → offset + length (bytes_of blocks) ≡ file_size
    → Paged page blocks
    → recv_loop page file_size blocks offset file ≡ (file_size, take offset file ++ bytes_of blocks)
recv_loop-all page file_size offset blocks file size at sum paged =
    recv_loop-write_at page file_size offset blocks file size at (omega (arith, sum)) paged
    ∙ cc (
      sum,
      drop_all file (offset + length (bytes_of blocks)) (omega (arith, sum, size)),
      append-nil (bytes_of blocks),
    )

-- A block that is not a whole number of pages, with bytes still missing behind it, ends the loop: `recv` may
-- return any part of what was sent, and the next `mmap` is at an offset that it refuses.
pub recv_loop_unaligned :
    (page file_size offset : ℕ) (block : Text) (blocks : List Text) (file : Text)
    → offset % page ≡ 0
    → length block % page ≢ 0
    → offset + length block < file_size
    → recv_loop page file_size (block ∷ blocks) offset file
      ≡ (offset + length block, write_at file offset block)
unfolding recv_loop
recv_loop_unaligned page file_size offset [] blocks file at odd short = absurd (odd (zero-mod page))
recv_loop_unaligned page file_size offset (b ∷ buf) blocks file at odd short =
    recv_step page file_size b buf blocks offset file at (omega arith) ∙ stops blocks
  where
    off : (offset + length (b ∷ buf)) % page ≢ 0
    off e = odd (
        sym (mod-mod (length (b ∷ buf)) page)
        ∙ sym (add-mod offset (length (b ∷ buf)) page ∙ rw at (ap (λ k. k % page) (omega arith)))
        ∙ e)

    stops :
        (rest : List Text)
        → recv_loop page file_size rest (offset + length (b ∷ buf)) (write_at file offset (b ∷ buf))
          ≡ (offset + length (b ∷ buf), write_at file offset (b ∷ buf))
    stops [] = refl
    stops ([] ∷ rest) = refl
    stops ((c ∷ more) ∷ rest) = ground (arith, off)
