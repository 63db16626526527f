-- ===== src/Transfer/Bounds.antt =====
-- Where the receiving loop can write.
use netdisk.Prelude.{
  ℕ, ◌+◌, ◌%◌, ◌≤◌, ◌≡◌, ◌∙◌, Bool, true, false, List, [], ◌∷◌, ◌==◌, ◌&&◌, length, take, ltb,
  arith, if◌then◌else◌, Bool-cases, inl, inr, refl,
}
use netdisk.Wire.{Text}
use netdisk.Transfer.{write_at, count_of, recv_loop}
use netdisk.Transfer.Bytes.{length-write_at, length-take}

-- a count is not more than what was received, nor than what is missing
count_of_bound :
    (file_size offset n : ℕ)
    → offset ≤ file_size
    → (count_of file_size offset n ≤ n) × (offset + count_of file_size offset n ≤ file_size)
count_of_bound file_size offset n h = (ground (arith, h), ground (arith, h))

-- from an offset in the file on
within_bounds :
    (page file_size offset : ℕ) (blocks : List Text) (file : Text)
    → length file ≡ file_size
    → offset ≤ file_size
    → let (end, file') = recv_loop page file_size blocks offset file in
      (offset ≤ end) × (end ≤ file_size) × (length file' ≡ file_size)
unfolding recv_loop
within_bounds page file_size offset [] file size within = (omega arith, within, size)
within_bounds page file_size offset ([] ∷ blocks) file size within = (omega arith, within, size)
within_bounds page file_size offset ((b ∷ buf) ∷ blocks) file size within =
    go (ltb offset file_size && (offset % page == 0)) (
      within_bounds page file_size (offset + count_of file_size offset (length (b ∷ buf))) blocks
        next same bound.1)
  where
    count : ℕ
    count = count_of file_size offset (length (b ∷ buf))

    bound : (count ≤ length (b ∷ buf)) × (offset + count ≤ file_size)
    bound = count_of_bound file_size offset (length (b ∷ buf)) within

    taken : length (take count (b ∷ buf)) ≡ count
    taken = length-take (b ∷ buf) count bound.0

    next : Text
    next = write_at file offset (take count (b ∷ buf))

    same : length next ≡ file_size
    same =
        length-write_at file offset (take count (b ∷ buf)) (omega (arith, taken, bound.1, size))
        ∙ size

    go :
        (t : Bool)
        → (let (end, file') = recv_loop page file_size blocks (offset + count) next in
            (offset + count ≤ end) × (end ≤ file_size) × (length file' ≡ file_size))
        → let (end, file') = elim t as (λ _. ℕ × Text) [
          | false ↦ (offset, file)
          | true ↦ recv_loop page file_size blocks (offset + count) next
        ] in
          (offset ≤ end) × (end ≤ file_size) × (length file' ≡ file_size)
    go false ih = (omega arith, within, size)
    go true ih = (omega (arith, ih.0), ih.1, ih.2)

-- A loop that begins at the end of the file or past it does nothing.
recv_loop-past :
    (page file_size offset : ℕ) (blocks : List Text) (file : Text)
    → file_size ≤ offset
    → recv_loop page file_size blocks offset file ≡ (offset, file)
unfolding recv_loop
recv_loop-past page file_size offset [] file past = refl
recv_loop-past page file_size offset ([] ∷ blocks) file past = refl
recv_loop-past page file_size offset ((b ∷ buf) ∷ blocks) file past = ground (arith, past)

-- Whatever `recv` returns, on a file of the size that the other side has told the loop keeps that size. It ends at an
-- offset that is not before the one at which it began; and not past the size, if it began there or before,
-- while a loop that began past the size ends where it began.
pub recv_loop_bounds :
    (page file_size offset : ℕ) (blocks : List Text) (file : Text)
    → length file ≡ file_size
    → let (end, file') = recv_loop page file_size blocks offset file in
      (offset ≤ end)
      × (end ≤ (if ltb file_size offset then offset else file_size))
      × (length file' ≡ file_size)
recv_loop_bounds page file_size offset blocks file size = elim (Bool-cases (ltb file_size offset)) [
  | inl past ↦
      let still : recv_loop page file_size blocks offset file ≡ (offset, file) =
        recv_loop-past page file_size offset blocks file (ground (arith, past)) in
      rw (past, still) (omega arith, omega arith, size)
  | inr within ↦
      rw within (within_bounds page file_size offset blocks file size (ground (arith, within)))
]
