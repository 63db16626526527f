-- ===== src/Transfer/Resume.antt =====
-- What a transfer comes to that is broken off and taken up again.
use native.Mathlib.Nat.{zero-div, zero-mod, mul-mod_left, div-mul-le_self}
use netdisk.Prelude.{
  ℕ, zero, suc, ◌+◌, ◌*◌, ◌/◌, ◌≤◌, ◌<◌, ◌≡◌, ◌≢◌, refl, ap, sym, ◌∙◌, Bool, true, List, [], ◌∷◌,
  ◌++◌, Option, none, some, ◌==◌, if◌then◌else◌, length, take, drop, get_or, arith,
}
use netdisk.Tool.UserPath.{TokenInfo}
use netdisk.Wire.{Text, TransFile, text_eq_self}
use netdisk.Catalog.Tables.{Session}
use netdisk.Catalog.Directory.{Collation}
use netdisk.Catalog.Transfer.{query_update}
use netdisk.Transfer.{ftruncate, write_at, page_floor, Received, recv_loop}
use netdisk.Transfer.Loop.{bytes_of, Paged, recv_loop-write_at, recv_loop-all}
use netdisk.Transfer.Bytes.{length-ftruncate, length-write_at, length-take}
use netdisk.Transfer.Server.{Disk, opened, puts_end, receive}
use netdisk.Transfer.Client.{puts_hello}

get_or-new : (n i : ℕ) → get_or (ftruncate [] n) i 0 ≡ 0
get_or-new zero i = refl
get_or-new (suc n) zero = refl
get_or-new (suc n) (suc i) = get_or-new n i

get_or-left : (a b : Text) (i : ℕ) → i < length a → get_or (a ++ b) i 0 ≡ get_or a i 0
get_or-left [] b i h = absurd (omega arith)
get_or-left (x ∷ a) b zero h = refl
get_or-left (x ∷ a) b (suc i) h = get_or-left a b i (omega arith)

get_or-take : (a : Text) (n i : ℕ) → i < n → get_or (take n a) i 0 ≡ get_or a i 0
get_or-take a zero i h = absurd (omega arith)
get_or-take [] (suc n) i h = refl
get_or-take (x ∷ a) (suc n) zero h = refl
get_or-take (x ∷ a) (suc n) (suc i) h = get_or-take a n i (omega arith)

get_or-behind : (a b : Text) → get_or (a ++ b) (length a) 0 ≡ get_or b 0 0
get_or-behind [] b = refl
get_or-behind (x ∷ a) b = get_or-behind a b

get_or-drop : (b : Text) (n : ℕ) → get_or (drop n b) 0 0 ≡ get_or b n 0
get_or-drop b zero = refl
get_or-drop [] (suc n) = refl
get_or-drop (y ∷ b) (suc n) = get_or-drop b n

-- In a file of which only the first bytes were written, the next byte is 0.
written-next :
    (n : ℕ) (bytes : Text) → get_or (write_at (ftruncate [] n) 0 bytes) (length bytes) 0 ≡ 0
written-next n bytes =
    get_or-behind bytes (drop (0 + length bytes) (ftruncate [] n))
    ∙ get_or-drop (ftruncate [] n) (0 + length bytes)
    ∙ get_or-new n (0 + length bytes)

length-drop : (a : Text) (n : ℕ) → n ≤ length a → n + length (drop n a) ≡ length a
length-drop a zero h = omega arith
length-drop [] (suc n) h = absurd (omega arith)
length-drop (x ∷ a) (suc n) h = omega (arith, length-drop a n (omega arith))

module _ (page : ℕ) where
  -- the file that the first attempt leaves
  abbrev left_behind : Text → List Text → Text
  left_behind file blocks = write_at (ftruncate [] (length file)) 0 (bytes_of blocks)

  -- the first attempt: the loop stops where the blocks end
  broken :
      (file : Text) (blocks : List Text)
      → length (bytes_of blocks) < length file
      → Paged page blocks
      → recv_loop page (length file) blocks (page_floor page 0) (ftruncate [] (length file))
        ≡ (length (bytes_of blocks), left_behind file blocks)
  broken file blocks short paged =
      let start : page_floor page 0 ≡ 0 = ap (λ n. n * page) (zero-div page) ∙ omega arith in
      ap (λ n. recv_loop page (length file) blocks n (ftruncate [] (length file))) start
      ∙ recv_loop-write_at page (length file) 0 blocks (ftruncate [] (length file))
          (length-ftruncate [] (length file)) (zero-mod page) (omega arith) paged
      ∙ ap (λ n. (n, left_behind file blocks)) (omega arith)

  length-left_behind :
      (file : Text) (blocks : List Text)
      → length (bytes_of blocks) < length file
      → length (left_behind file blocks) ≡ length file
  length-left_behind file blocks short =
      length-write_at (ftruncate [] (length file)) 0 (bytes_of blocks)
        (omega (arith, length-ftruncate [] (length file)))
      ∙ length-ftruncate [] (length file)

  ftruncate_same : (a : Text) (n : ℕ) → length a ≡ n → ftruncate a n ≡ a
  ftruncate_same [] zero e = refl
  ftruncate_same [] (suc n) e = absurd (omega (arith, e))
  ftruncate_same (x ∷ a) zero e = absurd (omega (arith, e))
  ftruncate_same (x ∷ a) (suc n) e = ap (◌∷◌ x) (ftruncate_same a n (omega (arith, e)))

  -- the second attempt starts at the last page of the file's full length
  resumed :
      (file : Text) (blocks blocks' : List Text)
      → length (bytes_of blocks) < length file
      → bytes_of blocks' ≡ drop (page_floor page (length file)) file
      → Paged page blocks'
      → let old = left_behind file blocks in
        recv_loop page
          (length file)
          blocks'
          (page_floor page (length old))
          (ftruncate old (length file))
        ≡ (length file, take (page_floor page (length file)) old ++ bytes_of blocks')
  resumed file blocks blocks' short is paged =
      let old = left_behind file blocks in
      let len = length-left_behind file blocks short in
      let start = page_floor page (length file) in
      ap
        (λ n.
          recv_loop page (length file) blocks' (page_floor page n) (ftruncate old (length file)))
        len
      ∙ ap (recv_loop page (length file) blocks' start) (ftruncate_same old (length file) len)
      ∙ recv_loop-all page (length file) start blocks' old len
          (mul-mod_left (length file / page) page)
          (ap (λ t. start + length t) is
            ∙ length-drop file start (div-mul-le_self (length file) page))
          paged

module _ (sql : Collation) (generate : TokenInfo → Option Text) (page : ℕ) where
  -- what `receive` comes to by the file there and the result of the loop
  receive_at :
      (s : Session) (disk : Disk) (hello : TransFile) (blocks : List Text) (old : Text) (size : ℕ)
      (out : Text)
      → opened (disk hello.body) ≡ old
      → recv_loop page hello.data_length blocks
          (page_floor page (length old))
          (ftruncate old hello.data_length)
        ≡ (size, out)
      → let done = receive sql generate page s disk hello blocks in
        (done.session
          ≡ (if size == hello.data_length then (query_update sql s hello.body).1 else s))
        × (done.disk hello.body ≡ some out)
  unfolding receive
  receive_at s disk hello blocks old size out there loop =
      let reply =
        λ (o : Text). record hello { flag = true; data_length = page_floor page (length o) } in
      let looped = λ (o : Text).
        recv_loop page hello.data_length blocks (page_floor page (length o))
          (ftruncate o hello.data_length) in
      let end = λ (o : Text) (got : Received).
        puts_end sql generate page s disk hello.body hello.data_length (reply o) got in
      let e : receive sql generate page s disk hello blocks ≡ end old (size, out) =
        ap (λ o. end o (looped o)) there ∙ ap (end old) loop in
      (
        ap (λ d. d.session) e,
        ap (λ d. d.disk hello.body) e
            ∙ ap (λ (b : Bool). if b then some out else disk hello.body) (text_eq_self hello.body),
      )

  -- The receipt of a new file that is broken off where more than the file's last page is missing changes no
  -- table itself. Taken up again with the bytes from the last page on, it ends with the file noted as complete,
  -- although what is stored is not the file. The first missing byte is not 0.
  pub receive_resumed :
      (s : Session) (disk : Disk) (digest : Text → Text) (file : Text) (blocks blocks' : List Text)
      → disk (digest file) ≡ none
      → length (bytes_of blocks) < page_floor page (length file)
      → get_or file (length (bytes_of blocks)) 0 ≢ 0
      → bytes_of blocks' ≡ drop (page_floor page (length file)) file
      → Paged page blocks
      → Paged page blocks'
      → let first = receive sql generate page s disk (puts_hello digest file) blocks in
        let second =
          receive sql generate page first.session first.disk (puts_hello digest file) blocks' in
        (first.session ≡ s)
        × (second.session ≡ (query_update sql s (digest file)).1)
        × ((stored : Text) × (second.disk (digest file) ≡ some stored) × (stored ≢ file))
  receive_resumed s disk digest file blocks blocks' new missing wrong is paged paged' =
      let short : length (bytes_of blocks) < length file =
        omega (arith, div-mul-le_self (length file) page) in
      let hello = puts_hello digest file in
      let old = left_behind page file blocks in
      let stored = take (page_floor page (length file)) old ++ bytes_of blocks' in
      let first = receive sql generate page s disk hello blocks in
      let one =
        receive_at s disk hello blocks [] (length (bytes_of blocks)) old (ap opened new)
          (broken page file blocks short paged) in
      let same : first.session ≡ s = ground (arith, one.0, short) in
      let bound = div-mul-le_self (length file) page in
      let zero_there : get_or stored (length (bytes_of blocks)) 0 ≡ 0 =
        get_or-left (take (page_floor page (length file)) old) (bytes_of blocks')
          (length (bytes_of blocks))
          (omega (
            arith,
            missing,
            bound,
            length-left_behind page file blocks short,
            length-take old (page_floor page (length file))
                (omega (arith, bound, length-left_behind page file blocks short)),
          ))
        ∙ get_or-take old (page_floor page (length file)) (length (bytes_of blocks)) missing
        ∙ written-next (length file) (bytes_of blocks) in
      let two =
        receive_at first.session first.disk hello blocks' old (length file) stored (ap opened one.1)
          (resumed page file blocks blocks' short is paged') in
      (
        same,
        (ground (arith, two.0)) ∙ ap (λ t. (query_update sql t (digest file)).1) same,
        (
          stored,
          two.1,
          λ e. wrong (ap (λ t. get_or t (length (bytes_of blocks)) 0) (sym e) ∙ zero_there),
        ),
      )
