-- ===== src/Server/Liveness.antt =====
-- The server can always work off what it has.
use netdisk.Prelude.{
  ℕ, zero, suc, ◌+◌, ◌≤◌, ◌≡◌, refl, ap, ◌∙◌, false, List, [], ◌∷◌, some, if◌then◌else◌, length,
  count, count-append, arith, Option-cases, Bool-cases, inl, inr, ◌⊎◌, sym, subst, Bool, true, none,
}
use netdisk.Wire.{is_long}
use netdisk.TaskQueue.Seg.{Cell}
use netdisk.TaskQueue.{suits}
use netdisk.TaskQueue.Walk.{NoneSuits}
use netdisk.TaskQueue.Refine.{pick, oldest, serve, HeadFree}
use netdisk.Server.{Server, on_pipe, after_request}
use netdisk.Server.Steps.{total, over, places, take, finish, pipe, Works, stop, go, taken}
use netdisk.Server.Laws.{serve-total}
use netdisk.Server.Lost.{length-total}

pub Works-append : {s t u : Server} → Works s t → Works t u → Works s u
Works-append r stop = r
Works-append r (go q e own) = go (Works-append r q) e own

-- whether a request is a `puts` or `gets` over a descriptor, as a number
abbrev pub transfer : ℕ → Cell → ℕ
transfer fd c = if is_long c.train.command_no then over fd c else 0

-- the transfers over a descriptor that the server has to do
abbrev pub transfers : ℕ → Server → ℕ
transfers fd s = total (transfer fd) s.waiting + total (transfer fd) s.busy

-- No descriptor gets out of the server's hands but by a transfer.
abbrev pub Kept : Server → Server → Type 0
Kept s t = (fd : ℕ) → places fd t + transfers fd s ≡ places fd s + transfers fd t

pub pipe_all :
    (xs : List ℕ) (s : Server)
    → s.piped ≡ xs
    → s.exit ≡ false
    → (t : Server) × Works s t
      × (t.piped ≡ [])
      × (t.waiting ≡ s.waiting)
      × (t.busy ≡ s.busy)
      × Kept s t
pipe_all [] s e runs = (s, stop, e, refl, refl, λ fd. refl)
pipe_all (x ∷ xs) s e runs =
    let (t, r, none_piped, w, b, kept) = pipe_all xs (on_pipe x xs s) refl runs in
    (
      t,
      Works-append (go stop (pipe x xs e runs) tt) r,
      none_piped,
      w,
      b,
      λ fd. omega (arith, kept fd, ap (count fd) e),
    )

pub finish_all :
    (xs : List Cell) (s : Server)
    → s.busy ≡ xs
    → (t : Server) × Works s t
      × (t.busy ≡ [])
      × (t.waiting ≡ s.waiting)
      × (t.exit ≡ s.exit)
      × Kept s t
finish_all [] s e = (s, stop, e, refl, refl, λ fd. refl)
finish_all (c ∷ xs) s e =
    let (t, r, idle, w, x, kept) = finish_all xs (after_request c xs s) refl in
    (
      t,
      Works-append (go stop (finish [] c xs e) tt) r,
      idle,
      w,
      x,
      λ fd. ground (
        arith,
        kept fd,
        ap (total (over fd)) e,
        ap (total (transfer fd)) e,
        count-append fd s.piped (c.netfd ∷ []),
      ),
    )

-- The head of the queue is a short command, or no transfer waits behind it.
abbrev pub Clear : List Cell → Type 0
Clear [] = Unit {0}
Clear (c ∷ xs) = (is_long c.train.command_no ≡ false) ⊎ NoneSuits false xs

NoneSuits-Clear : (xs : List Cell) → NoneSuits false xs → Clear xs
NoneSuits-Clear [] h = tt
NoneSuits-Clear (c ∷ xs) h = inl h.0

pick-NoneSuits : (xs : List Cell) → pick false xs ≡ none → NoneSuits false xs
unfolding pick
pick-NoneSuits [] e = tt
pick-NoneSuits (c ∷ xs) e = elim (Bool-cases (is_long c.train.command_no)) [
  | inl hit ↦ absurd (ground (arith, e, hit))
  | inr miss ↦ elim (Option-cases (pick false xs)) [
    | inl f ↦ (miss, pick-NoneSuits xs f)
    | inr ((d, r), f) ↦ absurd (ground (arith, e, miss, f))
  ]
]

-- a worker that can take a request without losing the head, and what is left
abbrev pub Next : List Cell → Type 0
Next xs =
    (short : Bool) × (c : Cell) × (rest : List Cell) × HeadFree short xs
    × (serve short xs ≡ some (c, rest))
    × Clear rest

HeadFree-miss :
    (short : Bool) (c : Cell) (xs : List Cell)
    → suits short c.train.command_no ≡ false
    → HeadFree short (c ∷ xs)
HeadFree-miss short c [] e = tt
HeadFree-miss short c (d ∷ xs) e = e

-- Behind a short command a worker other than the short thread takes the first transfer, or else the head.
short-Next : (c : Cell) (xs : List Cell) → is_long c.train.command_no ≡ false → Next (c ∷ xs)
unfolding serve pick oldest
short-Next c xs short_head = elim (Option-cases (pick false xs)) [
  | inl f ↦ (
    false,
    c,
    xs,
    HeadFree-miss false c xs short_head,
    ground (arith, short_head, f),
    NoneSuits-Clear xs (pick-NoneSuits xs f),
  )
  | inr ((d, r), f) ↦ (
    false,
    d,
    c ∷ r,
    HeadFree-miss false c xs short_head,
    ground (arith, short_head, f),
    inl short_head,
  )
]

-- With a transfer at the head, the short thread takes the request behind it.
Clear-Next : (c : Cell) (xs : List Cell) → Clear (c ∷ xs) → Next (c ∷ xs)
unfolding serve pick
Clear-Next c xs (inl short_head) = short-Next c xs short_head
Clear-Next c [] (inr alone) = elim (Bool-cases (is_long c.train.command_no)) [
  | inl long ↦ (false, c, [], tt, ground (arith, long), tt)
  | inr short ↦ (false, c, [], tt, ground (arith, short), tt)
]
Clear-Next c (d ∷ xs) (inr alone) = elim (Bool-cases (is_long c.train.command_no)) [
  | inl long ↦ (true, d, c ∷ xs, ground (arith, long), ground (arith, long, alone.0), inr alone.1)
  | inr short ↦ short-Next c (d ∷ xs) short
]

pub take_all :
    (n : ℕ) (s : Server) (xs : List Cell)
    → s.waiting ≡ xs
    → s.dangling ≡ false
    → Clear xs
    → length xs ≤ n
    → (t : Server) × Works s t × (t.waiting ≡ []) × (t.exit ≡ s.exit) × Kept s t
take_all n s [] e whole clear fuel = (s, stop, e, refl, λ fd. refl)
take_all zero s (c ∷ xs) e whole clear fuel = absurd (omega arith)
take_all (suc n) s (c ∷ xs) e whole clear fuel =
    let (short, d, rest, free, served, clear') = Clear-Next c xs clear in
    let weigh = λ (w : Cell → ℕ). ap (total w) e ∙ serve-total short w (c ∷ xs) d rest served in
    let (t, r, empty, x, kept) = take_all n (taken d rest s) rest refl whole clear' (
      omega (
        arith,
        fuel,
        serve-total short (λ c. 1) (c ∷ xs) d rest served,
        length-total xs,
        length-total rest,
      )) in
    let first =
      take short d rest whole (subst (HeadFree short) (sym e) free) (ap (serve short) e ∙ served) in
    (
      t,
      Works-append (go stop first tt) r,
      empty,
      x,
      λ fd. omega (arith, kept fd, weigh (over fd), weigh (transfer fd)),
    )
