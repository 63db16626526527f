-- ===== src/Server/Steps.antt =====
-- The steps of the main thread and the workers, in any order. A descriptor that `accept` returns is new. Any
-- number of workers may be at work at once. Nobody takes a step with the queue once its head dangles: what
-- `enqueue` and `dequeue` do with it then is not defined.
use netdisk.Prelude.{
  ℕ, ◌+◌, ◌≡◌, Bool, true, false, List, [], ◌∷◌, ◌++◌, some, count, ◌==◌, if◌then◌else◌,
}
use netdisk.TaskQueue.{suits}
use netdisk.TaskQueue.Seg.{Cell}
use netdisk.TaskQueue.Refine.{serve, HeadFree}
use netdisk.Server.{
  Server, on_listen, on_pipe, on_request, on_hang_up, work_process_quit, after_request,
}

-- the sum of the weights of some requests
abbrev pub total : (Cell → ℕ) → List Cell → ℕ
total weight [] = 0
total weight (c ∷ xs) = weight c + total weight xs

-- whether a request came over a descriptor, as a number
abbrev pub over : ℕ → Cell → ℕ
over fd c = if c.netfd == fd then 1 else 0

-- how often a descriptor is in the hands of the server
abbrev pub places : ℕ → Server → ℕ
places fd s =
    count fd s.watched + total (over fd) s.waiting + total (over fd) s.busy + count fd s.piped

-- a worker has the request
abbrev pub taken : Cell → List Cell → Server → Server
taken c rest s = record s { waiting = rest; busy = c ∷ s.busy }

-- `dequeue` takes the head with others behind it in `take_head`, and frees it while `queue->head` stays.
pub data Step : Server → Server → Type 0 where
  connect : {s : Server} (fd : ℕ) → places fd s ≡ 0 → s.exit ≡ false → Step s (on_listen fd s)
  pipe :
      {s : Server} (fd : ℕ) (others : List ℕ)
      → s.piped ≡ fd ∷ others
      → s.exit ≡ false
      → Step s (on_pipe fd others s)
  request :
      {s : Server} (c : Cell)
      → count c.netfd s.watched ≡ 1
      → s.exit ≡ false
      → s.dangling ≡ false
      → Step s (on_request c s)
  hang_up :
      {s : Server} (fd : ℕ) → count fd s.watched ≡ 1 → s.exit ≡ false → Step s (on_hang_up fd s)
  quit : {s : Server} → Step s (work_process_quit s)
  take :
      {s : Server} (short : Bool) (c : Cell) (rest : List Cell)
      → s.dangling ≡ false
      → HeadFree short s.waiting
      → serve short s.waiting ≡ some (c, rest)
      → Step s (taken c rest s)
  take_head :
      {s : Server} (short : Bool) (c d : Cell) (rest : List Cell)
      → s.dangling ≡ false
      → s.waiting ≡ c ∷ d ∷ rest
      → suits short c.train.command_no ≡ true
      → Step s (record (taken c (d ∷ rest) s) { dangling = true })
  finish :
      {s : Server} (xs : List Cell) (c : Cell) (ys : List Cell)
      → s.busy ≡ xs ++ c ∷ ys
      → Step s (after_request c (xs ++ ys) s)

-- a step that the server takes of itself: workers but the short thread or the short thread take and finish, and the
-- main thread reads the pipe
abbrev pub Own : {s t : Server} → Step s t → Type 0
Own (connect fd new runs) = ⊥
Own (pipe fd others e runs) = Unit {0}
Own (request c there runs whole) = ⊥
Own (hang_up fd there runs) = ⊥
Own quit = ⊥
Own (take short c rest whole free e) = Unit {0}
Own (take_head short c d rest whole e hit) = ⊥
Own (finish xs c ys e) = Unit {0}

-- what the server comes to by such steps
pub data Works (s : Server) : Server → Type 0 where
  stop : Works s s
  go : {t u : Server} → Works s t → (e : Step t u) → Own e → Works s u

pub data Reach (s : Server) : Server → Type 0 where
  here : Reach s s
  next : {t u : Server} → Reach s t → Step t u → Reach s u
