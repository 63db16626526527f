-- ===== src/TaskQueue.antt =====
-- server/taskQueue.c: the queue of requests between the main thread and the workers, as a linked list
-- with a head and a tail pointer. The log lines are left out, but not the loop around one of them,
-- which follows the list. Both functions run under `pool->mutex`.
pub mod Seg
pub mod Walk
pub mod Enqueue
pub mod Detach
pub mod Dequeue
pub mod Dangling
pub mod Refine
mod Tests
use netdisk.Prelude.{
  ℕ, zero, suc, ◌+◌, ◌-◌, Bool, true, false, not, Option, none, some, ◌==◌, ◌&&◌, ◌||◌,
  if◌then◌else◌, [],
}
use netdisk.Wire.{TransFile, is_long}
use netdisk.Memory.{
  Ptr, null, Node, Act, spent, give, ◌>>=◌, ◌>>◌, put_cell, read_node, link_to, free_node,
}

pub record TaskQueue : Type 0 where
  pub head : Ptr
  pub tail : Ptr
  pub queue_size : ℕ
  pub max_size : ℕ
  pub short_command_size : ℕ

-- `short_command_size++` and `--` for a request that is neither `puts` nor `gets`
abbrev pub short_unit : TransFile → ℕ
short_unit t = if is_long t.command_no then 0 else 1

-- the links of `enqueue`, once the node is filled
abbrev pub link : Ptr → TaskQueue → Act Ptr
link p q = if q.queue_size == 0 then give p else do link_to q.tail p; give q.head

-- `fresh` is what `calloc` returns. The result is 0 or, for the -1 of a full queue, `none`.
pub enqueue : (fresh : Ptr) → TaskQueue → ℕ → TransFile → Act (Option ℕ × TaskQueue)
enqueue fresh q netfd train = if q.queue_size == q.max_size then give (none, q) else do
  put_cell fresh (some (record { train = train; netfd = netfd; next = null }))
  read_node fresh
  head ← link fresh q
  give (
    some 0,
    record q {
      head = head;
      tail = fresh;
      queue_size = q.queue_size + 1;
      short_command_size = q.short_command_size + short_unit train;
    },
  )

-- whether the search stops at a request, for the short thread (`true`) and for the others
abbrev pub suits : Bool → ℕ → Bool
suits true command_no = not (is_long command_no)
suits false command_no = is_long command_no

-- `while (cur != NULL)`: the result is `prev` and `cur` after the loop
pub walk : ℕ → Bool → (prev cur : Ptr) → Act (Ptr × Ptr)
walk zero short prev cur = λ _. spent
walk (suc k) short prev cur = if cur == null then give (prev, null) else do
  n ← read_node cur
  if suits short n.train.command_no
      then give (prev, cur)
      else do p ← read_node prev; walk k short p.next n.next

-- the loop that logs every waiting command
pub log_walk : ℕ → Ptr → Act (Unit {0})
log_walk zero cur = λ _. spent
log_walk (suc k) cur = if cur == null then give tt else do n ← read_node cur; log_walk k n.next

-- the address of the local variable `temp`
abbrev pub temp : Ptr
temp = 1

-- `temp` holds no request; only its `next` is used
abbrev pub no_request : TransFile
no_request = record { body = []; data_length = 0; command_no = 0; flag = false; token = [] }

-- from the found node on: the tail, the counters, the copy of the request, and the release of the node
pub take_out : TaskQueue → (prev cur : Ptr) → Act (Option (ℕ × TransFile) × TaskQueue)
take_out q prev cur = do
  n ← read_node cur
  link_to cur null
  free_node cur
  put_cell temp none
  give (
    some (n.netfd, n.train),
    record q {
      tail = if n.next == null then prev else q.tail;
      queue_size = q.queue_size - 1;
      short_command_size = q.short_command_size - short_unit n.train;
    },
  )

-- the three cases behind the loop
pub detach : TaskQueue → Bool → (prev cur : Ptr) → Act (Option (ℕ × TransFile) × TaskQueue)
detach q short prev cur =
    if (cur == null) && not short
    then (do n ← read_node q.head; take_out (record q { head = n.next }) prev q.head)
    else if not (cur == null)
    then (do n ← read_node cur; link_to prev n.next; take_out q prev cur)
    else (do put_cell temp none; give (none, q))

-- `short` says whether the caller is `short_thread`. The result is the descriptor with the request,
-- or `none` for -1. Each loop has as many rounds as the queue counts requests, and one more.
pub dequeue : Bool → TaskQueue → Act (Option (ℕ × TransFile) × TaskQueue)
dequeue short q = if q.head == null then give (none, q) else do
  put_cell temp (some (record { train = no_request; netfd = 0; next = q.head }))
  (prev, cur) ← walk (q.queue_size + 1) short temp q.head
  log_walk (q.queue_size + 1) q.head
  detach q short prev cur
