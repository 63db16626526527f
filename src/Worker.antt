-- ===== src/Worker.antt =====
-- The part of `thread` (server/thread.c) that takes a request from the queue. Worker/Dispatch has what a worker
-- does with it.
pub mod Laws
pub mod Dispatch
pub mod Access
pub mod Chain
mod Tests
use netdisk.Prelude.{ℕ, Bool, true, false, Option, none, some, ◌==◌, ◌&&◌, ◌||◌, if◌then◌else◌}
use netdisk.Wire.{TransFile}
use netdisk.Memory.{Act, give, ◌>>=◌, ◌>>◌}
use netdisk.TaskQueue.{TaskQueue, dequeue}

-- What a worker comes to under the mutex: it waits on the condition variable, it ends, it goes back to the
-- start of its loop with -1, or it has a request.
pub data Woken : Type 0 where
  waits : Woken
  exits : Woken
  missed : Woken
  took : (net_fd : ℕ) (trans : TransFile) → Woken

-- the condition of the loop around `pthread_cond_wait`
abbrev pub must_wait : (short : Bool) → TaskQueue → Bool
must_wait short q = (q.queue_size == 0) || (short && (q.short_command_size == 0))

abbrev pub woken : Option (ℕ × TransFile) → Woken
woken none = missed
woken (some (net_fd, trans)) = took net_fd trans

-- `short` says whether the worker is `short_thread`, and `exit` is `pool->exit`.
unfoldable pub take_task : (exit short : Bool) → TaskQueue → Act (Woken × TaskQueue)
take_task exit short q = elim (must_wait short q) [
  | true ↦ give ((if exit then exits else waits), q)
  | false ↦ do (result, q') ← dequeue short q; give (woken result, q')
]
