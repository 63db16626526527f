-- ===== src/TaskQueue/Tests.antt =====
-- A queue with a `gets` (6) behind a `cd` (0): runs of its functions, and the theorems at it.
use netdisk.Prelude.{suc, ◌≡◌, refl, Bool, true, false, [], ◌∷◌, none, some, arith, length}
use netdisk.Wire.{TransFile}
use netdisk.Memory.{Mem, overwrite, crash, read_node, link_to, free_node, ◌>>=◌}
use netdisk.TaskQueue.{TaskQueue, enqueue, dequeue, walk, log_walk, detach, take_out, no_request}
use netdisk.TaskQueue.Seg.{Cell, Holds, Returns, node_of}
use netdisk.TaskQueue.Enqueue.{Enqueued, enqueue-append}
use netdisk.TaskQueue.Refine.{serve, Served, dequeue_refines-serve}
use netdisk.TaskQueue.Dangling.{dequeue_dangling}

abbrev cd : TransFile
cd = record no_request { command_no = 0 }

abbrev gets : TransFile
gets = record no_request { command_no = 6 }

abbrev c1 : Cell
c1 = record { addr = 2; netfd = 7; train = cd }

abbrev c2 : Cell
c2 = record { addr = 3; netfd = 8; train = gets }

abbrev c3 : Cell
c3 = record { addr = 4; netfd = 9; train = cd }

-- `c1`, `c2` in a queue for two requests
abbrev h2 : Mem
h2 = overwrite (overwrite (λ _. none) 2 (some (node_of c1 3))) 3 (some (node_of c2 0))

abbrev q2 : TaskQueue
q2 = record { head = 2; tail = 3; queue_size = 2; max_size = 2; short_command_size = 1 }

q2-Holds : Holds h2 q2 (c1 ∷ c2 ∷ [])
unfolding overwrite
q2-Holds = record {
  linked = (
    refl,
    refl,
    ((omega arith), ground arith, omega arith, ((omega arith), ground arith, tt, tt)),
  );
  size = refl;
  bound = omega arith;
  short = refl;
}

-- the same requests in a queue with room for one more
abbrev q3 : TaskQueue
q3 = record q2 { max_size = 3 }

q3-Holds : Holds h2 q3 (c1 ∷ c2 ∷ [])
q3-Holds = record { linked = q2-Holds.linked; size = refl; bound = omega arith; short = refl }

-- one `cd` alone
abbrev h1 : Mem
h1 = overwrite (λ _. none) 2 (some (node_of c1 0))

abbrev q1 : TaskQueue
q1 = record { head = 2; tail = 2; queue_size = 1; max_size = 3; short_command_size = 1 }

q1-Holds : Holds h1 q1 (c1 ∷ [])
unfolding overwrite
q1-Holds = record {
  linked = (refl, refl, ((omega arith), ground arith, tt, tt));
  size = refl;
  bound = omega arith;
  short = refl;
}

-- one `gets` alone
abbrev g1 : Mem
g1 = overwrite (λ _. none) 3 (some (node_of c2 0))

abbrev p1 : TaskQueue
p1 = record { head = 3; tail = 3; queue_size = 1; max_size = 3; short_command_size = 0 }

p1-Holds : Holds g1 p1 (c2 ∷ [])
unfolding overwrite
p1-Holds = record {
  linked = (refl, refl, ((omega arith), ground arith, tt, tt));
  size = refl;
  bound = omega arith;
  short = refl;
}

-- the short thread takes the `cd` at the head, and the long-command worker after it reads freed memory
freed_head : (dequeue true q2 >>= λ (r, q). dequeue false q) h2 ≡ crash
unfolding dequeue walk log_walk detach take_out read_node link_to free_node overwrite
freed_head = refl

-- a worker that takes the `gets` from behind the `cd` leaves the `cd` for the short thread
served : Returns (λ (r, q) g. r ≡ some (7, cd)) ((dequeue false q2 >>= λ (r, q). dequeue true q) h2)
unfolding dequeue walk log_walk detach take_out read_node link_to free_node overwrite
served = refl

enqueue-append_example : Returns (Enqueued h2 c3 (c1 ∷ c2 ∷ [])) (enqueue 4 q3 9 cd h2)
enqueue-append_example =
    enqueue-append h2 q3 c3 (c1 ∷ c2 ∷ []) q3-Holds (omega arith) (omega arith) (omega arith)

dequeue_refines-serve_example :
    Returns (Served (c1 ∷ c2 ∷ []) (serve false (c1 ∷ c2 ∷ []))) (dequeue false q2 h2)
dequeue_refines-serve_example = dequeue_refines-serve h2 q2 false c1 (c2 ∷ []) q2-Holds refl

-- the `gets` is taken, and the `cd` stays
serve_gets : serve false (c1 ∷ c2 ∷ []) ≡ some (c2, c1 ∷ [])
unfolding serve
serve_gets = refl

dequeue_dangling_example :
    Returns
      (λ (r, q) g.
        (r ≡ some (7, cd))
        × (q.queue_size ≡ suc (length {A = Cell} []))
        × (q.head ≡ 2)
        × ((later : Bool) → dequeue later q g ≡ crash))
      (dequeue true q2 h2)
dequeue_dangling_example = dequeue_dangling h2 q2 true c1 c2 [] q2-Holds refl
