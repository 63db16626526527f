-- ===== src/TaskQueue/Detach.antt =====
-- The runs of `dequeue` and of its parts, step by step, with the memory that each leaves behind.
use mathlib.Core.Logic.{◌≢◌}
use netdisk.Prelude.{
  ℕ, ◌+◌, ◌-◌, ◌≡◌, refl, ◌∙◌, Bool, true, false, List, ◌∷◌, Option, none, some, ◌==◌,
  if◌then◌else◌, arith,
}
use netdisk.Wire.{TransFile}
use netdisk.Memory.{
  Ptr, null, Node, Mem, overwrite, Outcome, done, read_node, link_to, free_node, overwrite_self,
  overwrite_other,
}
use netdisk.TaskQueue.{TaskQueue, temp, no_request, detach, take_out, dequeue, short_unit}
use netdisk.TaskQueue.Seg.{Cell, Seg, Holds, Seg-overwrite, Absent-temp}
use netdisk.TaskQueue.Walk.{scan, walk-scan, log_walk-done}

-- the memory while `temp` is alive
abbrev pub framed : Mem → TaskQueue → Mem
framed h q = overwrite h temp (some (record { train = no_request; netfd = 0; next = q.head }))

abbrev pub detach_at :
    TaskQueue → Bool → Ptr × Ptr → Mem → Outcome (Option (ℕ × TransFile) × TaskQueue)
detach_at q short (prev, cur) g = detach q short prev cur g

pub framed-Seg :
    (h : Mem) (q : TaskQueue) (xs : List Cell) (end : Ptr) → Seg h xs end → Seg (framed h q) xs end
framed-Seg h q xs end s = Seg-overwrite h temp _ xs end (Absent-temp h xs end s) s

-- Both loops end, and the cases behind them start from what the search found.
pub dequeue-detach :
    (h : Mem) (q : TaskQueue) (short : Bool) (c : Cell) (xs : List Cell)
    → Holds h q (c ∷ xs)
    → dequeue short q h ≡ detach_at q short (scan short temp (c ∷ xs)) (framed h q)
unfolding dequeue
dequeue-detach h q short c xs v =
    let s = framed-Seg h q (c ∷ xs) null v.linked.2 in
    ground (
      arith,
      v.linked.0,
      v.size,
      v.linked.2.0,
      walk-scan (q.queue_size + 1) short (framed h q) temp
          (record { train = no_request; netfd = 0; next = q.head }) (c ∷ xs) (omega (arith, v.size))
          (omega arith) (overwrite_self h temp _) v.linked.0 s,
      log_walk-done (q.queue_size + 1) (framed h q) (c ∷ xs) (omega (arith, v.size)) s,
    )

-- the queue after the node of `c` was taken out
abbrev pub taken : TaskQueue → (head prev next : Ptr) → TransFile → TaskQueue
taken q head prev next train = record q {
  head = head;
  tail = if next == null then prev else q.tail;
  queue_size = q.queue_size - 1;
  short_command_size = q.short_command_size - short_unit train;
}

-- the memory after the node at `p` was released and `dequeue` returned
abbrev pub released : Mem → Ptr → Mem
released g p = overwrite (overwrite g p none) temp none

take_out-run :
    (g : Mem) (q : TaskQueue) (prev p : Ptr) (n : Node)
    → p ≢ null
    → g p ≡ some n
    → take_out q prev p g
      ≡ done
          (some (n.netfd, n.train), taken q q.head prev n.next n.train)
          (released (overwrite g p (some (record n { next = null }))) p)
unfolding take_out read_node link_to free_node overwrite
take_out-run g q prev p n nz e = ground arith

write_twice :
    (g : Mem) (p : Ptr) (m n : Option Node) → overwrite (overwrite g p m) p n ≡ overwrite g p n
unfolding overwrite
write_twice g p m n = ground arith

take_out-released :
    (g : Mem) (q : TaskQueue) (prev p : Ptr) (n : Node)
    → p ≢ null
    → g p ≡ some n
    → take_out q prev p g
      ≡ done (some (n.netfd, n.train), taken q q.head prev n.next n.train) (released g p)
take_out-released g q prev p n nz e =
    rw (take_out-run g q prev p n nz e, write_twice g p (some (record n { next = null })) none) refl

-- The search stopped at the node `p` behind the node `prev`.
pub detach-found :
    (g : Mem) (q : TaskQueue) (short : Bool) (prev p : Ptr) (m n : Node)
    → prev ≢ null
    → p ≢ null
    → p ≢ prev
    → g prev ≡ some m
    → g p ≡ some n
    → detach q short prev p g
      ≡ done
          (some (n.netfd, n.train), taken q q.head prev n.next n.train)
          (released (overwrite g prev (some (record m { next = n.next }))) p)
unfolding detach read_node link_to
detach-found g q short prev p m n nz nz' ne e e' = ground (
  arith,
  take_out-released (overwrite g prev (some (record m { next = n.next }))) q prev p n nz'
      (overwrite_other g prev p _ ne ∙ e'),
)

-- The search of a long-command worker ran to the end: the head is taken.
pub detach-head :
    (g : Mem) (q : TaskQueue) (prev : Ptr) (n : Node)
    → q.head ≢ null
    → g q.head ≡ some n
    → detach q false prev null g
      ≡ done (some (n.netfd, n.train), taken q n.next prev n.next n.train) (released g q.head)
unfolding detach read_node
detach-head g q prev n nz e =
    ground (arith, e, take_out-released g (record q { head = n.next }) prev q.head n nz e)

pub detach_missed :
    (g : Mem) (q : TaskQueue) (prev : Ptr)
    → detach q true prev null g ≡ done (none, q) (overwrite g temp none)
unfolding detach
detach_missed g q prev = refl
