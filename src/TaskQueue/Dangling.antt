-- ===== src/TaskQueue/Dangling.antt =====
-- The defect of `dequeue`: it unlinks the found node from the node before it, and before the head that
-- is the local `temp`. `queue->head` is left on the freed node.
use mathlib.Core.Logic.{◌≢◌}
use netdisk.Prelude.{
  ℕ, zero, suc, ◌+◌, ◌<◌, ◌≡◌, refl, ap, ◌∙◌, Bool, true, List, [], ◌∷◌, none, some, arith, length,
}
use netdisk.Memory.{
  Ptr, null, Mem, overwrite, crash, overwrite_self, overwrite_other, read_node-crash,
}
use netdisk.TaskQueue.{TaskQueue, suits, temp, no_request, walk, dequeue}
use netdisk.TaskQueue.Seg.{Cell, node_of, Holds, Returns}
use netdisk.TaskQueue.Walk.{scan-found}
use netdisk.TaskQueue.Detach.{framed, framed-Seg, dequeue-detach, released, detach-found}

walk-crash :
    (k : ℕ) (short : Bool) (prev cur : Ptr) (g : Mem)
    → 0 < k
    → cur ≢ null
    → g cur ≡ none
    → walk k short prev cur g ≡ crash
unfolding walk
walk-crash zero short prev cur g pos nz e = absurd (omega arith)
walk-crash (suc k) short prev cur g pos nz e = ground (arith, read_node-crash g cur e)

-- A queue whose head was freed cannot be read.
dequeue-crash :
    (h : Mem) (q : TaskQueue) (short : Bool)
    → temp < q.head
    → h q.head ≡ none
    → dequeue short q h ≡ crash
unfolding dequeue
dequeue-crash h q short above e = ground (
  arith,
  above,
  walk-crash (q.queue_size + 1) short temp q.head (framed h q) (omega arith) (omega arith)
      (overwrite_other h temp q.head _ (omega arith) ∙ e),
)

-- In a queue in order, when the request at the head suits the worker and another one waits behind it, the request is taken
-- and its node freed, but the queue still counts the others and its head points at the freed node:
-- the next `dequeue`, by whichever worker, reads freed memory.
pub dequeue_dangling :
    (h : Mem) (q : TaskQueue) (short : Bool) (z w : Cell) (ws : List Cell)
    → Holds h q (z ∷ w ∷ ws)
    → suits short z.train.command_no ≡ true
    → Returns
        (λ (r, q') g.
          (r ≡ some (z.netfd, z.train))
          × (q'.queue_size ≡ suc (length ws))
          × (q'.head ≡ z.addr)
          × ((later : Bool) → dequeue later q' g ≡ crash))
        (dequeue short q h)
dequeue_dangling h q short z w ws v hit =
    let above = v.linked.2.0 in
    let run =
      detach-found (framed h q) q short temp z.addr
        (record { train = no_request; netfd = 0; next = q.head }) (node_of z w.addr) (omega arith)
        (omega (arith, above)) (omega (arith, above)) (overwrite_self h temp _)
        (framed-Seg h q (z ∷ w ∷ ws) null v.linked.2).1 in
    let gone = λ (g : Mem).
      overwrite_other (overwrite g z.addr none) temp z.addr none (omega (arith, above))
      ∙ overwrite_self g z.addr none in
    rw (dequeue-detach h q short z (w ∷ ws) v, scan-found short temp [] z (w ∷ ws) tt hit, run)
      (
        refl,
        omega (arith, v.size),
        v.linked.0,
        λ later.
            dequeue-crash _ _ later (omega (arith, above, v.linked.0))
              (ap (released _ z.addr) v.linked.0 ∙ gone _),
      )
