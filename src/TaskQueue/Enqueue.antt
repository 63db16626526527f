-- ===== src/TaskQueue/Enqueue.antt =====
-- `enqueue` adds a request behind the others, or refuses it when the queue is full.
use mathlib.Core.Logic.{◌≢◌}
use netdisk.Prelude.{
  ℕ, ◌+◌, ◌<◌, ◌≡◌, refl, List, [], ◌∷◌, ◌++◌, Option, none, some, arith, length, length-append,
  subst, sym, ◌∙◌,
}
use netdisk.Wire.{TransFile}
use netdisk.Memory.{
  Ptr, null, Node, Mem, overwrite, done, read_node, link_to, overwrite_self, overwrite_other,
}
use netdisk.TaskQueue.{TaskQueue, short_unit, temp, enqueue}
use netdisk.TaskQueue.Seg.{
  Cell, last, last_cell, node_of, Absent, Apart, Seg, Holds, Returns, short_count-append,
  last-append, Seg-overwrite, Seg-append, Seg-relink, last_holds, Absent-last,
}

Apart-single : (xs : List Cell) (c : Cell) → Absent c.addr xs → Apart xs (c ∷ [])
Apart-single [] c out = tt
Apart-single (d ∷ xs) c out = ((ground (arith, out.0), tt), Apart-single xs c out.1)

-- the queue after a request was added
abbrev added : TaskQueue → (head fresh : Ptr) → TransFile → TaskQueue
added q head fresh train = record q {
  head = head;
  tail = fresh;
  queue_size = q.queue_size + 1;
  short_command_size = q.short_command_size + short_unit train;
}

module _ (h : Mem) (q : TaskQueue) (new : Cell) (room : q.queue_size < q.max_size)
    (above : temp < new.addr) where
  enqueue-empty :
      q.queue_size ≡ 0
      → enqueue new.addr q new.netfd new.train h
        ≡ done
            (some 0, added q new.addr new.addr new.train)
            (overwrite h new.addr (some (node_of new null)))
  unfolding enqueue read_node overwrite
  enqueue-empty e = ground arith

  enqueue-link :
      (n : Node)
      → 0 < q.queue_size
      → temp < q.tail
      → q.tail ≢ new.addr
      → h q.tail ≡ some n
      → enqueue new.addr q new.netfd new.train h
        ≡ done
            (some 0, added q q.head new.addr new.train)
            (overwrite
              (overwrite h new.addr (some (node_of new null)))
              q.tail
              (some (record n { next = new.addr })))
  unfolding enqueue read_node link_to overwrite
  enqueue-link n pos tail ne e = ground arith

-- the heap is as it was, but for the addresses of the cells and of `fresh`
abbrev pub SameElsewhere : Ptr → List Cell → Mem → Mem → Type 0
SameElsewhere fresh xs h g = (a : Ptr) → Absent a xs → a ≢ fresh → g a ≡ h a

abbrev pub Enqueued : Mem → Cell → List Cell → Option ℕ × TaskQueue → Mem → Type 0
Enqueued h new xs (r, q) g =
    (r ≡ some 0) × Holds g q (xs ++ new ∷ []) × SameElsewhere new.addr xs h g

enqueue-cons :
    (h : Mem) (q : TaskQueue) (new c : Cell) (xs : List Cell)
    → q.queue_size < q.max_size
    → temp < new.addr
    → Absent new.addr (c ∷ xs)
    → Holds h q (c ∷ xs)
    → Returns (Enqueued h new (c ∷ xs)) (enqueue new.addr q new.netfd new.train h)
unfolding overwrite
enqueue-cons h q new c xs room above out v =
    rw
      (enqueue-link h q new room above (node_of z null) (omega (arith, v.size))
        (omega (arith, end.0, v.linked.1)) (ground (arith, ne)) (ground (arith, end.1)))
      (
        refl,
        record {
          linked = (v.linked.0, rw (last-append c.addr xs (new ∷ [])) refl, chain);
          size = omega (arith, v.size, length-append {0} xs (new ∷ []));
          bound = omega (arith, v.bound);
          short = omega (arith, v.short, short_count-append (c ∷ xs) (new ∷ []));
        },
        λ a o ne'. ground (arith, Absent-last a c xs o),
      )
  where
    z : Cell
    z = last_cell c xs

    end : (temp < last c.addr xs) × (h (last c.addr xs) ≡ some (node_of (last_cell c xs) null))
    end = last_holds h c xs null v.linked.2

    ne : new.addr ≢ last c.addr xs
    ne = Absent-last new.addr c xs out

    h' : Mem
    h' = overwrite h new.addr (some (node_of new null))

    kept :
        overwrite h' (last c.addr xs) (some (node_of z new.addr)) new.addr ≡ some (node_of new null)
    kept = overwrite_other h' _ new.addr _ ne ∙ overwrite_self h new.addr _

    chain : Seg (overwrite h' q.tail (some (node_of z new.addr))) ((c ∷ xs) ++ new ∷ []) null
    chain =
        subst (λ t. Seg (overwrite h' t (some (node_of z new.addr))) ((c ∷ xs) ++ new ∷ []) null)
          (sym v.linked.1)
          (Seg-append _ (c ∷ xs) (new ∷ []) null
            (Seg-relink h' c xs null new.addr
              (Seg-overwrite h new.addr _ (c ∷ xs) null out v.linked.2))
            (above, kept, tt, tt) (Apart-single (c ∷ xs) new out))

-- A queue that is not full takes the request: it stands behind the others, the counters follow, and no
-- memory but the queue's own and the new node's changes. `calloc` gives an address of its own.
pub enqueue-append :
    (h : Mem) (q : TaskQueue) (new : Cell) (xs : List Cell)
    → Holds h q xs
    → q.queue_size < q.max_size
    → temp < new.addr
    → Absent new.addr xs
    → Returns (Enqueued h new xs) (enqueue new.addr q new.netfd new.train h)
unfolding overwrite
enqueue-append h q new [] v room above out = rw (enqueue-empty h q new room above v.size) (
  refl,
  record {
    linked = (refl, refl, (above, overwrite_self h new.addr _, tt, tt));
    size = omega (arith, v.size);
    bound = omega (arith, v.bound);
    short = omega (arith, v.short);
  },
  λ a o ne. ground arith,
)
enqueue-append h q new (c ∷ xs) v room above out = enqueue-cons h q new c xs room above out v

-- A full queue refuses every request with -1 and stays as it was, and so does the memory.
pub enqueue_full :
    (h : Mem) (q : TaskQueue) (xs : List Cell) (fresh netfd : ℕ) (train : TransFile)
    → Holds h q xs
    → length xs ≡ q.max_size
    → enqueue fresh q netfd train h ≡ done (none, q) h
unfolding enqueue
enqueue_full h q xs fresh netfd train v full = ground (arith, v.size)
