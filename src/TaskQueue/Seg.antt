-- ===== src/TaskQueue/Seg.antt =====
-- The list of requests that a queue stands for: cells in order, each at an address of its own.
use mathlib.Core.Logic.{◌≢◌}
use netdisk.Prelude.{ℕ, ◌+◌, ◌≤◌, ◌<◌, ◌≡◌, refl, List, [], ◌∷◌, ◌++◌, Option, some, arith, length}
use netdisk.Wire.{TransFile}
use netdisk.Memory.{Ptr, null, Node, Mem, overwrite, Outcome, done, crash, spent}
use netdisk.TaskQueue.{TaskQueue, short_unit, temp}

pub record Cell : Type 0 where
  pub addr : Ptr
  pub netfd : ℕ
  pub train : TransFile

-- the address of the first cell, and of the last one
abbrev pub first : List Cell → Ptr → Ptr
first [] end = end
first (c ∷ xs) end = c.addr

abbrev pub last : Ptr → List Cell → Ptr
last d [] = d
last d (c ∷ xs) = last c.addr xs

abbrev pub node_of : Cell → Ptr → Node
node_of c next = record { train = c.train; netfd = c.netfd; next = next }

-- the address is not that of a cell
abbrev pub Absent : Ptr → List Cell → Type 0
Absent a [] = Unit {0}
Absent a (c ∷ xs) = (a ≢ c.addr) × Absent a xs

-- the cells follow one another in the heap, at distinct addresses of `calloc`, and lead to `end`
abbrev pub Seg : Mem → List Cell → Ptr → Type 0
Seg h [] end = Unit {0}
Seg h (c ∷ xs) end =
    (temp < c.addr) × (h c.addr ≡ some (node_of c (first xs end))) × Absent c.addr xs × Seg h xs end

-- the number of requests that are neither `puts` nor `gets`
abbrev pub short_count : List Cell → ℕ
short_count [] = 0
short_count (c ∷ xs) = short_unit c.train + short_count xs

pub short_count-append :
    (xs ys : List Cell) → short_count (xs ++ ys) ≡ short_count xs + short_count ys
short_count-append [] ys = omega arith
short_count-append (c ∷ xs) ys = omega (arith, short_count-append xs ys)

pub first-append : (xs ys : List Cell) (end : Ptr) → first (xs ++ ys) end ≡ first xs (first ys end)
first-append [] ys end = refl
first-append (c ∷ xs) ys end = refl

pub last-append : (d : Ptr) (xs ys : List Cell) → last d (xs ++ ys) ≡ last (last d xs) ys
last-append d [] ys = refl
last-append d (c ∷ xs) ys = last-append c.addr xs ys

pub Absent-append : (a : Ptr) (xs ys : List Cell) → Absent a xs → Absent a ys → Absent a (xs ++ ys)
Absent-append a [] ys h k = k
Absent-append a (c ∷ xs) ys h k = (h.0, Absent-append a xs ys h.1 k)

pub Absent-split : (a : Ptr) (xs ys : List Cell) → Absent a (xs ++ ys) → Absent a xs × Absent a ys
Absent-split a [] ys h = (tt, h)
Absent-split a (c ∷ xs) ys h = let (l, r) = Absent-split a xs ys h.1 in ((h.0, l), r)

-- every address of the first list is absent from the second
abbrev pub Apart : List Cell → List Cell → Type 0
Apart [] ys = Unit {0}
Apart (c ∷ xs) ys = Absent c.addr ys × Apart xs ys

pub Seg-overwrite :
    (h : Mem) (a : Ptr) (n : Option Node) (xs : List Cell) (end : Ptr)
    → Absent a xs
    → Seg h xs end
    → Seg (overwrite h a n) xs end
unfolding overwrite
Seg-overwrite h a n [] end out s = tt
Seg-overwrite h a n (c ∷ xs) end out s =
    (s.0, ground (arith, s.1, out.0), s.2, Seg-overwrite h a n xs end out.1 s.3)

pub Absent-temp : (h : Mem) (xs : List Cell) (end : Ptr) → Seg h xs end → Absent temp xs
Absent-temp h [] end s = tt
Absent-temp h (c ∷ xs) end s = (omega (arith, s.0), Absent-temp h xs end s.3)

pub Seg-split :
    (h : Mem) (xs ys : List Cell) (end : Ptr)
    → Seg h (xs ++ ys) end
    → Seg h xs (first ys end) × Seg h ys end × Apart xs ys
Seg-split h [] ys end s = (tt, s, tt)
Seg-split h (c ∷ xs) ys end s =
    let (l, r, a) = Seg-split h xs ys end s.3 in
    let (out, out') = Absent-split c.addr xs ys s.2 in
    ((s.0, rw (← first-append xs ys end) s.1, out, l), r, (out', a))

pub Seg-append :
    (h : Mem) (xs ys : List Cell) (end : Ptr)
    → Seg h xs (first ys end)
    → Seg h ys end
    → Apart xs ys
    → Seg h (xs ++ ys) end
Seg-append h [] ys end s t a = t
Seg-append h (c ∷ xs) ys end s t a = (
  s.0,
  rw (first-append xs ys end) s.1,
  Absent-append c.addr xs ys s.2 a.0,
  Seg-append h xs ys end s.3 t a.1,
)

-- What the queue stands for. The pointers of an empty queue are not looked at before the next
-- `enqueue` sets both, so nothing is asked of them.
abbrev pub Linked : Mem → TaskQueue → List Cell → Type 0
Linked h q [] = Unit {0}
Linked h q (c ∷ xs) = (q.head ≡ c.addr) × (q.tail ≡ last c.addr xs) × Seg h (c ∷ xs) null

pub record Holds (h : Mem) (q : TaskQueue) (xs : List Cell) : Type 0 where
  pub linked : Linked h q xs
  pub size : q.queue_size ≡ length xs
  pub bound : q.queue_size ≤ q.max_size
  pub short : q.short_command_size ≡ short_count xs

-- the last of the cells `c ∷ xs`
abbrev pub last_cell : Cell → List Cell → Cell
last_cell c [] = c
last_cell c (d ∷ xs) = last_cell d xs

pub Absent-last : (a : Ptr) (c : Cell) (xs : List Cell) → Absent a (c ∷ xs) → a ≢ last c.addr xs
Absent-last a c [] h = h.0
Absent-last a c (d ∷ xs) h = Absent-last a d xs h.1

pub last_holds :
    (h : Mem) (c : Cell) (xs : List Cell) (end : Ptr)
    → Seg h (c ∷ xs) end
    → (temp < last c.addr xs) × (h (last c.addr xs) ≡ some (node_of (last_cell c xs) end))
last_holds h c [] end s = (s.0, s.1)
last_holds h c (d ∷ xs) end s = last_holds h d xs end s.3

-- Writing the last cell's `next` moves the end of the segment.
pub Seg-relink :
    (h : Mem) (c : Cell) (xs : List Cell) (end p : Ptr)
    → Seg h (c ∷ xs) end
    → Seg (overwrite h (last c.addr xs) (some (node_of (last_cell c xs) p))) (c ∷ xs) p
unfolding overwrite
Seg-relink h c [] end p s = (s.0, ground arith, tt, tt)
Seg-relink h c (d ∷ xs) end p s =
    (s.0, ground (arith, s.1, Absent-last c.addr d xs s.2), s.2, Seg-relink h d xs end p s.3)

-- a run that ends well, in a value and a heap of which `P` holds
abbrev pub Returns : {A : Type 0} → (A → Mem → Type 0) → Outcome A → Type 0
Returns P (done a h) = P a h
Returns P crash = ⊥
Returns P spent = ⊥

pub Returns-map :
    {A : Type 0} (P Q : A → Mem → Type 0) (out : Outcome A)
    → ((a : A) (g : Mem) → P a g → Q a g)
    → Returns P out
    → Returns Q out
Returns-map P Q (done a g) f r = f a g r
Returns-map P Q crash f r = elim r [ ]
Returns-map P Q spent f r = elim r [ ]
