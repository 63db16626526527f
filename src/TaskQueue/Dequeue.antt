-- ===== src/TaskQueue/Dequeue.antt =====
-- What `dequeue` takes from a well-formed queue, and when it leaves a well-formed queue behind.
use netdisk.Prelude.{
  ℕ, ◌<◌, ◌≡◌, refl, sym, ap, ◌∙◌, Bool, true, false, List, [], ◌∷◌, ◌++◌, Option, none, some, ◌==◌,
  if◌then◌else◌, arith, length-append, append-nil, subst,
}
use netdisk.Wire.{TransFile}
use netdisk.Memory.{Ptr, null, Mem, overwrite, done, overwrite_self, overwrite_other}
use netdisk.TaskQueue.{TaskQueue, suits, temp, no_request, detach, dequeue}
use netdisk.TaskQueue.Seg.{
  Cell, first, last, last_cell, node_of, Absent, Apart, Seg, Holds, Returns, short_count-append,
  last-append, Seg-overwrite, Seg-split, Seg-append, Seg-relink, last_holds, Absent-last,
  Absent-append, Absent-temp,
}
use netdisk.TaskQueue.Walk.{NoneSuits, scan-found, scan-none}
use netdisk.TaskQueue.Detach.{
  framed, framed-Seg, dequeue-detach, taken, released, detach-found, detach-head, detach_missed,
}

released-Seg :
    (g : Mem) (p : Ptr) (xs : List Cell) (end : Ptr)
    → Absent p xs
    → Seg g xs end
    → Seg (released g p) xs end
released-Seg g p xs end out s =
    let s' = Seg-overwrite g p none xs end out s in
    Seg-overwrite (overwrite g p none) temp none xs end (Absent-temp _ xs end s') s'

-- A worker that searches in vain, but is not the short thread, takes the oldest request.
abbrev pub Took : Cell → List Cell → Option (ℕ × TransFile) × TaskQueue → Mem → Type 0
Took c xs (r, q) g = (r ≡ some (c.netfd, c.train)) × (g c.addr ≡ none) × Holds g q xs

pub tail_kept : (p prev tail : Ptr) → temp < p → (if p == null then prev else tail) ≡ tail
tail_kept p prev tail above = ground arith

taken-Holds :
    (g : Mem) (q : TaskQueue) (prev : Ptr) (c : Cell) (xs : List Cell)
    → Holds g q (c ∷ xs)
    → Holds (released g c.addr) (taken q (first xs null) prev (first xs null) c.train) xs
taken-Holds g q prev c [] v = record {
  linked = tt;
  size = omega (arith, v.size);
  bound = omega (arith, v.bound);
  short = omega (arith, v.short);
}
taken-Holds g q prev c (d ∷ xs) v = record {
  linked = (
    refl,
    tail_kept d.addr prev q.tail v.linked.2.3.0 ∙ v.linked.1,
    released-Seg g c.addr (d ∷ xs) null v.linked.2.2 v.linked.2.3,
  );
  size = omega (arith, v.size);
  bound = omega (arith, v.bound);
  short = omega (arith, v.short);
}

pub framed-Holds :
    (h : Mem) (q : TaskQueue) (c : Cell) (xs : List Cell)
    → Holds h q (c ∷ xs)
    → Holds (framed h q) q (c ∷ xs)
framed-Holds h q c xs v = record {
  linked = (v.linked.0, v.linked.1, framed-Seg h q (c ∷ xs) null v.linked.2);
  size = v.size;
  bound = v.bound;
  short = v.short;
}

-- In a queue in order and without `puts` and `gets`, a worker other than the short thread takes the oldest
-- request; its node is freed, and the queue is in order with the others.
pub dequeue_oldest :
    (h : Mem) (q : TaskQueue) (c : Cell) (xs : List Cell)
    → Holds h q (c ∷ xs)
    → NoneSuits false (c ∷ xs)
    → Returns (Took c xs) (dequeue false q h)
dequeue_oldest h q c xs v misses =
    rw (dequeue-detach h q false c xs v, scan-none false temp (c ∷ xs) misses)
      (subst (Returns (Took c xs)) (sym run) (refl, gone, taken-Holds g q (last c.addr xs) c xs w))
  where
    g : Mem
    g = framed h q

    w : Holds g q (c ∷ xs)
    w = framed-Holds h q c xs v

    run :
        detach q false (last c.addr xs) null g
        ≡ done
            (
              some (c.netfd, c.train),
              taken q (first xs null) (last c.addr xs) (first xs null) c.train,
            )
            (released g c.addr)
    run =
        subst
          (λ p.
            detach q false (last c.addr xs) null g
            ≡ done
                (
                  some (c.netfd, c.train),
                  taken q (first xs null) (last c.addr xs) (first xs null) c.train,
                )
                (released g p))
          v.linked.0
          (detach-head g q (last c.addr xs) (node_of c (first xs null))
            (omega (arith, v.linked.0, v.linked.2.0)) (ap g v.linked.0 ∙ w.linked.2.1))

    gone : released g c.addr c.addr ≡ none
    gone =
        overwrite_other _ temp c.addr none (omega (arith, v.linked.2.0))
        ∙ overwrite_self g c.addr none

-- In a queue in order with `puts` and `gets` only, the short thread gets -1; the queue and its nodes stay.
pub dequeue_missed :
    (h : Mem) (q : TaskQueue) (c : Cell) (xs : List Cell)
    → Holds h q (c ∷ xs)
    → NoneSuits true (c ∷ xs)
    → Returns (λ (r, q') g. (r ≡ none) × (q' ≡ q) × Holds g q (c ∷ xs)) (dequeue true q h)
dequeue_missed h q c xs v misses =
    rw (dequeue-detach h q true c xs v, scan-none true temp (c ∷ xs) misses, detach_missed)
      (
        refl,
        refl,
        record {
          linked = (
            v.linked.0,
            v.linked.1,
            Seg-overwrite _ temp none (c ∷ xs) null (Absent-temp _ (c ∷ xs) null s) s,
          );
          size = v.size;
          bound = v.bound;
          short = v.short;
        },
      )
  where
    s : Seg (framed h q) (c ∷ xs) null
    s = framed-Seg h q (c ∷ xs) null v.linked.2

-- In a queue in order with one request, which suits the worker, the request is taken, its node is freed,
-- and the queue is in order and empty.
pub dequeue_only :
    (h : Mem) (q : TaskQueue) (short : Bool) (z : Cell)
    → Holds h q (z ∷ [])
    → suits short z.train.command_no ≡ true
    → Returns (Took z []) (dequeue short q h)
dequeue_only h q short z v hit =
    let above = v.linked.2.0 in
    let run =
      detach-found (framed h q) q short temp z.addr
        (record { train = no_request; netfd = 0; next = q.head }) (node_of z null) (omega arith)
        (omega (arith, above)) (omega (arith, above)) (overwrite_self h temp _)
        (framed-Seg h q (z ∷ []) null v.linked.2).1 in
    rw (dequeue-detach h q short z [] v, scan-found short temp [] z [] tt hit, run)
      (
        refl,
        overwrite_other _ temp z.addr none (omega (arith, above)) ∙ overwrite_self _ z.addr none,
        record {
          linked = tt;
          size = omega (arith, v.size);
          bound = omega (arith, v.bound);
          short = omega (arith, v.short);
        },
      )

Apart-last : (y : Cell) (ys ws : List Cell) → Apart (y ∷ ys) ws → Absent (last y.addr ys) ws
Apart-last y [] ws a = a.0
Apart-last y (x ∷ ys) ws a = Apart-last x ys ws a.1

Apart-head : (xs : List Cell) (z : Cell) (zs : List Cell) → Apart xs (z ∷ zs) → Absent z.addr xs
Apart-head [] z zs a = tt
Apart-head (c ∷ xs) z zs a = (ground (arith, a.0.0), Apart-head xs z zs a.1)

Apart-tail : (xs : List Cell) (z : Cell) (zs : List Cell) → Apart xs (z ∷ zs) → Apart xs zs
Apart-tail [] z zs a = tt
Apart-tail (c ∷ xs) z zs a = (a.0.1, Apart-tail xs z zs a.1)

-- Unlinking `z` behind `y ∷ ys` leaves a list without it.
unlink-Seg :
    (g : Mem) (y : Cell) (ys : List Cell) (z : Cell) (zs : List Cell)
    → Seg g ((y ∷ ys) ++ z ∷ zs) null
    → Seg
        (overwrite g (last y.addr ys) (some (node_of (last_cell y ys) (first zs null))))
        ((y ∷ ys) ++ zs)
        null
unlink-Seg g y ys z zs s =
    let (front, back, apart) = Seg-split g (y ∷ ys) (z ∷ zs) null s in
    Seg-append _ (y ∷ ys) zs null (Seg-relink g y ys z.addr (first zs null) front)
      (Seg-overwrite g _ _ zs null (Apart-last y ys zs (Apart-tail (y ∷ ys) z zs apart)) back.3)
      (Apart-tail (y ∷ ys) z zs apart)

-- the tail pointer after `z` was unlinked
unlink_tail :
    (y : Cell) (ys : List Cell) (zs : List Cell) (tail : Ptr)
    → ((w : Cell) (ws : List Cell) → zs ≡ w ∷ ws → (temp < w.addr) × (tail ≡ last w.addr ws))
    → (if first zs null == null then last y.addr ys else tail) ≡ last y.addr (ys ++ zs)
unlink_tail y ys [] tail h = ap (last y.addr) (sym (append-nil ys))
unlink_tail y ys (w ∷ ws) tail h =
    tail_kept w.addr (last y.addr ys) tail (h w ws refl).0
    ∙ (h w ws refl).1
    ∙ sym (last-append y.addr ys (w ∷ ws))

-- The last cells of a list that ends with `z ∷ zs` end with those of `zs`.
behind :
    (h : Mem) (q : TaskQueue) (y : Cell) (ys : List Cell) (z : Cell) (zs : List Cell)
    → Holds h q ((y ∷ ys) ++ z ∷ zs)
    → (w : Cell) (ws : List Cell) → zs ≡ w ∷ ws
    → (temp < w.addr) × (q.tail ≡ last w.addr ws)
behind h q y ys z zs v w ws e =
    let s = (Seg-split h (y ∷ ys) (z ∷ zs) null v.linked.2).1 in
    (
      (subst (λ l. Seg h l null) e s.3).0,
      v.linked.1 ∙ last-append y.addr ys (z ∷ zs) ∙ ap (last z.addr) e,
    )

-- In a queue in order, the first request that suits a worker, if it stands behind others that do not, is
-- taken: its descriptor and its content are returned, its node is freed, and the queue is in order with
-- the others.
pub dequeue_behind :
    (h : Mem) (q : TaskQueue) (short : Bool) (y : Cell) (ys : List Cell) (z : Cell) (zs : List Cell)
    → Holds h q ((y ∷ ys) ++ z ∷ zs)
    → NoneSuits short (y ∷ ys)
    → suits short z.train.command_no ≡ true
    → Returns (Took z ((y ∷ ys) ++ zs)) (dequeue short q h)
dequeue_behind h q short y ys z zs v before hit =
    let s = framed-Seg h q ((y ∷ ys) ++ z ∷ zs) null v.linked.2 in
    let (front, back, apart) = Seg-split (framed h q) (y ∷ ys) (z ∷ zs) null s in
    let end = last_holds (framed h q) y ys z.addr front in
    let ne = Absent-last z.addr y ys (Apart-head (y ∷ ys) z zs apart) in
    let run =
      detach-found (framed h q) q short (last y.addr ys) z.addr (node_of (last_cell y ys) z.addr)
        (node_of z (first zs null)) (omega (arith, end.0)) (omega (arith, back.0)) ne end.1
        back.1 in
    rw
      (
        dequeue-detach h q short y (ys ++ z ∷ zs) v,
        scan-found short temp (y ∷ ys) z zs before hit,
        run,
      )
      (
        refl,
        overwrite_other _ temp z.addr none (omega (arith, back.0)) ∙ overwrite_self _ z.addr none,
        record {
          linked = (
            v.linked.0,
            unlink_tail y ys zs q.tail (behind h q y ys z zs v),
            released-Seg _ z.addr ((y ∷ ys) ++ zs) null
                (Absent-append z.addr (y ∷ ys) zs (Apart-head (y ∷ ys) z zs apart) back.2)
                (unlink-Seg (framed h q) y ys z zs s),
          );
          size = omega (arith, v.size, length-append {0} ys (z ∷ zs), length-append {0} ys zs);
          bound = omega (arith, v.bound);
          short = omega (arith, v.short, short_count-append ys (z ∷ zs), short_count-append ys zs);
        },
      )
