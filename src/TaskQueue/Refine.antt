-- ===== src/TaskQueue/Refine.antt =====
-- `dequeue` against its description on plain lists.
use netdisk.Prelude.{
  ℕ, ◌≡◌, refl, sym, ap, ◌∙◌, Bool, true, false, List, [], ◌∷◌, ◌++◌, Option, none, some,
  if◌then◌else◌, subst, inl, inr,
}
use netdisk.Wire.{TransFile}
use netdisk.Memory.{Mem}
use netdisk.TaskQueue.{TaskQueue, suits, dequeue}
use netdisk.TaskQueue.Seg.{Cell, Holds, Returns, Returns-map}
use netdisk.TaskQueue.Walk.{NoneSuits, suits_cases}
use netdisk.TaskQueue.Dequeue.{Took, dequeue_oldest, dequeue_missed, dequeue_only, dequeue_behind}

-- the first request that suits, and the others in their order
unfoldable pub pick : Bool → List Cell → Option (Cell × List Cell)
pick short [] = none
pick short (c ∷ xs) =
    let rest = pick short xs in
    if suits short c.train.command_no
    then some (c, xs)
    else elim rest [ none ↦ none | some (d, r) ↦ some (d, c ∷ r) ]

-- what a worker but the short thread takes when nothing suits
unfoldable pub oldest : Bool → List Cell → Option (Cell × List Cell)
oldest true xs = none
oldest false [] = none
oldest false (c ∷ xs) = some (c, xs)

-- The promise of `dequeue`: the request, with the requests that stay.
unfoldable pub serve : Bool → List Cell → Option (Cell × List Cell)
unfolding pick oldest
serve short xs = elim (pick short xs) [ none ↦ oldest short xs | some r ↦ some r ]

-- The request at the head does not suit, or it is the only one: the case in which the head is not lost.
abbrev pub HeadFree : Bool → List Cell → Type 0
HeadFree short [] = Unit {0}
HeadFree short (c ∷ []) = Unit {0}
HeadFree short (c ∷ d ∷ xs) = suits short c.train.command_no ≡ false

pub pick-found :
    (short : Bool) (ys : List Cell) (z : Cell) (zs : List Cell)
    → NoneSuits short ys
    → suits short z.train.command_no ≡ true
    → pick short (ys ++ z ∷ zs) ≡ some (z, ys ++ zs)
unfolding pick
pick-found short [] z zs before hit = rw hit refl
pick-found short (y ∷ ys) z zs before hit =
    rw (before.0, pick-found short ys z zs before.1 hit) refl

pub pick-none : (short : Bool) (xs : List Cell) → NoneSuits short xs → pick short xs ≡ none
unfolding pick
pick-none short [] before = refl
pick-none short (y ∷ ys) before = rw (before.0, pick-none short ys before.1) refl

-- What `dequeue` has to leave: the request is returned, its node is freed, and the queue is in order with the
-- others; or -1 is returned, and the queue is in order with the requests it had.
abbrev pub Served :
    List Cell → Option (Cell × List Cell) → Option (ℕ × TransFile) × TaskQueue → Mem → Type 0
Served xs none (r, q) g = (r ≡ none) × Holds g q xs
Served xs (some (c, rest)) out g = Took c rest out g

pub serve-pick :
    (short : Bool) (xs : List Cell) (r : Cell × List Cell)
    → pick short xs ≡ some r
    → serve short xs ≡ some r
unfolding serve
serve-pick short xs r e = rw (serve, e) refl

serve-oldest :
    (short : Bool) (xs : List Cell) → NoneSuits short xs → serve short xs ≡ oldest short xs
unfolding serve
serve-oldest short xs h = rw (serve, pick-none short xs h) refl

-- Nothing suits.
misses-Served :
    (h : Mem) (q : TaskQueue) (short : Bool) (c : Cell) (xs : List Cell)
    → Holds h q (c ∷ xs)
    → NoneSuits short (c ∷ xs)
    → Returns (Served (c ∷ xs) (oldest short (c ∷ xs))) (dequeue short q h)
unfolding oldest
misses-Served h q true c xs v misses =
    Returns-map _ _ (dequeue true q h)
      (λ (r, q') g (e, same, w). (e, subst (λ p. Holds g p (c ∷ xs)) (sym same) w))
      (dequeue_missed h q c xs v misses)
misses-Served h q false c xs v misses = dequeue_oldest h q c xs v misses

-- The first request that suits is `z`.
hit-Served :
    (h : Mem) (q : TaskQueue) (short : Bool) (ys : List Cell) (z : Cell) (zs : List Cell)
    → Holds h q (ys ++ z ∷ zs)
    → HeadFree short (ys ++ z ∷ zs)
    → NoneSuits short ys
    → suits short z.train.command_no ≡ true
    → Returns (Took z (ys ++ zs)) (dequeue short q h)
hit-Served h q short [] z [] v free before hit = dequeue_only h q short z v hit
hit-Served h q short [] z (w ∷ ws) v free before hit = cc
hit-Served h q short (y ∷ ys) z zs v free before hit =
    dequeue_behind h q short y ys z zs v before hit

-- `dequeue` keeps the promise of `serve`, for a queue in order that is not empty and whose head is not lost: a
-- worker gets the first request that suits it; without one, the short thread gets -1 and any other
-- worker the oldest request; and the queue stays in order with the requests that are left.
pub dequeue_refines-serve :
    (h : Mem) (q : TaskQueue) (short : Bool) (c : Cell) (xs : List Cell)
    → Holds h q (c ∷ xs)
    → HeadFree short (c ∷ xs)
    → Returns (Served (c ∷ xs) (serve short (c ∷ xs))) (dequeue short q h)
dequeue_refines-serve h q short c xs v free = elim (suits_cases short (c ∷ xs)) [
  | inl misses ↦
      subst (λ o. Returns (Served (c ∷ xs) o) (dequeue short q h))
        (sym (serve-oldest short (c ∷ xs) misses)) (misses-Served h q short c xs v misses)
  | inr (ys, z, zs, e, before, hit) ↦
      subst (λ o. Returns (Served (c ∷ xs) o) (dequeue short q h))
        (sym (
          serve-pick short (c ∷ xs) (z, ys ++ zs)
            (ap (pick short) e ∙ pick-found short ys z zs before hit)))
        (hit-Served h q short ys z zs (subst (Holds h q) e v) (subst (HeadFree short) e free) before
          hit)
]
