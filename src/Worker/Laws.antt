-- ===== src/Worker/Laws.antt =====
-- When a worker waits, ends, or gets a request.
use netdisk.Prelude.{
  ℕ, ◌≡◌, ◌≢◌, ◌⊎◌, inl, inr, refl, sym, ap, Bool, true, false, List, [], ◌∷◌, Option, none, some,
  ◌==◌, if◌then◌else◌, arith, length, Bool-cases, Option-cases, subst,
}
use netdisk.Wire.{TransFile, is_long}
use netdisk.Memory.{Mem, Outcome, done, crash, spent, give, chain}
use netdisk.TaskQueue.{TaskQueue, dequeue}
use netdisk.TaskQueue.Seg.{Cell, Holds, Returns, short_count}
use netdisk.TaskQueue.Walk.{NoneSuits}
use netdisk.TaskQueue.Dequeue.{Took}
use netdisk.TaskQueue.Refine.{
  pick, oldest, serve, serve-pick, HeadFree, Served, dequeue_refines-serve,
}
use netdisk.Worker.{waits, exits, took, must_wait, woken, take_task}

-- There is nothing for the worker: no request at all or, for the short thread, only `puts` and `gets`.
abbrev pub NoTask : Bool → List Cell → Type 0
NoTask short xs = (xs ≡ []) ⊎ ((short ≡ true) × NoneSuits true xs)

long_only : (xs : List Cell) → short_count xs ≡ 0 → NoneSuits true xs
long_only [] e = tt
long_only (c ∷ xs) e = (ground (arith, e), long_only xs (omega (arith, e)))

empty_only : (xs : List Cell) → length xs ≡ 0 → xs ≡ []
empty_only [] e = refl
empty_only (c ∷ xs) e = absurd (omega (arith, e))

must_wait-NoTask :
    (h : Mem) (q : TaskQueue) (short : Bool) (xs : List Cell)
    → Holds h q xs
    → must_wait short q ≡ true
    → NoTask short xs
must_wait-NoTask h q short xs v e = elim (Bool-cases (q.queue_size == 0)) [
  | inl z ↦ inl (empty_only xs (ground (arith, z, v.size)))
  | inr nz ↦ inr (ground (arith, e, nz), long_only xs (ground (arith, e, nz, v.short)))
]

pick_short : (xs : List Cell) → pick true xs ≡ none → short_count xs ≡ 0
unfolding pick
pick_short [] e = refl
pick_short (c ∷ xs) e = elim (Bool-cases (is_long c.train.command_no)) [
  | inl long ↦ elim (Option-cases (pick true xs)) [
    | inl f ↦ ground (arith, long, pick_short xs f)
    | inr (d, f) ↦ absurd (ground (arith, long, e, f))
  ]
  | inr short ↦ absurd (ground (arith, short, e))
]

-- A worker that need not wait is served.
must_wait-serve :
    (h : Mem) (q : TaskQueue) (short : Bool) (xs : List Cell)
    → Holds h q xs
    → must_wait short q ≡ false
    → serve short xs ≢ none
unfolding serve oldest
must_wait-serve h q short [] v e n = absurd (ground (arith, e, v.size))
must_wait-serve h q true (c ∷ xs) v e n = elim (Option-cases (pick true (c ∷ xs))) [
  | inl f ↦ absurd (ground (arith, e, v.short, pick_short (c ∷ xs) f))
  | inr (r, f) ↦ let s = serve-pick true (c ∷ xs) r f in cc
]
must_wait-serve h q false (c ∷ xs) v e n = elim (Option-cases (pick false (c ∷ xs))) [
  | inl f ↦ let s : serve false (c ∷ xs) ≡ some (c, xs) = rw (serve, f) refl in cc
  | inr (r, f) ↦ let s = serve-pick false (c ∷ xs) r f in cc
]

-- what is left of `take_task` behind the call of `dequeue`
Returns-woken :
    (c : Cell) (rest : List Cell) (out : Outcome (Option (ℕ × TransFile) × TaskQueue))
    → Returns (Took c rest) out
    → Returns
        (λ (w, q') g. (w ≡ took c.netfd c.train) × Holds g q' rest)
        (chain (λ (r, q'). give (woken r, q')) out)
Returns-woken c rest (done (r, q') g) h = (ap woken h.0, h.2)
Returns-woken c rest crash h = elim h [ ]
Returns-woken c rest spent h = elim h [ ]

serve-dequeue :
    (h : Mem) (q : TaskQueue) (short : Bool) (xs : List Cell) (c : Cell) (rest : List Cell)
    → Holds h q xs
    → HeadFree short xs
    → serve short xs ≡ some (c, rest)
    → Returns (Took c rest) (dequeue short q h)
unfolding serve oldest
serve-dequeue h q true [] c rest v free e = cc
serve-dequeue h q false [] c rest v free e = cc
serve-dequeue h q short (d ∷ xs) c rest v free e =
    subst (λ o. Returns (Served (d ∷ xs) o) (dequeue short q h)) e
      (dequeue_refines-serve h q short d xs v free)

take_task-dequeue :
    (exit short : Bool) (h : Mem) (q : TaskQueue)
    → must_wait short q ≡ false
    → take_task exit short q h ≡ chain (λ (r, q'). give (woken r, q')) (dequeue short q h)
unfolding take_task
take_task-dequeue exit short h q go = rw (take_task, go) refl

-- A worker that looks into a queue in order, whose head is not lost to it: if there is nothing for it, it waits or, on
-- the way out, ends, and queue and memory stay; otherwise it gets a request, the one that `serve` names, and the
-- queue is in order with the others. It never goes on with -1.
pub take_task-serve :
    (exit short : Bool) (h : Mem) (q : TaskQueue) (xs : List Cell)
    → Holds h q xs
    → HeadFree short xs
    → (NoTask short xs × (take_task exit short q h ≡ done ((if exit then exits else waits), q) h))
      ⊎ ((c : Cell) × (rest : List Cell) × (serve short xs ≡ some (c, rest))
          × Returns
              (λ (w, q') g. (w ≡ took c.netfd c.train) × Holds g q' rest)
              (take_task exit short q h))
unfolding take_task
take_task-serve exit short h q xs v free = elim (Bool-cases (must_wait short q)) [
  | inl wait ↦ inl (must_wait-NoTask h q short xs v wait, ground (arith, wait))
  | inr go ↦ elim (Option-cases (serve short xs)) [
    | inl e ↦ absurd (must_wait-serve h q short xs v go e)
    | inr ((c, rest), e) ↦ inr (
      c,
      rest,
      e,
      subst (Returns (λ (w, q') g. (w ≡ took c.netfd c.train) × Holds g q' rest))
          (sym (take_task-dequeue exit short h q go))
          (Returns-woken c rest (dequeue short q h) (serve-dequeue h q short xs c rest v free e)),
    )
  ]
]
