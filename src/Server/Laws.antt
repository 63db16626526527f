-- ===== src/Server/Laws.antt =====
-- Where the descriptors of the clients can be.
use netdisk.Prelude.{
  ℕ, ◌+◌, ◌≡◌, refl, sym, ◌∙◌, Bool, true, false, List, [], ◌∷◌, ◌++◌, some, count, ◌==◌,
  if◌then◌else◌, length, arith, Bool-cases, Option-cases, inl, inr,
}
use netdisk.TaskQueue.{suits}
use netdisk.TaskQueue.Seg.{Cell}
use netdisk.TaskQueue.Refine.{pick, oldest, serve}
use netdisk.Server.{Server, remove_node, queued}
use netdisk.Server.Steps.{total}

pub total-append :
    (weight : Cell → ℕ) (xs ys : List Cell)
    → total weight (xs ++ ys) ≡ total weight xs + total weight ys
total-append weight [] ys = omega arith
total-append weight (c ∷ xs) ys = omega (arith, total-append weight xs ys)

pub total-middle :
    (weight : Cell → ℕ) (xs : List Cell) (c : Cell) (ys : List Cell)
    → total weight (xs ++ c ∷ ys) ≡ weight c + total weight (xs ++ ys)
total-middle weight xs c ys =
    omega (arith, total-append weight xs (c ∷ ys), total-append weight xs ys)

pick-total :
    (short : Bool) (weight : Cell → ℕ) (xs : List Cell) (c : Cell) (rest : List Cell)
    → pick short xs ≡ some (c, rest)
    → total weight xs ≡ weight c + total weight rest
unfolding pick
pick-total short weight [] c rest e = cc
pick-total short weight (d ∷ xs) c rest e = elim (Bool-cases (suits short d.train.command_no)) [
  | inl hit ↦ ground (arith, hit, e)
  | inr miss ↦ elim (Option-cases (pick short xs)) [
    | inl f ↦ absurd (ground (arith, miss, e, f))
    | inr ((c', r), f) ↦ ground (arith, miss, e, f, pick-total short weight xs c' r f)
  ]
]

oldest-total :
    (short : Bool) (weight : Cell → ℕ) (xs : List Cell) (c : Cell) (rest : List Cell)
    → oldest short xs ≡ some (c, rest)
    → total weight xs ≡ weight c + total weight rest
unfolding oldest
oldest-total true weight xs c rest e = cc
oldest-total false weight [] c rest e = cc
oldest-total false weight (d ∷ xs) c rest e = ground (arith, e)

-- A request that is served is one of those that wait, and the others stay.
pub serve-total :
    (short : Bool) (weight : Cell → ℕ) (xs : List Cell) (c : Cell) (rest : List Cell)
    → serve short xs ≡ some (c, rest)
    → total weight xs ≡ weight c + total weight rest
unfolding serve oldest
serve-total short weight xs c rest e = elim (Option-cases (pick short xs)) [
  | inl f ↦ oldest-total short weight xs c rest (sym (rw (serve, f) refl) ∙ e)
  | inr ((c', r), f) ↦ ground (arith, e, f, pick-total short weight xs c' r f)
]

pub remove_node-count :
    (fd x : ℕ) (xs : List ℕ)
    → count fd xs ≡ 1
    → count x xs ≡ count x (remove_node fd xs) + (if fd == x then 1 else 0)
remove_node-count fd x [] e = absurd (omega (arith, e))
remove_node-count fd x (y ∷ xs) e = elim (Bool-cases (y == fd)) [
  | inl hit ↦ ground (arith, hit)
  | inr miss ↦ ground (arith, miss, e, remove_node-count fd x xs)
]

pub queued-total :
    (weight : Cell → ℕ) (max_size : ℕ) (c : Cell) (xs : List Cell)
    → total weight (queued max_size c xs)
      ≡ total weight xs + (if length xs == max_size then 0 else weight c)
queued-total weight max_size c xs = ground (arith, total-append weight xs (c ∷ []))
