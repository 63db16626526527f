-- ===== src/TaskQueue/Walk.antt =====
-- The loops of `dequeue` over a well-formed list: where the search stops, and that the second loop
-- changes nothing.
use mathlib.Core.Logic.{◌≢◌}
use netdisk.Prelude.{
  ℕ, zero, suc, ◌<◌, ◌≡◌, refl, ◌⊎◌, inl, inr, Bool, true, false, List, [], ◌∷◌, ◌++◌, some,
  if◌then◌else◌, arith, length, Bool-cases,
}
use netdisk.Memory.{Ptr, null, Node, Mem, done, read_node-done}
use netdisk.TaskQueue.{suits, walk, log_walk}
use netdisk.TaskQueue.Seg.{Cell, first, last, node_of, Seg}

-- what the search finds: the address before the node, and the node's or NULL
pub scan : Bool → Ptr → List Cell → Ptr × Ptr
scan short prev [] = (prev, null)
scan short prev (c ∷ xs) =
    if suits short c.train.command_no then (prev, c.addr) else scan short c.addr xs

-- none of the requests is one at which the search stops
abbrev pub NoneSuits : Bool → List Cell → Type 0
NoneSuits short [] = Unit {0}
NoneSuits short (c ∷ xs) = (suits short c.train.command_no ≡ false) × NoneSuits short xs

pub scan-found :
    (short : Bool) (prev : Ptr) (ys : List Cell) (z : Cell) (zs : List Cell)
    → NoneSuits short ys
    → suits short z.train.command_no ≡ true
    → scan short prev (ys ++ z ∷ zs) ≡ (last prev ys, z.addr)
unfolding scan
scan-found short prev [] z zs none_before hit = rw hit
scan-found short prev (y ∷ ys) z zs none_before hit =
    rw none_before.0 (scan-found short y.addr ys z zs none_before.1 hit)

pub scan-none :
    (short : Bool) (prev : Ptr) (xs : List Cell)
    → NoneSuits short xs
    → scan short prev xs ≡ (last prev xs, null)
unfolding scan
scan-none short prev [] h = refl
scan-none short prev (c ∷ xs) h = rw h.0 (scan-none short c.addr xs h.1)

pub walk-scan :
    (k : ℕ) (short : Bool) (h : Mem) (prev : Ptr) (n : Node) (xs : List Cell)
    → length xs < k
    → prev ≢ null
    → h prev ≡ some n
    → n.next ≡ first xs null
    → Seg h xs null
    → walk k short prev (first xs null) h ≡ done (scan short prev xs) h
unfolding walk scan
walk-scan zero short h prev n xs fuel nz e link s = absurd (omega arith)
walk-scan (suc k) short h prev n [] fuel nz e link s = refl
walk-scan (suc k) short h prev n (c ∷ xs) fuel nz e link s =
    elim (Bool-cases (suits short c.train.command_no)) [
      | inl hit ↦ ground (arith, hit, read_node-done h c.addr (node_of c (first xs null)), s.0, s.1)
      | inr miss ↦ ground (
        arith,
        miss,
        read_node-done h c.addr (node_of c (first xs null)),
        read_node-done h prev n nz e,
        s.0,
        s.1,
        walk-scan k short h c.addr (node_of c (first xs null)) xs (omega arith) (omega (arith, s.0))
            s.1 refl s.3,
      )
    ]

pub log_walk-done :
    (k : ℕ) (h : Mem) (xs : List Cell)
    → length xs < k
    → Seg h xs null
    → log_walk k (first xs null) h ≡ done tt h
unfolding log_walk
log_walk-done zero h xs fuel s = absurd (omega arith)
log_walk-done (suc k) h [] fuel s = refl
log_walk-done (suc k) h (c ∷ xs) fuel s = ground (
  arith,
  s.0,
  read_node-done h c.addr (node_of c (first xs null)),
  s.1,
  log_walk-done k h xs (omega arith) s.3,
)

-- Either the search runs to the end, or it stops at the first request that suits.
pub suits_cases :
    (short : Bool) (xs : List Cell)
    → NoneSuits short xs
      ⊎ ((ys : List Cell) × (z : Cell) × (zs : List Cell) × (xs ≡ ys ++ z ∷ zs)
          × NoneSuits short ys
          × (suits short z.train.command_no ≡ true))
suits_cases short [] = inl tt
suits_cases short (c ∷ xs) = elim (Bool-cases (suits short c.train.command_no)) [
  | inl hit ↦ inr ([], c, xs, refl, tt, hit)
  | inr miss ↦ elim (suits_cases short xs) [
    | inl rest ↦ inl (miss, rest)
    | inr (ys, z, zs, e, before, hit) ↦ inr (c ∷ ys, z, zs, cc, (miss, before), hit)
  ]
]
