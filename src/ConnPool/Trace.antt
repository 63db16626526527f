-- ===== src/ConnPool/Trace.antt =====
-- Threads that take connections from the pool and give them back, in any order. `held` lists the
-- pointers that some thread has and has not yet released.
use netdisk.Prelude.{
  ℕ, suc, ◌+◌, ◌-◌, ◌≤◌, ◌≡◌, ◌⊎◌, inl, inr, refl, ap, List, [], ◌∷◌, ◌++◌, some, ◌==◌, arith,
  length, length-append, Option-cases, count, count-middle, Bool-cases,
}
use netdisk.ConnPool.{
  DbPool, Connection, waits, returned, max_pool_size, init_database_pool, get_connection,
  release_connection, take_free,
}
use netdisk.ConnPool.Slots.{
  free_count, slot_count, used_count, used-le-slot, Taken, take_free-none, take_free-Taken,
  free_slot-Freed,
}

pub record System : Type 0 where
  pub pool : DbPool
  pub held : List ℕ

pub data Step : System → System → Type 0 where
  take :
      {s : System} {c : ℕ} {q : DbPool}
      → get_connection s.pool ≡ returned (some c) q
      → Step s (record { pool = q; held = c ∷ s.held })
  give :
      {s : System} (xs : List ℕ) (c : ℕ) (ys : List ℕ)
      → s.held ≡ xs ++ c ∷ ys
      → Step s (record { pool = release_connection s.pool c; held = xs ++ ys })

pub data Reach (s : System) : System → Type 0 where
  here : Reach s s
  next : {t u : System} → Reach s t → Step t u → Reach s u

-- `available` counts the free slots, every pointer has its slot, and the slots in use are the
-- connections that the threads hold.
pub record Inv (s : System) : Type 0 where
  pub available : s.pool.available ≡ free_count s.pool.connects
  pub lent : s.pool.available + length s.held ≡ max_pool_size
  pub distinct : (c : ℕ) → slot_count c s.pool.connects ≤ 1
  pub exact : (c : ℕ) → count c s.held ≡ used_count c s.pool.connects

abbrev pub Differ : ℕ → ℕ → ℕ → ℕ → Type 0
Differ a b c d = (¬ (a ≡ b)) × (¬ (a ≡ c)) × (¬ (a ≡ d)) × (¬ (b ≡ c)) × (¬ (b ≡ d)) × (¬ (c ≡ d))

abbrev pub start : ℕ → ℕ → ℕ → ℕ → System
start a b c d = record { pool = init_database_pool a b c d; held = [] }

pub start-Inv : (a b c d : ℕ) → Differ a b c d → Inv (start a b c d)
unfolding init_database_pool
start-Inv a b c d h = record {
  available = refl;
  lent = refl;
  distinct = λ x. ground arith;
  exact = λ x. ground arith;
}

-- What `get_connection` does to a pool in order: it waits exactly when every slot is in use, and
-- otherwise returns a pointer, never NULL.
pub get_connection-cases :
    (p : DbPool)
    → p.available ≡ free_count p.connects
    → ((get_connection p ≡ waits) × (free_count p.connects ≡ 0))
      ⊎ ((c : ℕ) × (rest : List Connection) × (get_connection p
            ≡ returned (some c) (record p { connects = rest; available = p.available - 1 }))
          × Taken p.connects c rest)
unfolding get_connection
get_connection-cases p av = elim (Bool-cases (p.available == 0)) [
  | inl z ↦ inl (rw z, ground arith)
  | inr nz ↦ elim (Option-cases (take_free p.connects)) [
    | inl e ↦ absurd (ground (arith, take_free-none p.connects e))
    | inr ((c, rest), e) ↦ inr (c, rest, rw (nz, e), take_free-Taken p.connects c rest e)
  ]
]

take-Inv :
    {s : System} {c : ℕ} {q : DbPool}
    → get_connection s.pool ≡ returned (some c) q
    → Inv s
    → Inv (record { pool = q; held = c ∷ s.held })
take-Inv {s} {c} {q} e v = elim (get_connection-cases s.pool v.available) [
  | inl (w, _) ↦ ground arith
  | inr (d, rest, r, t) ↦ record {
    available = ground (arith, v.available, t.free);
    lent = ground (arith, v.available, v.lent, t.free);
    distinct = λ x. ground (arith, t.slots x, v.distinct x);
    exact = λ x. ground (arith, t.used x, v.exact x);
  }
]

length-middle :
    (xs : List ℕ) (c : ℕ) (ys : List ℕ) → length (xs ++ c ∷ ys) ≡ suc (length (xs ++ ys))
length-middle xs c ys = omega (arith, length-append {0} xs (c ∷ ys), length-append {0} xs ys)

-- a pointer that is held stands in a slot in use
held_used :
    {s : System} (xs : List ℕ) (c : ℕ) (ys : List ℕ)
    → s.held ≡ xs ++ c ∷ ys
    → Inv s
    → used_count c s.pool.connects ≡ 1
held_used {s} xs c ys e v = ground (
  arith,
  v.exact c,
  v.distinct c,
  used-le-slot c s.pool.connects,
  count-middle c xs c ys,
  ap (count c) e,
)

give-Inv :
    {s : System} (xs : List ℕ) (c : ℕ) (ys : List ℕ)
    → s.held ≡ xs ++ c ∷ ys
    → Inv s
    → Inv (record { pool = release_connection s.pool c; held = xs ++ ys })
unfolding release_connection
give-Inv {s} xs c ys e v =
    let (rest, f, t) = free_slot-Freed c s.pool.connects (v.distinct c) (held_used xs c ys e v) in
    record {
      available = ground (arith, f, t.free, v.available);
      lent = ground (arith, f, v.lent, length-middle xs c ys, ap (length {A = ℕ}) e);
      distinct = λ x. ground (arith, f, t.slots x, v.distinct x);
      exact = λ x. ground (arith, f, t.used x, v.exact x, count-middle x xs c ys, ap (count x) e);
    }

Step-Inv : {s t : System} → Step s t → Inv s → Inv t
Step-Inv (take e) v = take-Inv e v
Step-Inv (give xs c ys e) v = give-Inv xs c ys e v

-- Every history of takes and releases keeps the pool in order.
pub Reach-Inv : {s t : System} → Reach s t → Inv s → Inv t
Reach-Inv here v = v
Reach-Inv (next r st) v = Step-Inv st (Reach-Inv r v)
