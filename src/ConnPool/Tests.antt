-- ===== src/ConnPool/Tests.antt =====
-- The pool's functions at small inputs, and the theorems of `Laws` at a pool with one connection lent.
use netdisk.Prelude.{
  count, ℕ, ◌<◌, ◌≤◌, ◌+◌, ◌≡◌, ◌⊎◌, refl, true, false, [], ◌∷◌, some, arith, length,
}
use netdisk.ConnPool.{
  DbPool, waits, returned, max_pool_size, init_database_pool, get_connection, release_connection,
}
use netdisk.ConnPool.Trace.{System, Reach, here, next, take, Differ, start}
use netdisk.ConnPool.Laws.{held_once, get_connection_total}

abbrev lent : DbPool
lent = record {
  connects =
      record { connection = 11; in_use = true }
      ∷ record { connection = 12; in_use = false }
      ∷ record { connection = 13; in_use = false }
      ∷ record { connection = 14; in_use = false }
      ∷ [];
  available = 3;
  max_size = 4;
}

abbrev one_held : System
one_held = record { pool = lent; held = 11 ∷ [] }

differ : Differ 11 12 13 14
differ = omega arith

took : Reach (start 11 12 13 14) one_held
unfolding get_connection init_database_pool
took = next here (take refl)

-- the pool after the connection came back
back : release_connection lent 11 ≡ init_database_pool 11 12 13 14
unfolding release_connection init_database_pool
back = refl

-- a second release of the same connection counts five free slots
twice : (release_connection (release_connection lent 11) 11).available ≡ 5
unfolding release_connection
twice = refl

full : get_connection (record lent { available = 0 }) ≡ waits
unfolding get_connection
full = refl

held_once_example :
    ((x : ℕ) → count x (11 ∷ []) ≤ 1) × (lent.available + length {A = ℕ} (11 ∷ []) ≡ max_pool_size)
held_once_example = held_once 11 12 13 14 differ took

get_connection_total_example :
    ((get_connection lent ≡ waits) × (length {A = ℕ} (11 ∷ []) ≡ max_pool_size))
    ⊎ ((x : ℕ) × (q : DbPool) × (get_connection lent ≡ returned (some x) q)
        × (length {A = ℕ} (11 ∷ []) < max_pool_size)
        × (count x (11 ∷ []) ≡ 0))
get_connection_total_example = get_connection_total 11 12 13 14 differ took

abbrev two_lent : DbPool
two_lent = record {
  connects =
      record { connection = 11; in_use = true }
      ∷ record { connection = 12; in_use = true }
      ∷ record { connection = 13; in_use = false }
      ∷ record { connection = 14; in_use = false }
      ∷ [];
  available = 2;
  max_size = 4;
}
