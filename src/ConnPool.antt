-- ===== src/ConnPool.antt =====
-- server/database.c: the pool of database connections. Each function is what one thread does while
-- it holds `pool->mutex`; a wait on `pool->cond` gives the mutex up and is a result of its own.
-- A `MYSQL *` is a number that the code only compares.
pub mod Slots
pub mod Laws
pub mod Trace
mod Tests
use netdisk.Prelude.{
  ℕ, suc, ◌+◌, ◌-◌, Bool, true, false, not, List, [], ◌∷◌, Option, none, some, ◌==◌, if◌then◌else◌,
}

-- `Connection`
pub record Connection : Type 0 where
  pub connection : ℕ
  pub in_use : Bool

-- `MAX_POOL_SIZE`
abbrev pub max_pool_size : ℕ
max_pool_size = 4

-- `Db_pool`, without its mutex and condition variable
pub record DbPool : Type 0 where
  pub connects : List Connection
  pub available : ℕ
  pub max_size : ℕ

-- the fields as `init_database_pool` leaves them, for the connections that MySQL opened
pub init_slots : List ℕ → List Connection
init_slots [] = []
init_slots (c ∷ cs) = record { connection = c; in_use = false } ∷ init_slots cs

pub init_database_pool : ℕ → ℕ → ℕ → ℕ → DbPool
unfolding init_slots
init_database_pool a b c d = record {
  connects = init_slots (a ∷ b ∷ c ∷ d ∷ []);
  available = max_pool_size;
  max_size = max_pool_size;
}

-- the loop of `get_connection`: the first slot that is not in use is taken
pub take_free : List Connection → Option (ℕ × List Connection)
take_free [] = none
take_free (s ∷ ss) =
    if not s.in_use
    then some (s.connection, record s { in_use = true } ∷ ss)
    else elim (take_free ss) [ none ↦ none | some (c, rest) ↦ some (c, s ∷ rest) ]

-- what a turn in `get_connection` comes to: the thread waits, or it returns a pointer (`none` for
-- `NULL`) and leaves the pool as given
pub data Acquired : Type 0 where
  waits : Acquired
  returned : Option ℕ → DbPool → Acquired

pub hand_out : DbPool → Option (ℕ × List Connection) → Acquired
hand_out p none = returned none p
hand_out p (some (c, slots)) =
    returned (some c) (record p { connects = slots; available = p.available - 1 })

pub get_connection : DbPool → Acquired
unfolding take_free hand_out
get_connection p = if p.available == 0 then waits else hand_out p (take_free p.connects)

-- the loop of `release_connection`: the first slot with this pointer is freed, whether in use or not
pub free_slot : ℕ → List Connection → Option (List Connection)
free_slot c [] = none
free_slot c (s ∷ ss) =
    if s.connection == c
    then some (record s { in_use = false } ∷ ss)
    else elim (free_slot c ss) [ none ↦ none | some rest ↦ some (s ∷ rest) ]

pub put_back : DbPool → Option (List Connection) → DbPool
put_back p none = p
put_back p (some slots) = record p { connects = slots; available = p.available + 1 }

pub release_connection : DbPool → ℕ → DbPool
unfolding free_slot put_back
release_connection p c = put_back p (free_slot c p.connects)

-- the test on which `destory_database_pool` waits; the pool is closed when it is false
pub must_drain : DbPool → Bool
must_drain p = not (p.available == max_pool_size)
