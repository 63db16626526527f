-- ===== src/ConnPool/Laws.antt =====
-- What threads may rely on, after any history of takes and releases that starts from
-- `init_database_pool` with four different connections.
use netdisk.Prelude.{
  count, ℕ, suc, ◌+◌, ◌<◌, ◌≤◌, ◌≡◌, ◌↔◌, ◌⊎◌, inl, inr, refl, ap, false, List, [], ◌∷◌, some, ◌==◌,
  arith, length, Option-cases, Bool-cases,
}
use netdisk.ConnPool.{
  DbPool, Connection, waits, returned, max_pool_size, get_connection, release_connection,
  must_drain, take_free, free_slot,
}
use netdisk.ConnPool.Slots.{
  free_count, slot_count, used_count, used-le-slot, Taken, take_free-Taken,
}
use netdisk.ConnPool.Trace.{
  System, Reach, Inv, Differ, start, start-Inv, Reach-Inv, get_connection-cases,
}

-- Taking a free slot and freeing its pointer again gives the slots back as they were, if each
-- pointer has one slot.
free_slot-take_free :
    (ss : List Connection) (c : ℕ) (rest : List Connection)
    → ((d : ℕ) → slot_count d ss ≤ 1)
    → take_free ss ≡ some (c, rest)
    → free_slot c rest ≡ some ss
unfolding take_free free_slot
free_slot-take_free [] c rest one e = cc
free_slot-take_free (s ∷ ss) c rest one e = elim (Option-cases (take_free ss)) [
  | inl f ↦ ground (arith, f)
  | inr ((d, r), f) ↦ ground (
    arith,
    f,
    one d,
    take_free-Taken ss d r f,
    free_slot-take_free ss d r (λ x. ground (arith, one x)) f,
  )
]

module _ (a b c d : ℕ) (differ : Differ a b c d) {t : System} (r : Reach (start a b c d) t) where
  inv : Inv t
  inv = Reach-Inv r (start-Inv a b c d differ)

-- After any history of takes and releases of the pool's four different connections, no connection is
-- held twice, and `available` is the number of connections that are not held.
pub held_once :
    (a b c d : ℕ)
    → Differ a b c d
    → {t : System} → Reach (start a b c d) t
    → ((x : ℕ) → count x t.held ≤ 1) × (t.pool.available + length t.held ≡ max_pool_size)
held_once a b c d differ {t} r =
    let v = inv a b c d differ r in
    (λ x. omega (arith, v.exact x, v.distinct x, used-le-slot x t.pool.connects), v.lent)

-- After any history of takes and releases of the pool's four different connections,
-- `get_connection` waits if all four are held, and otherwise returns a connection that nobody holds; it
-- never returns NULL.
pub get_connection_total :
    (a b c d : ℕ)
    → Differ a b c d
    → {t : System} → Reach (start a b c d) t
    → ((get_connection t.pool ≡ waits) × (length t.held ≡ max_pool_size))
      ⊎ ((x : ℕ) × (q : DbPool) × (get_connection t.pool ≡ returned (some x) q)
          × (length t.held < max_pool_size)
          × (count x t.held ≡ 0))
get_connection_total a b c d differ {t} r = elim (get_connection-cases t.pool v.available) [
  | inl (w, full) ↦ inl (w, omega (arith, v.lent, v.available))
  | inr (x, rest, e, k) ↦ inr (x, _, e, omega (arith, v.lent, v.available, k.free), fresh x rest k)
]
  where
    v : Inv t
    v = inv a b c d differ r

    fresh : (x : ℕ) (rest : List Connection) → Taken t.pool.connects x rest → count x t.held ≡ 0
    fresh x rest k =
        ground (arith, v.exact x, v.distinct x, k.used x, k.slots x, used-le-slot x rest)

-- After any history of takes and releases of the pool's four different connections, a
-- thread that takes a connection and releases it at once leaves the pool exactly as it found it.
pub release-get :
    (a b c d : ℕ)
    → Differ a b c d
    → {t : System} → Reach (start a b c d) t
    → (x : ℕ) (q : DbPool) → get_connection t.pool ≡ returned (some x) q
    → release_connection q x ≡ t.pool
unfolding get_connection release_connection
release-get a b c d differ {t} r x q e =
    let v = inv a b c d differ r in
    elim (Option-cases (take_free t.pool.connects)) [
      | inl f ↦ ground (arith, f)
      | inr ((y, rest), f) ↦
          ground (arith, f, free_slot-take_free t.pool.connects y rest v.distinct f)
    ]

-- After any history of takes and releases of the pool's four different connections,
-- `destory_database_pool` goes on to close the connections exactly when no thread holds one.
pub must_drain-held :
    (a b c d : ℕ)
    → Differ a b c d
    → {t : System} → Reach (start a b c d) t
    → (must_drain t.pool ≡ false) ↔ (t.held ≡ [])
unfolding must_drain
must_drain-held a b c d differ {t} r =
    (λ e. empty t.held (ground (arith, v.lent)), λ e. ground (arith, v.lent, ap (length {A = ℕ}) e))
  where
    v : Inv t
    v = inv a b c d differ r

    empty : (xs : List ℕ) → length xs ≡ 0 → xs ≡ []
    empty [] h = refl
    empty (x ∷ xs) h = absurd (omega arith)

free_slot_idle :
    (c : ℕ) (ss : List Connection)
    → slot_count c ss ≡ 1
    → used_count c ss ≡ 0
    → (rest : List Connection) × (free_slot c ss ≡ some rest) × (free_count rest ≡ free_count ss)
unfolding free_slot
free_slot_idle c [] one idle = absurd (omega arith)
free_slot_idle c (s ∷ ss) one idle = elim (Bool-cases (s.connection == c)) [
  | inl hit ↦ (record s { in_use = false } ∷ ss, rw hit, ground arith)
  | inr miss ↦
      let (rest, e, f) = free_slot_idle c ss (ground arith) (ground arith) in
      (s ∷ rest, ground (arith, e), ground (arith, f))
]

-- A release of a connection of the pool that nobody holds is not noticed: in a pool in order it makes
-- `available` exceed the number of free slots by one.
pub double_release :
    {s : System} (c : ℕ)
    → Inv s
    → slot_count c s.pool.connects ≡ 1
    → count c s.held ≡ 0
    → (release_connection s.pool c).available
      ≡ suc (free_count (release_connection s.pool c).connects)
unfolding release_connection
double_release {s} c v one idle =
    let (rest, e, f) = free_slot_idle c s.pool.connects one (omega (arith, v.exact c)) in
    ground (arith, e, f, v.available)
