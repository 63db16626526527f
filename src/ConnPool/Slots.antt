-- ===== src/ConnPool/Slots.antt =====
-- The two loops over `pool->connects`, by counting slots.
use netdisk.Prelude.{
  ℕ, suc, ◌+◌, ◌≤◌, ◌≡◌, inl, inr, refl, false, List, [], ◌∷◌, none, some, ◌==◌, if◌then◌else◌,
  arith, length, Option-cases, Bool-cases,
}
use netdisk.ConnPool.{Connection, take_free, free_slot}

-- the number of slots that are not in use
abbrev pub free_count : List Connection → ℕ
free_count [] = 0
free_count (s ∷ ss) = (if s.in_use then 0 else 1) + free_count ss

-- the number of slots with the pointer `c`
abbrev pub slot_count : ℕ → List Connection → ℕ
slot_count c [] = 0
slot_count c (s ∷ ss) = (if s.connection == c then 1 else 0) + slot_count c ss

-- the number of slots in use with the pointer `c`
abbrev pub used_count : ℕ → List Connection → ℕ
used_count c [] = 0
used_count c (s ∷ ss) =
    (if s.connection == c then (if s.in_use then 1 else 0) else 0) + used_count c ss

pub used-le-slot : (c : ℕ) (ss : List Connection) → used_count c ss ≤ slot_count c ss
used-le-slot c [] = omega arith
used-le-slot c (s ∷ ss) = ground (arith, used-le-slot c ss)

-- No free slot is found only when there is none.
pub take_free-none : (ss : List Connection) → take_free ss ≡ none → free_count ss ≡ 0
unfolding take_free
take_free-none [] h = refl
take_free-none (s ∷ ss) h = ground (arith, take_free-none ss)

-- what taking a slot does to the counts
pub record Taken (ss : List Connection) (c : ℕ) (rest : List Connection) : Type 0 where
  pub free : suc (free_count rest) ≡ free_count ss
  pub size : length rest ≡ length ss
  pub present : 1 ≤ slot_count c ss
  pub slots : (d : ℕ) → slot_count d rest ≡ slot_count d ss
  pub used : (d : ℕ) → used_count d rest ≡ (if c == d then 1 else 0) + used_count d ss

pub take_free-Taken :
    (ss : List Connection) (c : ℕ) (rest : List Connection)
    → take_free ss ≡ some (c, rest)
    → Taken ss c rest
unfolding take_free
take_free-Taken [] c rest h = cc
take_free-Taken (s ∷ ss) c rest h = elim (Option-cases (take_free ss)) [
  | inl e ↦ record {
    free = ground (arith, e);
    size = ground (arith, e);
    present = ground (arith, e);
    slots = λ d. ground (arith, e);
    used = λ d. ground (arith, e);
  }
  | inr ((d, r), e) ↦
      let t = take_free-Taken ss d r e in
      record {
        free = ground (arith, e, t.free);
        size = ground (arith, e, t.size);
        present = ground (arith, e, t.present);
        slots = λ x. ground (arith, e, t.slots x);
        used = λ x. ground (arith, e, t.used x);
      }
]

-- what freeing the slot of a pointer in use does to the counts
pub record Freed (ss : List Connection) (c : ℕ) (rest : List Connection) : Type 0 where
  pub free : free_count rest ≡ suc (free_count ss)
  pub size : length rest ≡ length ss
  pub slots : (d : ℕ) → slot_count d rest ≡ slot_count d ss
  pub used : (d : ℕ) → (if c == d then 1 else 0) + used_count d rest ≡ used_count d ss

pub free_slot-Freed :
    (c : ℕ) (ss : List Connection)
    → slot_count c ss ≤ 1
    → used_count c ss ≡ 1
    → (rest : List Connection) × (free_slot c ss ≡ some rest) × Freed ss c rest
unfolding free_slot
free_slot-Freed c [] one busy = absurd (omega arith)
free_slot-Freed c (s ∷ ss) one busy = elim (Bool-cases (s.connection == c)) [
  | inl hit ↦ (
    record s { in_use = false } ∷ ss,
    rw hit,
    record {
      free = ground (arith, used-le-slot c ss);
      size = refl;
      slots = λ d. refl;
      used = λ d. ground (arith, used-le-slot c ss);
    },
  )
  | inr miss ↦
      let (rest, e, t) = free_slot-Freed c ss (ground arith) (ground arith) in
      (
        s ∷ rest,
        ground (arith, e),
        record {
          free = ground (arith, t.free);
          size = ground (arith, t.size);
          slots = λ d. ground (arith, t.slots d);
          used = λ d. ground (arith, t.used d);
        },
      )
]
