-- ===== src/Memory.antt =====
-- Memory for the linked queue of server/taskQueue.c: addresses that hold a node or nothing. Reading
-- or writing where no node lives is a fault. Address 0 is NULL and holds no node; address 1 is the
-- local `Node temp` of `dequeue`; the nodes that `calloc` returns lie above.
use netdisk.Prelude.{ℕ, ◌≡◌, ◌≢◌, Option, none, some, ◌==◌, if◌then◌else◌, arith}
use netdisk.Wire.{TransFile}

-- an address
abbrev pub Ptr : Type 0
Ptr = ℕ

abbrev pub null : Ptr
null = 0

-- `struct node`
pub record Node : Type 0 where
  pub train : TransFile
  pub netfd : ℕ
  pub next : Ptr

-- what lies at each address
abbrev pub Mem : Type 0
Mem = Ptr → Option Node

-- how an action ends: with a value and the memory after it, in an access that C does not allow, or
-- because a loop has used up its rounds
pub data Outcome (A : Type 0) : Type 0 where
  crash : Outcome A
  spent : Outcome A
  done : (result : A) (after : Mem) → Outcome A

abbrev pub Act : (A : Type 0) → Type 0
Act A = (before : Mem) → Outcome A

abbrev pub give : {A : Type 0} → A → Act A
give result m = done result m

infixl 5 ◌>>=◌ ◌>>◌
-- the rest of a block, once its first action has ended
abbrev pub chain : {A B : Type 0} → (A → Act B) → Outcome A → Outcome B
chain rest crash = crash
chain rest spent = spent
chain rest (done result after) = rest result after

abbrev pub ◌>>=◌ : {A B : Type 0} → Act A → (A → Act B) → Act B
first >>= rest = λ m. chain rest (first m)

abbrev pub ◌>>◌ : {A B : Type 0} → Act A → Act B → Act B
first >> second = λ m. chain (λ _. second) (first m)

unfoldable pub overwrite : Mem → Ptr → Option Node → Mem
overwrite m p cell = λ a. if a == p then cell else m a

-- fills an address or empties it
abbrev pub put_cell : Ptr → Option Node → Act (Unit {0})
put_cell p cell = λ m. done tt (overwrite m p cell)

-- `*p`
unfoldable pub read_node : Ptr → Act Node
read_node p = λ m. if p == null then crash else elim (m p) [ some n ↦ done n m | none ↦ crash ]

-- `p->next = q`
unfoldable pub link_to : Ptr → Ptr → Act (Unit {0})
unfolding read_node
link_to p q = read_node p >>= λ n. put_cell p (some (record n { next = q }))

-- `free(p)`
unfoldable pub free_node : Ptr → Act (Unit {0})
unfolding read_node
free_node p = do n ← read_node p; put_cell p none

pub read_node-done :
    (h : Mem) (p : Ptr) (n : Node) → p ≢ null → h p ≡ some n → read_node p h ≡ done n h
unfolding read_node
read_node-done h p n nz e = ground (arith, e)

pub link_to-done :
    (h : Mem) (p q : Ptr) (n : Node)
    → p ≢ null
    → h p ≡ some n
    → link_to p q h ≡ done tt (overwrite h p (some (record n { next = q })))
unfolding link_to
link_to-done h p q n nz e = rw (read_node-done h p n nz e)

pub free_node-done :
    (h : Mem) (p : Ptr) (n : Node)
    → p ≢ null
    → h p ≡ some n
    → free_node p h ≡ done tt (overwrite h p none)
unfolding free_node
free_node-done h p n nz e = rw (read_node-done h p n nz e)

pub read_node-crash : (h : Mem) (p : Ptr) → h p ≡ none → read_node p h ≡ crash
unfolding read_node
read_node-crash h p e = ground (arith, e)

pub overwrite_self : (h : Mem) (p : Ptr) (c : Option Node) → overwrite h p c p ≡ c
unfolding overwrite
overwrite_self h p c = ground arith

pub overwrite_other : (h : Mem) (p a : Ptr) (c : Option Node) → a ≢ p → overwrite h p c a ≡ h a
unfolding overwrite
overwrite_other h p a c ne = ground arith
