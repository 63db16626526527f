-- ===== src/Server/Lost.antt =====
-- The queue's limit, and what becomes of a request beyond it.
use netdisk.Prelude.{◌≤◌, ◌≡◌, refl, List, [], ◌∷◌, length, arith}
use netdisk.TaskQueue.Seg.{Cell}
use netdisk.Server.{Server}
use netdisk.Server.Steps.{total}

pub length-total : (xs : List Cell) → total (λ c. 1) xs ≡ length xs
length-total [] = refl
length-total (c ∷ xs) = omega (arith, length-total xs)

-- the queue keeps within its limit
abbrev pub Within : Server → Type 0
Within s = length s.waiting ≤ s.max_size
