-- ===== src/Sync/Pool.antt =====
-- PoolT.h. A pointer is a number; the objects behind it are no part of the pool. Each member
-- function runs under the pool's lock, so a call is one step.
pub mod Ownership
use ec_server.Base.{
  ℕ, zero, suc, ◌+◌, ◌-◌, ◌%◌, ◌^◌, List, [], ◌∷◌, ◌++◌, Option, none, some, length,
}

pub record PoolT : Type 0 where
  pub m_queue : List ℕ
  pub m_size : ℕ

push_objects : (new : ℕ → ℕ) → ℕ → List ℕ → List ℕ
push_objects new zero queue = queue
push_objects new (suc n) queue = push_objects new n (queue ++ new n ∷ [])

-- The constructor: `new n` is the object that the allocator returns with n objects still to come.
unfoldable pub pool : (new : ℕ → ℕ) → ℕ → PoolT
unfolding push_objects
pool new n = record { m_queue = push_objects new n []; m_size = n }

unfoldable pub malloc : PoolT → Option ℕ × PoolT
malloc s = elim s.m_queue [ [] ↦ (none, s) | p ∷ rest ↦ (some p, record s { m_queue = rest }) ]

unfoldable pub free : ℕ → PoolT → PoolT
free p s = record s { m_queue = s.m_queue ++ p ∷ [] }

-- `m_size - m_queue.size ()` is unsigned, and is returned as an int.
unfoldable pub used : PoolT → ℕ
used s = (s.m_size + 2 ^ 64 - length s.m_queue) % 2 ^ 32
