-- ===== src/Server.antt =====
-- The state that the handlers share, Single.h, and the buffers, Buf.h: a buffer is the object behind a
-- number of the pool, and what is sent is put into the send queue.
use ec_server.Base.{
  ℕ, List, [], ◌∷◌, ◌++◌, map, Option, none, some, leb, ◌&&◌, ◌==◌, if◌then◌else◌, Map, length,
  take, drop,
}
use ec_server.Sync.Pool.{PoolT, malloc, free}
use ec_server.Content.Room.{CStudent, CRoom}

-- The memory of a buffer is a MSG_HEAD, which is `c_len` and `c_type`, and the bytes after it.
pub record Buf : Type 0 where
  pub c_len : ℕ
  pub c_type : ℕ
  pub c_data : List ℕ
  pub used : ℕ
  pub fd : ℕ

pub record Server : Type 0 where
  pub bufs : ℕ → Buf
  pub bufpool : PoolT
  pub sendqueue : List ℕ
  pub students : ℕ → Option CStudent
  pub rooms : Map CRoom

-- sizeof (MSG_HEAD)
abbrev pub head_len : ℕ
head_len = 8

-- A change of the buffer at p.
unfoldable pub with_buf : ℕ → (Buf → Buf) → Server → Server
with_buf p f s = record s { bufs = λ q. if p == q then f (s.bufs q) else s.bufs q }

-- Buf::reset
unfoldable pub reset : Buf → Buf
reset b = record b { c_len = 0; c_type = 0; c_data = map (λ _. 0) b.c_data }

-- `memcpy`; reading or writing past the end has no defined result.
unfoldable pub memcpy : ℕ → List ℕ → List ℕ → Option (List ℕ)
memcpy n from to =
    if leb n (length from) && leb n (length to) then some (take n from ++ drop n to) else none

-- `SINGLE->bufpool.malloc ()`
unfoldable pub malloc_buf : Server → Option ℕ × Server
unfolding malloc
malloc_buf s = let (p, pool) = malloc s.bufpool in (p, record s { bufpool = pool })

-- `SINGLE->bufpool.free (p)`
unfoldable pub free_buf : ℕ → Server → Server
unfolding free
free_buf p s = record s { bufpool = free p s.bufpool }

-- `SINGLE->sendqueue.enqueue (p)`
unfoldable pub enqueue_buf : ℕ → Server → Server
enqueue_buf p s = record s { sendqueue = s.sendqueue ++ p ∷ [] }
