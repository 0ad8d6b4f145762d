-- ===== src/Socket.antt =====
-- Sock.c, SendTask.cpp and Evloop.cpp: how bytes come in and go out. What the calls of recv and send
-- return is a list, one entry for a call; a list that ends means that the call does not return yet.
pub mod Receiving
pub mod Sending
pub mod Timed
use ec_server.Base.{
  ℕ, zero, suc, ◌+◌, ◌-◌, ◌*◌, ◌%◌, ◌^◌, List, [], ◌∷◌, ◌++◌, Option, none, some, Bool, true, false,
  ltb, leb, ◌==◌, ◌&&◌, if◌then◌else◌, ◌>>=◌, length, take, drop,
}

-- errno: EAGAIN, EINTR or another value.
pub data Errno : Type 0 where
  eagain eintr : Errno
  other : ℕ → Errno

-- A call of recv: it returns bytes, or 0 and leaves errno alone, or -1 with errno set.
pub data Recv : Type 0 where
  got : List ℕ → Recv
  closed : Recv
  failed : Errno → Recv

-- A call of send: it takes a number of bytes, or returns -1 with errno set.
pub data Send : Type 0 where
  took : ℕ → Send
  refused : Errno → Send

-- What a call of recv or send has done, and with it errno and the calls to come.
pub record Done (A C : Type 0) : Type 0 where
  pub result : A
  pub errno : Errno
  pub calls : List C

-- The loop of `recv_v`: the bytes that it stores, from `buf` on. `none`: it still runs.
unfoldable pub recv_loop : ℕ → Errno → List Recv → Option (Done (List ℕ) Recv)
recv_loop zero errno calls = some (record { result = []; errno = errno; calls = calls })
recv_loop (suc left) errno [] = none
recv_loop (suc left) errno (got (b ∷ bs) ∷ calls) = do
  rest ← recv_loop (left - length bs) errno calls
  some (record rest { result = (b ∷ bs) ++ rest.result })
recv_loop (suc left) eagain (got [] ∷ calls) = recv_loop (suc left) eagain calls
recv_loop (suc left) eintr (got [] ∷ calls) = recv_loop (suc left) eintr calls
recv_loop (suc left) (other k) (got [] ∷ calls) =
    some (record { result = []; errno = other k; calls = calls })
recv_loop (suc left) eagain (closed ∷ calls) = recv_loop (suc left) eagain calls
recv_loop (suc left) eintr (closed ∷ calls) = recv_loop (suc left) eintr calls
recv_loop (suc left) (other k) (closed ∷ calls) =
    some (record { result = []; errno = other k; calls = calls })
recv_loop (suc left) errno (failed eagain ∷ calls) = recv_loop (suc left) eagain calls
recv_loop (suc left) errno (failed eintr ∷ calls) = recv_loop (suc left) eintr calls
recv_loop (suc left) errno (failed (other k) ∷ calls) =
    some (record { result = []; errno = other k; calls = calls })

-- `left` is the pattern of a signed number of 64 bits. The bytes are counted in an int: with 2^31 of them
-- or more the count overflows, which has no defined result.
unfoldable pub recv_v : ℕ → Errno → List Recv → Option (Done (List ℕ) Recv)
unfolding recv_loop
recv_v left errno calls = recv_loop (if ltb left (2 ^ 63) then left else 0) errno calls >>= λ done.
    if ltb (length done.result) (2 ^ 31) then some done else none

-- Four bytes in the order of the memory, as an unsigned number.
abbrev pub word : List ℕ → ℕ
word (a ∷ b ∷ c ∷ d ∷ rest) = a + b * 256 + c * 65536 + d * 16777216
word bytes = 0

-- How `recv_cb` ends: it hands over a buffer that holds a message, or closes the connection, or it has
-- stored these bytes past the end of the buffer, after which nothing is defined.
pub data Frame : Type 0 where
  enqueued : List ℕ → Frame
  closes : Frame
  overran : List ℕ → Frame

-- MAX_BUF, the size of a buffer.
abbrev pub max_buf : ℕ
max_buf = 5120

-- `*p - sizeof (unsigned int)`: the int is extended with its sign to 64 bits.
abbrev pub body_len : ℕ → ℕ
body_len n = (if ltb n (2 ^ 31) then n + 2 ^ 64 - 4 else n + 2 ^ 64 - 2 ^ 32 - 4) % 2 ^ 64

-- What comes after the first n bytes.
unfoldable pub past_end : ℕ → List ℕ → List ℕ
past_end n bytes = drop n bytes

-- What `recv_cb` makes of the head's bytes and the body's. The code has no test of the length: what does
-- not fit the buffer is told apart here since nothing is defined once it is stored.
unfoldable pub check_body : List ℕ → Done (List ℕ) Recv → Option (Done Frame Recv)
check_body head body =
    if ltb max_buf (4 + length body.result)
    then some (record {
      result = overran (past_end max_buf (head ++ body.result));
      errno = body.errno;
      calls = body.calls;
    })
    else if body_len (word head) == length body.result
    then some
        (record { result = enqueued (head ++ body.result); errno = body.errno; calls = body.calls })
    else some (record { result = closes; errno = body.errno; calls = body.calls })

-- `recv_cb` with a buffer from the pool. `none`: it still runs, or its count overflows.
unfoldable pub recv_cb : Errno → List Recv → Option (Done Frame Recv)
unfolding recv_v check_body
recv_cb errno calls = elim (recv_v 4 errno calls) [
  | none ↦ none
  | some head ↦
      if length head.result == 4
      then (recv_v (body_len (word head.result)) head.errno head.calls >>= check_body head.result)
      else some (record { result = closes; errno = head.errno; calls = head.calls })
]

-- The loop of SendTask::run over one buffer: the bytes that it has sent. `none`: it still runs.
unfoldable pub send_loop : List ℕ → Errno → List Send → Option (Done (List ℕ) Send)
send_loop [] errno calls = some (record { result = []; errno = errno; calls = calls })
send_loop (b ∷ bs) errno [] = none
send_loop (b ∷ bs) errno (took (suc n) ∷ calls) = do
  rest ← send_loop (drop n bs) errno calls
  some (record rest { result = b ∷ (take n bs ++ rest.result) })
send_loop (b ∷ bs) eagain (took zero ∷ calls) = send_loop (b ∷ bs) eagain calls
send_loop (b ∷ bs) eintr (took zero ∷ calls) = send_loop (b ∷ bs) eintr calls
send_loop (b ∷ bs) (other k) (took zero ∷ calls) =
    some (record { result = []; errno = other k; calls = calls })
send_loop (b ∷ bs) errno (refused eagain ∷ calls) = send_loop (b ∷ bs) eagain calls
send_loop (b ∷ bs) errno (refused eintr ∷ calls) = send_loop (b ∷ bs) eintr calls
send_loop (b ∷ bs) errno (refused (other k) ∷ calls) =
    some (record { result = []; errno = other k; calls = calls })

-- The loop of `send_v`: the bytes that it hands to the socket. errno is looked at also after a call that
-- has taken bytes, which leaves it alone.
unfoldable pub send_v : List ℕ → Errno → List Send → Option (Done (List ℕ) Send)
send_v [] errno calls = some (record { result = []; errno = errno; calls = calls })
send_v (b ∷ bs) errno [] = none
send_v (b ∷ bs) eagain (took n ∷ calls) = do
  rest ← send_v (b ∷ bs) eagain calls
  some (record rest { result = take n (b ∷ bs) ++ rest.result })
send_v (b ∷ bs) eintr (took n ∷ calls) = do
  rest ← send_v (b ∷ bs) eintr calls
  some (record rest { result = take n (b ∷ bs) ++ rest.result })
send_v (b ∷ bs) (other k) (took zero ∷ calls) =
    some (record { result = []; errno = other k; calls = calls })
send_v (b ∷ bs) (other k) (took (suc n) ∷ calls) = do
  rest ← send_v (drop n bs) (other k) calls
  some (record rest { result = b ∷ (take n bs ++ rest.result) })
send_v (b ∷ bs) errno (refused eagain ∷ calls) = send_v (b ∷ bs) eagain calls
send_v (b ∷ bs) errno (refused eintr ∷ calls) = send_v (b ∷ bs) eintr calls
send_v (b ∷ bs) errno (refused (other k) ∷ calls) =
    some (record { result = []; errno = other k; calls = calls })
