-- ===== src/Tests/Socket.antt =====
-- Messages that arrive and leave in pieces.
use ec_server.Socket.Timed.{
  Result, timed_out, moved, recv_n, send_n, recv_n-returns, send_n-returns,
}
use ec_server.Base.{
  ℕ, zero, suc, ◌+◌, ◌≤◌, ◌≡◌, ◌⊎◌, refl, List, [], ◌∷◌, ◌++◌, none, some, length, arith,
}
use ec_server.Socket.{
  Errno, eagain, other, Recv, got, failed, took, refused, recv_v, word, enqueued, overran, max_buf,
  past_end, recv_cb, send_loop,
}
use ec_server.Socket.Receiving.{Arrives, recv_v-Arrives, recv_cb-enqueued, recv_cb-overrun}
use ec_server.Socket.Sending.{Sent, send_loop-Takes, send_loop-Sent}

-- A message of ten bytes: its length, its type and two bytes of data.
abbrev head : List ℕ
head = 10 ∷ 0 ∷ 0 ∷ 0 ∷ []

abbrev body : List ℕ
body = 21 ∷ 0 ∷ 0 ∷ 0 ∷ 65 ∷ 66 ∷ []

abbrev head_calls : List Recv
head_calls = got (10 ∷ 0 ∷ []) ∷ failed eagain ∷ got (0 ∷ 0 ∷ []) ∷ []

head-Arrives : Arrives head_calls head
head-Arrives = (0 ∷ 0 ∷ [], refl, (ground arith, ([], refl, refl)))

abbrev body_calls : List Recv
body_calls = got body ∷ []

body-Arrives : Arrives body_calls body
body-Arrives = ([], refl, refl)

recv_v-Arrives_example :
    (errno' : Errno) × (recv_v 4 (other 0) (head_calls ++ (got body ∷ []))
      ≡ some (record { result = head; errno = errno'; calls = got body ∷ [] }))
recv_v-Arrives_example =
    recv_v-Arrives head_calls head (other 0) (got body ∷ []) (omega arith) head-Arrives

recv_cb-enqueued_example :
    (errno' : Errno) × (recv_cb (other 0) (head_calls ++ (body_calls ++ []))
      ≡ some (record { result = enqueued (head ++ body); errno = errno'; calls = [] }))
recv_cb-enqueued_example =
    recv_cb-enqueued head head_calls (other 0) body body_calls [] refl refl (omega arith)
      head-Arrives body-Arrives

-- 5121 = 1 + 20 * 256
abbrev zeros : ℕ → List ℕ
zeros zero = []
zeros (suc n) = 0 ∷ zeros n

abbrev long_head : List ℕ
long_head = 1 ∷ 20 ∷ 0 ∷ 0 ∷ []

recv_cb-overrun_example :
    (errno' : Errno) × (recv_cb (other 0) ((got long_head ∷ []) ++ ((got (zeros 5117) ∷ []) ++ []))
      ≡ some (record {
        result = overran (past_end max_buf (long_head ++ zeros 5117));
        errno = errno';
        calls = [];
      }))
    × (length (past_end max_buf (long_head ++ zeros 5117)) + max_buf ≡ word long_head)
recv_cb-overrun_example =
    recv_cb-overrun long_head (got long_head ∷ []) (other 0) (zeros 5117) (got (zeros 5117) ∷ []) []
      refl refl (omega arith) (omega arith) ([], refl, refl) ([], refl, refl)

send_loop-Takes_example :
    (errno' : Errno) × (send_loop body (other 0) ((took 2 ∷ refused eagain ∷ took 4 ∷ []) ++ [])
      ≡ some (record { result = body; errno = errno'; calls = [] }))
send_loop-Takes_example =
    send_loop-Takes (took 2 ∷ refused eagain ∷ took 4 ∷ []) body (other 0) []
      (omega arith, (omega arith, (omega arith, refl)))

send_loop-Sent_example : Sent body (send_loop body (other 0) (took 2 ∷ refused (other 32) ∷ []))
send_loop-Sent_example = send_loop-Sent (took 2 ∷ refused (other 32) ∷ []) body (other 0)

recv_n-returns_example :
    (r : Result (List ℕ)) × (recv_n 3 0 (moved (1 ∷ 2 ∷ []) ∷ timed_out ∷ timed_out ∷ []) ≡ some r)
    × (length r.bytes ≤ 3)
    × ((r.value ≡ none) ⊎ (r.value ≡ some (0 + length r.bytes)))
recv_n-returns_example =
    recv_n-returns (moved (1 ∷ 2 ∷ []) ∷ timed_out ∷ timed_out ∷ []) 3 0 (omega arith)

send_n-returns_example :
    (r : Result ℕ) × (rest : List ℕ) × (send_n (5 ∷ 6 ∷ []) (moved 1 ∷ timed_out ∷ []) ≡ some r)
    × (5 ∷ 6 ∷ [] ≡ r.bytes ++ rest)
    × ((r.value ≡ none) ⊎ (r.value ≡ some 0))
send_n-returns_example = send_n-returns (moved 1 ∷ timed_out ∷ []) (5 ∷ 6 ∷ []) (omega arith)
