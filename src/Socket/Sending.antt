-- ===== src/Socket/Sending.antt =====
-- What SendTask.cpp sends of a buffer.
use ec_server.Base.{
  ℕ, zero, suc, ◌<◌, ◌≡◌, refl, sym, ap, ◌∙◌, List, [], ◌∷◌, ◌++◌, append_assoc, Option, none, some,
  ◌>>=◌, length, take, drop, take-append-drop, arith,
}
use ec_server.Socket.{Errno, eagain, eintr, other, Send, took, refused, Done, send_loop, send_v}

-- Each call takes some of the bytes that are left, or is interrupted, until there are none.
abbrev pub Takes : List Send → List ℕ → Type 0
Takes [] bytes = bytes ≡ []
Takes (took zero ∷ calls) bytes = ⊥
Takes (took (suc n) ∷ calls) bytes = (n < length bytes) × Takes calls (drop (suc n) bytes)
Takes (refused eagain ∷ calls) bytes = (0 < length bytes) × Takes calls bytes
Takes (refused eintr ∷ calls) bytes = (0 < length bytes) × Takes calls bytes
Takes (refused (other k) ∷ calls) bytes = ⊥

-- A buffer whose bytes the socket takes in pieces, with interruptions in between, is sent whole and in
-- order, and the loop ends with the last piece.
pub send_loop-Takes :
    (calls : List Send) (bytes : List ℕ) (errno : Errno) (more : List Send)
    → Takes calls bytes
    → (errno' : Errno) × (send_loop bytes errno (calls ++ more)
        ≡ some (record { result = bytes; errno = errno'; calls = more }))
unfolding send_loop
send_loop-Takes [] bytes errno more h = (errno, rw h refl)
send_loop-Takes (took zero ∷ calls) bytes errno more h = absurd h
send_loop-Takes (took (suc n) ∷ calls) [] errno more h = absurd (ground arith)
send_loop-Takes (took (suc n) ∷ calls) (b ∷ bs) errno more h =
    let (errno', e) = send_loop-Takes calls (drop n bs) errno more h.1 in
    (errno', rw e (rw (take-append-drop n bs) refl))
send_loop-Takes (refused eagain ∷ calls) [] errno more h = absurd (ground arith)
send_loop-Takes (refused eagain ∷ calls) (b ∷ bs) errno more h =
    send_loop-Takes calls (b ∷ bs) eagain more h.1
send_loop-Takes (refused eintr ∷ calls) [] errno more h = absurd (ground arith)
send_loop-Takes (refused eintr ∷ calls) (b ∷ bs) errno more h =
    send_loop-Takes calls (b ∷ bs) eintr more h.1
send_loop-Takes (refused (other k) ∷ calls) bytes errno more h = absurd h

-- What the loop says it has sent: the bytes, up to where it was given up.
abbrev pub Sent : List ℕ → Option (Done (List ℕ) Send) → Type 0
Sent bytes none = Unit {0}
Sent bytes (some d) = (rest : List ℕ) × (bytes ≡ d.result ++ rest)

Sent-cons :
    (b : ℕ) (n : ℕ) (bs : List ℕ) (o : Option (Done (List ℕ) Send))
    → Sent (drop n bs) o
    → Sent (b ∷ bs) (o >>= λ rest. some (record rest { result = b ∷ (take n bs ++ rest.result) }))
Sent-cons b n bs none h = tt
Sent-cons b n bs (some d) (rest, e) = (
  rest,
  ap (λ xs. b ∷ xs)
      (sym (
        append_assoc (take n bs) d.result rest
        ∙ ap (λ xs. take n bs ++ xs) (sym e)
        ∙ take-append-drop n bs)),
)

-- Whatever the socket does, if the loop ends, then what it has sent is the beginning of the buffer:
-- no byte is sent twice, left out or out of order.
pub send_loop-Sent :
    (calls : List Send) (bytes : List ℕ) (errno : Errno) → Sent bytes (send_loop bytes errno calls)
unfolding send_loop
send_loop-Sent calls [] errno = ([], refl)
send_loop-Sent [] (b ∷ bs) errno = tt
send_loop-Sent (took (suc n) ∷ calls) (b ∷ bs) errno =
    Sent-cons b n bs (send_loop (drop n bs) errno calls) (send_loop-Sent calls (drop n bs) errno)
send_loop-Sent (took zero ∷ calls) (b ∷ bs) eagain = send_loop-Sent calls (b ∷ bs) eagain
send_loop-Sent (took zero ∷ calls) (b ∷ bs) eintr = send_loop-Sent calls (b ∷ bs) eintr
send_loop-Sent (took zero ∷ calls) (b ∷ bs) (other k) = (b ∷ bs, refl)
send_loop-Sent (refused eagain ∷ calls) (b ∷ bs) errno = send_loop-Sent calls (b ∷ bs) eagain
send_loop-Sent (refused eintr ∷ calls) (b ∷ bs) errno = send_loop-Sent calls (b ∷ bs) eintr
send_loop-Sent (refused (other k) ∷ calls) (b ∷ bs) errno = (b ∷ bs, refl)

-- Calls that take as many bytes as they are given numbers, one after the other.
abbrev pub taking : List ℕ → List Send
taking [] = []
taking (n ∷ ns) = took n ∷ taking ns

send_v-eagain : (b : ℕ) (bs ns : List ℕ) → send_v (b ∷ bs) eagain (taking ns) ≡ none
unfolding send_v
send_v-eagain b bs [] = refl
send_v-eagain b bs (n ∷ ns) = rw (send_v-eagain b bs ns) refl

-- If the first call of `send_v` is interrupted with EAGAIN, then it does not return, whatever the
-- number of bytes that the calls after it take: errno keeps the value, and each of these calls counts
-- as interrupted too.
send_v-taking :
    (b : ℕ) (bs ns : List ℕ) (errno : Errno)
    → send_v (b ∷ bs) errno (refused eagain ∷ taking ns) ≡ none
unfolding send_v
send_v-taking b bs ns errno = send_v-eagain b bs ns
