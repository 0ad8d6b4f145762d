-- ===== src/Socket/Receiving.antt =====
-- What recv_v (Sock.c) and recv_cb (Evloop.cpp) make of the bytes that arrive.
use ec_server.Base.{
  ℕ, zero, suc, ◌+◌, ◌-◌, ◌^◌, ◌<◌, ◌≤◌, ◌≡◌, ◌≢◌, ◌⊎◌, inl, inr, refl, subst, ◌∙◌, List, [], ◌∷◌,
  ◌++◌, length-append, length-drop, none, some, ◌>>=◌, length, arith, lt→ltb, le→ltb, eq→==, ne→==,
}
use ec_server.Socket.{
  Errno, eagain, eintr, other, Recv, got, closed, failed, recv_loop, recv_v, word, enqueued, closes,
  overran, max_buf, past_end, body_len, check_body, recv_cb,
}

-- The calls bring the data in pieces, with interruptions in between, and nothing after the last piece.
abbrev pub Arrives : List Recv → List ℕ → Type 0
Arrives [] bytes = bytes ≡ []
Arrives (got [] ∷ calls) bytes = ⊥
Arrives (got (b ∷ bs) ∷ calls) bytes =
    (rest : List ℕ) × (bytes ≡ (b ∷ bs) ++ rest) × Arrives calls rest
Arrives (closed ∷ calls) bytes = ⊥
Arrives (failed eagain ∷ calls) bytes = (bytes ≢ []) × Arrives calls bytes
Arrives (failed eintr ∷ calls) bytes = (bytes ≢ []) × Arrives calls bytes
Arrives (failed (other k) ∷ calls) bytes = ⊥

left_over : (bs rest : List ℕ) → length (bs ++ rest) - length bs ≡ length rest
left_over bs rest = omega (arith, length-append bs rest)

recv_loop-Arrives :
    (calls : List Recv) (bytes : List ℕ) (errno : Errno) (more : List Recv)
    → Arrives calls bytes
    → (errno' : Errno) × (recv_loop (length bytes) errno (calls ++ more)
        ≡ some (record { result = bytes; errno = errno'; calls = more }))
unfolding recv_loop
recv_loop-Arrives [] bytes errno more h = (errno, rw h refl)
recv_loop-Arrives (got [] ∷ calls) bytes errno more h = absurd h
recv_loop-Arrives (got (b ∷ bs) ∷ calls) bytes errno more (rest, e, h) =
    let (errno', e') = recv_loop-Arrives calls rest errno more h in
    (errno', rw e (rw (left_over bs rest, e') refl))
recv_loop-Arrives (closed ∷ calls) bytes errno more h = absurd h
recv_loop-Arrives (failed eagain ∷ calls) [] errno more h = absurd (h.0 refl)
recv_loop-Arrives (failed eagain ∷ calls) (b ∷ bs) errno more h =
    recv_loop-Arrives calls (b ∷ bs) eagain more h.1
recv_loop-Arrives (failed eintr ∷ calls) [] errno more h = absurd (h.0 refl)
recv_loop-Arrives (failed eintr ∷ calls) (b ∷ bs) errno more h =
    recv_loop-Arrives calls (b ∷ bs) eintr more h.1
recv_loop-Arrives (failed (other k) ∷ calls) bytes errno more h = absurd h

-- When the bytes asked for, fewer than 2^31, arrive in pieces with interruptions in between, `recv_v`
-- returns, with exactly these bytes in order, and makes no further call.
pub recv_v-Arrives :
    (calls : List Recv) (bytes : List ℕ) (errno : Errno) (more : List Recv)
    → length bytes < 2 ^ 31
    → Arrives calls bytes
    → (errno' : Errno) × (recv_v (length bytes) errno (calls ++ more)
        ≡ some (record { result = bytes; errno = errno'; calls = more }))
unfolding recv_v
recv_v-Arrives calls bytes errno more small h =
    let (errno', e) = recv_loop-Arrives calls bytes errno more h in
    (
      errno',
      rw (lt→ltb (length bytes) (2 ^ 63) (omega (arith, small)))
          (rw e (rw (lt→ltb (length bytes) (2 ^ 31) small) refl)),
    )

-- The peer has closed the connection: every call of recv returns 0.
abbrev pub closed_calls : ℕ → List Recv
closed_calls zero = []
closed_calls (suc n) = closed ∷ closed_calls n

recv_loop-closed : (left n : ℕ) → recv_loop (suc left) eagain (closed_calls n) ≡ none
unfolding recv_loop
recv_loop-closed left zero = refl
recv_loop-closed left (suc n) = recv_loop-closed left n

-- If the peer closes the connection after a call that failed with EAGAIN, then `recv_v` does not
-- return: for any number of calls it still runs, since recv leaves errno alone.
recv_v-closed :
    (left n : ℕ) (errno : Errno)
    → 0 < left
    → left < 2 ^ 63
    → recv_v left errno (failed eagain ∷ closed_calls n) ≡ none
unfolding recv_v recv_loop
recv_v-closed zero n errno pos small = absurd (ground arith)
recv_v-closed (suc left) n errno pos small =
    rw (lt→ltb (suc left) (2 ^ 63) small) (rw (recv_loop-closed left n) refl)

length-past_end : (n : ℕ) (bytes : List ℕ) → length (past_end n bytes) ≡ length bytes - n
unfolding past_end
length-past_end n bytes = length-drop n bytes

body_len-small : (n : ℕ) → 4 ≤ n → n < 2 ^ 31 → body_len n ≡ n - 4
body_len-small n a b = rw (lt→ltb n (2 ^ 31) b) (omega arith)

body_len-negative : (n : ℕ) → (n < 4) ⊎ ((2 ^ 31 ≤ n) × (n < 2 ^ 32)) → 2 ^ 63 ≤ body_len n
body_len-negative n (inl a) = rw (lt→ltb n (2 ^ 31) (omega arith)) (omega arith)
body_len-negative n (inr (a, b)) = rw (le→ltb n (2 ^ 31) a) (omega arith)

recv_v-negative :
    (left : ℕ) (errno : Errno) (calls : List Recv)
    → 2 ^ 63 ≤ left
    → recv_v left errno calls ≡ some (record { result = []; errno = errno; calls = calls })
unfolding recv_v recv_loop
recv_v-negative left errno calls h = rw (le→ltb left (2 ^ 63) h) refl

module _ (head : List ℕ) (calls : List Recv) (errno : Errno) where
  recv_cb-head :
      (more : List Recv)
      → length head ≡ 4
      → Arrives calls head
      → (errno' : Errno) × (recv_cb errno (calls ++ more)
          ≡ (recv_v (body_len (word head)) errno' more >>= check_body head))
  unfolding recv_cb
  recv_cb-head more l h =
      let (errno', e) = recv_v-Arrives calls head errno more (omega (arith, l)) h in
      let e4 : recv_v 4 errno (calls ++ more)
          ≡ some (record { result = head; errno = errno'; calls = more }) =
        subst
          (λ n.
            recv_v n errno (calls ++ more)
            ≡ some (record { result = head; errno = errno'; calls = more }))
          l e in
      (errno', rw (recv_cb, e4) (rw (eq→== (length head) 4 l) refl))

  -- A message of 4 to 5120 bytes whose first four bytes are its length, arriving in pieces with
  -- interruptions in between, is handed over whole, and nothing after it is read.
  pub recv_cb-enqueued :
      (body : List ℕ) (calls' more : List Recv)
      → length head ≡ 4
      → word head ≡ 4 + length body
      → 4 + length body ≤ max_buf
      → Arrives calls head
      → Arrives calls' body
      → (errno' : Errno) × (recv_cb errno (calls ++ (calls' ++ more))
          ≡ some (record { result = enqueued (head ++ body); errno = errno'; calls = more }))
  unfolding check_body
  recv_cb-enqueued body calls' more l w fits h h' =
      let (errno1, e1) = recv_cb-head (calls' ++ more) l h in
      let size : body_len (word head) ≡ length body =
        body_len-small (word head) (omega (arith, w)) (omega (arith, w, fits)) ∙ omega (arith, w) in
      let (errno2, e2) = recv_v-Arrives calls' body errno1 more (omega (arith, fits)) h' in
      (
        errno2,
        e1
            ∙ rw size (
                rw e2 (
                  rw
                    (
                      le→ltb max_buf (4 + length body) fits,
                      size,
                      eq→== (length body) (length body) refl,
                    )
                    refl)),
      )

  -- A message whose first four bytes announce more than 5120 bytes, and fewer than 2^31, is stored whole
  -- as it arrives: what comes after the first 5120 bytes, and is as much as is announced beyond these, has
  -- been stored past the end of the buffer, and nothing after the message is read.
  pub recv_cb-overrun :
      (body : List ℕ) (calls' more : List Recv)
      → length head ≡ 4
      → word head ≡ 4 + length body
      → max_buf < 4 + length body
      → 4 + length body < 2 ^ 31
      → Arrives calls head
      → Arrives calls' body
      → (errno' : Errno) × (recv_cb errno (calls ++ (calls' ++ more))
          ≡ some (record {
            result = overran (past_end max_buf (head ++ body));
            errno = errno';
            calls = more;
          }))
        × (length (past_end max_buf (head ++ body)) + max_buf ≡ word head)
  unfolding check_body
  recv_cb-overrun body calls' more l w over small h h' =
      let few : length body < 2 ^ 31 = omega (arith, small) in
      let (errno1, e1) = recv_cb-head (calls' ++ more) l h in
      let (errno2, e2) = recv_v-Arrives calls' body errno1 more few h' in
      let size : body_len (word head) ≡ length body =
        body_len-small (word head) (omega (arith, w)) (omega (arith, w, small))
        ∙ omega (arith, w) in
      (
        errno2,
        e1 ∙ rw size (rw e2 (rw (lt→ltb max_buf (4 + length body) over) refl)),
        omega (arith, length-past_end max_buf (head ++ body), length-append head body, l, w, over),
      )

  -- A message that announces fewer than 4 bytes, or a length that is negative as an int, closes the
  -- connection, and nothing after the first four bytes is read.
  recv_cb-closes :
      (more : List Recv)
      → length head ≡ 4
      → (word head < 4) ⊎ ((2 ^ 31 ≤ word head) × (word head < 2 ^ 32))
      → Arrives calls head
      → (errno' : Errno) × (recv_cb errno (calls ++ more)
          ≡ some (record { result = closes; errno = errno'; calls = more }))
  unfolding check_body
  recv_cb-closes more l w h =
      let (errno', e) = recv_cb-head more l h in
      let size = body_len-negative (word head) w in
      (
        errno',
        e
            ∙ rw (recv_v-negative (body_len (word head)) errno' more size)
                (rw (ne→== (body_len (word head)) 0 (omega (arith, size))) refl),
      )
