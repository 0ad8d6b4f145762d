-- ===== src/GroupMessages.antt =====
-- content/makehouse.cpp: the messages that a CGroup sends to its students and to the whiteboard. A
-- result is `none` where the code copies past the end of a buffer or overflows an int.
pub mod Copies
use ec_server.Base.{
  ℕ, ◌+◌, ◌%◌, ◌^◌, List, [], ◌∷◌, Option, none, some, Bool, true, false, ◌&&◌, ltb, leb, ◌==◌,
  if◌then◌else◌, Map, drop,
}
use ec_server.Socket.{word}
use ec_server.Server.{Buf, Server, with_buf, memcpy, malloc_buf, free_buf, enqueue_buf}

-- The loops over the students: a copy of the message at p for each, sent to the descriptor `fd_of fd`.
-- The whole length of the message is copied from behind its head. Without a buffer the loop returns
-- false, and the function returns at once.
unfoldable pub group_copies : ℕ → ℕ → (ℕ → ℕ) → Map ℕ → Server → Option (Bool × Server)
unfolding malloc_buf memcpy with_buf enqueue_buf
group_copies p c_type fd_of [] s = some (true, s)
group_copies p c_type fd_of ((fd, student) ∷ m) s = elim (malloc_buf s).0 [
  | none ↦ some (false, s)
  | some q ↦ elim (memcpy (s.bufs p).c_len (s.bufs p).c_data (s.bufs q).c_data) [
    | none ↦ none
    | some bytes ↦ group_copies p c_type fd_of m (
        enqueue_buf q (
          with_buf q
            (λ b. record b {
              c_len = (s.bufs p).c_len;
              c_type = c_type;
              c_data = bytes;
              used = (s.bufs p).c_len;
              fd = fd_of fd;
            })
            (malloc_buf s).1))
  ]
]

-- The message's own buffer goes back to the pool, unless the loop has returned early.
unfoldable pub finish : ℕ → Option (Bool × Server) → Option Server
unfolding free_buf
finish p none = none
finish p (some (true, s)) = some (free_buf p s)
finish p (some (false, s)) = some s

unfoldable pub broadcast : Option ℕ → Map ℕ → Server → Option Server
unfolding group_copies finish
broadcast none students s = some s
broadcast (some p) students s =
    finish p (group_copies p (s.bufs p).c_type (λ _. (s.bufs p).fd) students s)

-- The sender is among the students.
unfoldable pub send_to_other_student : Option ℕ → ℕ → Map ℕ → Server → Option Server
unfolding group_copies finish
send_to_other_student none e_type students s = some s
send_to_other_student (some p) e_type students s =
    finish p (group_copies p e_type (λ fd. fd) students s)

-- The type is made from the student's id, the second int of the data.
unfoldable pub send_to_white : Option ℕ → ℕ → Server → Option Server
unfolding with_buf enqueue_buf
send_to_white none w_fd s = some s
send_to_white (some p) w_fd s =
    let id = word (drop 4 (s.bufs p).c_data) in
    if (s.bufs p).c_len == 0
    then some (enqueue_buf p s)
    else if ltb id (2 ^ 31) && leb (2 ^ 31) (50000 + id)
    then none
    else some (
        enqueue_buf p (
          with_buf p (λ b. record b { c_type = (50000 + id) % 2 ^ 32; fd = w_fd; used = b.c_len })
            s))
