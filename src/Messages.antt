-- ===== src/Messages.antt =====
-- handler/HandleMessage.cpp: the functions by which the handlers pass messages on between teacher,
-- whiteboard and students. A buffer is `none` if its pointer is null; a result is `none` where the code
-- follows a null pointer or copies past the end of a buffer.
pub mod Relay
pub mod Copies
pub mod Broadcast
use ec_server.Base.{
  ℕ, zero, suc, ◌+◌, ◌-◌, ◌%◌, ◌^◌, List, [], ◌∷◌, Option, none, some, Bool, true, false, ◌&&◌, ltb,
  ◌==◌, if◌then◌else◌, ◌>>=◌, Map, find,
}
use ec_server.Content.Room.{CStudent, CRoom, get_room_by_fd}
use ec_server.Server.{
  Buf, Server, head_len, with_buf, reset, memcpy, malloc_buf, free_buf, enqueue_buf,
}

unfoldable pub post_message : Option ℕ → ℕ → Option (List ℕ) → ℕ → Server → Option (Bool × Server)
unfolding with_buf memcpy enqueue_buf
post_message none c_type body len s = some (false, s)
post_message (some p) c_type none len s = some (
  true,
  enqueue_buf p
      (with_buf p (λ b. record b { c_len = head_len; c_type = c_type; used = head_len }) s),
)
post_message (some p) c_type (some body) len s = do
  bytes ← memcpy len body (s.bufs p).c_data
  let c_len = (head_len + len) % 2 ^ 32
  some (
    true,
    enqueue_buf p (
        with_buf p (λ b. record b { c_len = c_len; c_type = c_type; c_data = bytes; used = c_len })
          s),
  )

-- The message is sent on, with another type, to another client.
unfoldable pub send_on : ℕ → ℕ → ℕ → Server → Server
unfolding with_buf enqueue_buf
send_on p c_type fd s =
    enqueue_buf p (with_buf p (λ b. record b { c_type = c_type; fd = fd; used = b.c_len }) s)

unfoldable pub post_teacher_to_white : Option ℕ → ℕ → Server → Bool × Server
unfolding send_on free_buf get_room_by_fd
post_teacher_to_white none c_type s = (false, s)
post_teacher_to_white (some p) c_type s = elim (get_room_by_fd (s.bufs p).fd s.rooms) [
  | none ↦ (false, free_buf p s)
  | some pc ↦
      if pc.m_teacher_fd == (s.bufs p).fd
      then (true, send_on p c_type pc.m_white_fd s)
      else (false, free_buf p s)
]

-- The pointer is not tested.
unfoldable pub post_white_to_teacher : Option ℕ → ℕ → Server → Option (Bool × Server)
unfolding send_on free_buf get_room_by_fd
post_white_to_teacher none c_type s = none
post_white_to_teacher (some p) c_type s = elim (get_room_by_fd (s.bufs p).fd s.rooms) [
  | none ↦ some (false, free_buf p s)
  | some pc ↦
      if pc.m_white_fd == (s.bufs p).fd
      then some (true, send_on p c_type pc.m_teacher_fd s)
      else some (false, free_buf p s)
]

unfoldable pub post_student_to_white : Option ℕ → ℕ → Server → Bool × Server
unfolding send_on free_buf get_room_by_fd find
post_student_to_white none c_type s = (false, s)
post_student_to_white (some p) c_type s = elim (get_room_by_fd (s.bufs p).fd s.rooms) [
  | none ↦ (false, free_buf p s)
  | some pc ↦ elim (find (s.bufs p).fd pc.m_student_map) [
    | none ↦ (false, free_buf p s)
    | some student ↦ (true, send_on p c_type pc.m_white_fd s)
  ]
]

-- The data that a copy takes over: `iLen` is an int.
unfoldable pub copy_data : ℕ → List ℕ → List ℕ → Option (List ℕ)
unfolding memcpy
copy_data len from to =
    if ltb head_len len && ltb len (2 ^ 31) then memcpy (len - head_len) from to else some to

-- The loop over the students. Without a buffer the code follows a null pointer, `pbuf->reset ()`.
unfoldable pub send_copies : ℕ → ℕ → ℕ → Map ℕ → Server → Option Server
unfolding malloc_buf copy_data with_buf enqueue_buf
send_copies p len c_type [] s = some s
send_copies p len c_type ((fd, student) ∷ students) s = elim (malloc_buf s).0 [
  | none ↦ none
  | some q ↦ elim (copy_data len (s.bufs p).c_data (s.bufs q).c_data) [
    | none ↦ none
    | some bytes ↦ send_copies p len c_type students (
        enqueue_buf q (
          with_buf q
            (λ b. record b { c_len = len; c_type = c_type; c_data = bytes; used = len; fd = fd })
            (malloc_buf s).1))
  ]
]

-- The room's teacher is not asked for: any client of the room will do.
unfoldable pub post_teacher_to_all_student : Option ℕ → ℕ → Server → Option (Bool × Server)
unfolding send_copies with_buf reset free_buf get_room_by_fd
post_teacher_to_all_student none c_type s = some (false, s)
post_teacher_to_all_student (some p) c_type s = elim (get_room_by_fd (s.bufs p).fd s.rooms) [
  | none ↦ some (false, free_buf p s)
  | some pc ↦ do
    sent ← send_copies p (s.bufs p).c_len c_type pc.m_student_map s
    some (true, free_buf p (with_buf p reset sent))
]

-- The first student, by the descriptor, with the id: that descriptor, or none.
unfoldable pub fd_of_student : ℕ → (ℕ → Option CStudent) → Map ℕ → Option (Option ℕ)
fd_of_student id students [] = some none
fd_of_student id students ((fd, p) ∷ m) =
    let rest = fd_of_student id students m in
    elim (students p) [
      | none ↦ none
      | some student ↦ if student.m_id == id then some (some fd) else rest
    ]

-- The buffer is not given back where the message is not sent.
unfoldable pub post_teacher_to_student : Option ℕ → ℕ → ℕ → Server → Option (Bool × Server)
unfolding send_on get_room_by_fd fd_of_student
post_teacher_to_student none c_type id s = some (false, s)
post_teacher_to_student (some p) c_type id s = elim (get_room_by_fd (s.bufs p).fd s.rooms) [
  | none ↦ some (false, s)
  | some pc ↦
      if pc.m_teacher_fd == (s.bufs p).fd
      then (fd_of_student id s.students pc.m_student_map >>= λ found. elim found [
        | none ↦ some (false, s)
        | some fd ↦ some (true, send_on p c_type fd s)
      ])
      else some (false, s)
]
