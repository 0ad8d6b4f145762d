-- ===== src/Messages/Relay.antt =====
-- What becomes of the buffer of a message that handler/HandleMessage.cpp passes on to one client.
use mathlib.Core.List.{Perm, perm_middle, perm_append_singleton}
use ec_server.Base.{
  ℕ, ◌≡◌, inl, inr, refl, List, [], ◌∷◌, ◌++◌, append_assoc, none, some, Bool, true, false, ◌==◌,
  find, Bool-cases, Option-cases,
}
use ec_server.Content.Room.{CRoom, get_room_by_fd}
use ec_server.Server.{Server, with_buf, free_buf, enqueue_buf}
use ec_server.Messages.{
  send_on, post_teacher_to_white, post_white_to_teacher, post_student_to_white, fd_of_student,
  post_teacher_to_student,
}

-- The buffers that are in the pool or on their way out.
abbrev pub buffers : Server → List ℕ
buffers s = s.bufpool.m_queue ++ s.sendqueue

module _ (p : ℕ) (c_type : ℕ) (s : Server) where
  free_buf-Perm : Perm (buffers (free_buf p s)) (p ∷ buffers s)
  unfolding free_buf
  free_buf-Perm =
      rw (append_assoc s.bufpool.m_queue (p ∷ []) s.sendqueue)
        (perm_middle s.bufpool.m_queue s.sendqueue)

  send_on-Perm : (fd : ℕ) → Perm (buffers (send_on p c_type fd s)) (p ∷ buffers s)
  unfolding send_on enqueue_buf with_buf
  send_on-Perm fd =
      rw (← append_assoc s.bufpool.m_queue s.sendqueue (p ∷ []))
        (perm_append_singleton p (buffers s))

  teacher_to_white-Perm : Perm (buffers (post_teacher_to_white (some p) c_type s).1) (p ∷ buffers s)
  unfolding post_teacher_to_white
  teacher_to_white-Perm = elim (Option-cases (get_room_by_fd (s.bufs p).fd s.rooms)) [
    | inl e ↦ rw (post_teacher_to_white, e) free_buf-Perm
    | inr (pc, e) ↦
        rw (post_teacher_to_white, e)
          (elim (Bool-cases (pc.m_teacher_fd == (s.bufs p).fd)) [
            | inl hit ↦ rw hit (send_on-Perm pc.m_white_fd)
            | inr miss ↦ rw miss free_buf-Perm
          ])
  ]

  student_to_white-Perm : Perm (buffers (post_student_to_white (some p) c_type s).1) (p ∷ buffers s)
  unfolding post_student_to_white
  student_to_white-Perm = elim (Option-cases (get_room_by_fd (s.bufs p).fd s.rooms)) [
    | inl e ↦ rw (post_student_to_white, e) free_buf-Perm
    | inr (pc, e) ↦
        rw (post_student_to_white, e)
          (elim (Option-cases (find (s.bufs p).fd pc.m_student_map)) [
            | inl miss ↦ rw miss free_buf-Perm
            | inr (student, hit) ↦ rw hit (send_on-Perm pc.m_white_fd)
          ])
  ]

  white_to_teacher-Perm :
      (r : Bool × Server) × (post_white_to_teacher (some p) c_type s ≡ some r)
      × Perm (buffers r.1) (p ∷ buffers s)
  unfolding post_white_to_teacher
  white_to_teacher-Perm = elim (Option-cases (get_room_by_fd (s.bufs p).fd s.rooms)) [
    | inl e ↦ ((false, free_buf p s), rw (post_white_to_teacher, e) refl, free_buf-Perm)
    | inr (pc, e) ↦ elim (Bool-cases (pc.m_white_fd == (s.bufs p).fd)) [
      | inl hit ↦ (
        (true, send_on p c_type pc.m_teacher_fd s),
        rw (post_white_to_teacher, e) (rw hit refl),
        send_on-Perm pc.m_teacher_fd,
      )
      | inr miss ↦
          ((false, free_buf p s), rw (post_white_to_teacher, e) (rw miss refl), free_buf-Perm)
    ]
  ]

  pub relay-Perm :
      Perm (buffers (post_teacher_to_white (some p) c_type s).1) (p ∷ buffers s)
      × Perm (buffers (post_student_to_white (some p) c_type s).1) (p ∷ buffers s)
      × ((r : Bool × Server) × (post_white_to_teacher (some p) c_type s ≡ some r)
          × Perm (buffers r.1) (p ∷ buffers s))
  relay-Perm = (teacher_to_white-Perm, student_to_white-Perm, white_to_teacher-Perm)

  -- If no student of the sender's room has the id, then post_teacher_to_student returns false and
  -- leaves everything as it was: the buffer is neither sent nor given back to the pool.
  post_teacher_to_student-leaks :
      (pc : CRoom) (id : ℕ)
      → get_room_by_fd (s.bufs p).fd s.rooms ≡ some pc
      → fd_of_student id s.students pc.m_student_map ≡ some none
      → post_teacher_to_student (some p) c_type id s ≡ some (false, s)
  unfolding post_teacher_to_student
  post_teacher_to_student-leaks pc id e absent =
      rw (post_teacher_to_student, e)
        (elim (Bool-cases (pc.m_teacher_fd == (s.bufs p).fd)) [
          | inl hit ↦ rw (hit, absent) refl
          | inr miss ↦ rw miss refl
        ])
