-- ===== src/Messages/Broadcast.antt =====
-- handler/HandleMessage.cpp's postTeacherToAllStudent: a copy of a message for each student of a room.
use ec_server.Base.{
  ℕ, ◌+◌, ◌-◌, ◌<◌, ◌≤◌, ◌≡◌, refl, sym, ap, ◌∙◌, List, [], ◌∷◌, ◌++◌, append_assoc, append-nil,
  none, some, true, Map, length, take, arith, Option-cases, inl, inr, eq→==, ne→==,
}
use ec_server.Sync.Pool.{PoolT, malloc, free}
use ec_server.Content.Room.{CRoom, get_room_by_fd}
use ec_server.Server.{Buf, Server, head_len, with_buf, reset, free_buf, enqueue_buf}
use ec_server.Messages.{copy_data, send_copies, post_teacher_to_all_student}
use ec_server.Messages.Copies.{
  data_len, Fresh, Ready, Message, Delivered, copy_data_lem, Ready-with_buf, Delivered-with_buf,
  Ready-Fresh,
}

pub malloc-rest :
    (q : ℕ) (rest : List ℕ) (pool : PoolT)
    → pool.m_queue ≡ q ∷ rest
    → (malloc pool).1 ≡ record pool { m_queue = rest }
unfolding malloc
malloc-rest q rest pool e = rw (malloc, e) refl

module _ (p len c_type : ℕ) (body : List ℕ) where
  -- The buffer q once a student's copy is written to it.
  abbrev written : List ℕ → ℕ → Buf → Buf
  written bytes fd b = record b {
    c_len = len;
    c_type = c_type;
    c_data = bytes;
    used = len;
    fd = fd;
  }

  abbrev next : ℕ → List ℕ → List ℕ → ℕ → Server → Server
  next q rest bytes fd s =
      enqueue_buf q
        (with_buf q (written bytes fd) (record s { bufpool = record s.bufpool { m_queue = rest } }))

  send_copies-next :
      (q fd student : ℕ) (rest bytes : List ℕ) (m : Map ℕ) (s : Server)
      → s.bufpool.m_queue ≡ q ∷ rest
      → copy_data len (s.bufs p).c_data (s.bufs q).c_data ≡ some bytes
      → send_copies p len c_type ((fd, student) ∷ m) s
        ≡ send_copies p len c_type m (next q rest bytes fd s)
  unfolding send_copies
  send_copies-next q fd student rest bytes m s e c =
      rw (send_copies, e)
        (rw c (
          ap
            (λ pool.
              send_copies p len c_type m
                (enqueue_buf q (with_buf q (written bytes fd) (record s { bufpool = pool }))))
            (malloc-rest q rest s.bufpool e)))

  send_copies-none :
      (queue : List ℕ) (m : Map ℕ) (s : Server)
      → s.bufpool.m_queue ≡ queue
      → length queue < length m
      → send_copies p len c_type m s ≡ none
  unfolding send_copies enqueue_buf with_buf
  send_copies-none queue [] s e h = absurd (ground arith)
  send_copies-none [] (entry ∷ m) s e h = rw (send_copies, e) refl
  send_copies-none (q ∷ rest) ((fd, student) ∷ m) s e h =
      elim (Option-cases (copy_data len (s.bufs p).c_data (s.bufs q).c_data)) [
        | inl c ↦ rw (send_copies, e) (rw c refl)
        | inr (bytes, c) ↦
            send_copies-next q fd student rest bytes m s e c
            ∙ send_copies-none rest m (next q rest bytes fd s) refl (omega (arith, h))
      ]

  -- How the loop leaves the server.
  pub record Sends (qs more : List ℕ) (m : Map ℕ) (before after : Server) : Type 0 where
    pub queue : after.sendqueue ≡ before.sendqueue ++ qs
    pub pool : after.bufpool ≡ record before.bufpool { m_queue = more }
    pub copies : Delivered after.bufs len c_type body qs m
    pub others : (x : ℕ) → Fresh x qs → after.bufs x ≡ before.bufs x
    pub same_students : after.students ≡ before.students
    pub same_rooms : after.rooms ≡ before.rooms

  Sends-cons :
      (q fd student : ℕ) (qs more bytes : List ℕ) (m : Map ℕ) (s r : Server)
      → Fresh q qs
      → take (len - head_len) bytes ≡ take (len - head_len) body
      → Sends qs more m (next q (qs ++ more) bytes fd s) r
      → Sends (q ∷ qs) more ((fd, student) ∷ m) s r
  unfolding enqueue_buf with_buf
  Sends-cons q fd student qs more bytes m s r fresh same h = record {
    queue = h.queue ∙ append_assoc s.sendqueue (q ∷ []) qs;
    pool = h.pool;
    copies = (message, h.copies);
    others = λ x n. h.others x n.1 ∙ rw (ne→== q x (λ e. n.0 (sym e))) refl;
    same_students = h.same_students;
    same_rooms = h.same_rooms;
  }
    where
      at_q : r.bufs q ≡ written bytes fd (s.bufs q)
      at_q = h.others q fresh ∙ rw (eq→== q q refl) refl

      message : Message (r.bufs q) fd len c_type body
      message = rw at_q (record {
        for_fd = refl;
        of_type = refl;
        of_len = refl;
        sends_all = refl;
        same_data = same;
      })

  pub send_copies-Sends :
      (qs more : List ℕ) (m : Map ℕ) (s : Server)
      → s.bufpool.m_queue ≡ qs ++ more
      → length qs ≡ length m
      → head_len ≤ len
      → len ≤ head_len + data_len
      → (s.bufs p).c_data ≡ body
      → length body ≡ data_len
      → Ready p s.bufs qs
      → (r : Server) × (send_copies p len c_type m s ≡ some r) × Sends qs more m s r
  unfolding send_copies enqueue_buf with_buf
  send_copies-Sends [] more [] s e l a b c d ready = (
    s,
    refl,
    record {
      queue = sym (append-nil s.sendqueue);
      pool = ap (λ xs. record s.bufpool { m_queue = xs }) e;
      copies = tt;
      others = λ x n. refl;
      same_students = refl;
      same_rooms = refl;
    },
  )
  send_copies-Sends [] more (entry ∷ m) s e l a b c d ready = absurd (ground arith)
  send_copies-Sends (q ∷ qs) more [] s e l a b c d ready = absurd (ground arith)
  send_copies-Sends (q ∷ qs) more ((fd, student) ∷ m) s e l a b c d ready =
      let (bytes, e1, same) =
        copy_data_lem len (s.bufs p).c_data (s.bufs q).c_data a (rw c (omega (arith, b, d)))
          (omega (arith, ready.1, b)) (omega (arith, b)) in
      let (r, e2, h) =
        send_copies-Sends qs more m (next q (qs ++ more) bytes fd s) refl (omega (arith, l)) a b
          (rw (ne→== q p (λ e. ready.0 (sym e))) c) d
          (Ready-with_buf p q (written bytes fd) s qs ready.2 ready.3) in
      (
        r,
        send_copies-next q fd student (qs ++ more) bytes m s e e1 ∙ e2,
        Sends-cons q fd student qs more bytes m s r ready.2 (same ∙ ap (take (len - head_len)) c) h,
      )

-- What the message leaves besides: the rooms, and the buffers that it does not use.
pub post_teacher_to_all_student-sent :
    (p c_type : ℕ) (s : Server) (pc : CRoom) (qs more : List ℕ)
    → get_room_by_fd (s.bufs p).fd s.rooms ≡ some pc
    → s.bufpool.m_queue ≡ qs ++ more
    → length qs ≡ length pc.m_student_map
    → head_len ≤ (s.bufs p).c_len
    → (s.bufs p).c_len ≤ head_len + data_len
    → length (s.bufs p).c_data ≡ data_len
    → Ready p s.bufs qs
    → (r : Server) × (post_teacher_to_all_student (some p) c_type s ≡ some (true, r))
      × (r.sendqueue ≡ s.sendqueue ++ qs)
      × (r.bufpool.m_queue ≡ more ++ p ∷ [])
      × Delivered r.bufs (s.bufs p).c_len c_type (s.bufs p).c_data qs pc.m_student_map
      × (r.rooms ≡ s.rooms)
      × ((x : ℕ) → Fresh x (p ∷ qs) → r.bufs x ≡ s.bufs x)
unfolding post_teacher_to_all_student free_buf free with_buf
post_teacher_to_all_student-sent p c_type s pc qs more e pool l a b d ready =
    let (sent, e1, h) =
      send_copies-Sends p (s.bufs p).c_len c_type (s.bufs p).c_data qs more pc.m_student_map s pool
        l a b refl d ready in
    (
      free_buf p (with_buf p reset sent),
      rw (post_teacher_to_all_student, e) (rw e1 refl),
      h.queue,
      ap (λ pool'. pool'.m_queue ++ p ∷ []) h.pool,
      Delivered-with_buf p reset sent (s.bufs p).c_len c_type (s.bufs p).c_data qs pc.m_student_map
          (Ready-Fresh p s.bufs qs ready) h.copies,
      h.same_rooms,
      (λ x n. rw (ne→== p x (λ e. n.0 (sym e))) (h.others x n.1)),
    )

-- A message of 8 to 5120 bytes for all students, from a client of a room, with as many buffers in the
-- pool as the room has students: each student is sent a copy with its type, its length and its data,
-- in the order of their descriptors, in the buffers at the head of the pool, and the message's own
-- buffer goes back to the pool. The pool's buffers are distinct, of full size, and without p.
pub post_teacher_to_all_student-Delivered :
    (p c_type : ℕ) (s : Server) (pc : CRoom) (qs more : List ℕ)
    → get_room_by_fd (s.bufs p).fd s.rooms ≡ some pc
    → s.bufpool.m_queue ≡ qs ++ more
    → length qs ≡ length pc.m_student_map
    → head_len ≤ (s.bufs p).c_len
    → (s.bufs p).c_len ≤ head_len + data_len
    → length (s.bufs p).c_data ≡ data_len
    → Ready p s.bufs qs
    → (r : Server) × (post_teacher_to_all_student (some p) c_type s ≡ some (true, r))
      × (r.sendqueue ≡ s.sendqueue ++ qs)
      × (r.bufpool.m_queue ≡ more ++ p ∷ [])
      × Delivered r.bufs (s.bufs p).c_len c_type (s.bufs p).c_data qs pc.m_student_map
post_teacher_to_all_student-Delivered p c_type s pc qs more e pool l a b d ready =
    let (r, e1, queue, rest, copies, same_rooms, others) =
      post_teacher_to_all_student-sent p c_type s pc qs more e pool l a b d ready in
    (r, e1, queue, rest, copies)

-- With fewer buffers in the pool than the room has students, post_teacher_to_all_student follows a
-- null pointer: the branch that reports the lack of memory resets the buffer that it has not got.
post_teacher_to_all_student-null :
    (p c_type : ℕ) (s : Server) (pc : CRoom)
    → get_room_by_fd (s.bufs p).fd s.rooms ≡ some pc
    → length s.bufpool.m_queue < length pc.m_student_map
    → post_teacher_to_all_student (some p) c_type s ≡ none
unfolding post_teacher_to_all_student
post_teacher_to_all_student-null p c_type s pc e few =
    rw (post_teacher_to_all_student, e)
      (rw
        (send_copies-none p (s.bufs p).c_len c_type [] s.bufpool.m_queue pc.m_student_map s refl
          few)
        refl)
