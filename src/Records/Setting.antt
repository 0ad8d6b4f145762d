-- ===== src/Records/Setting.antt =====
-- What handleSetCourseGroup of handler/HandleClassRoom.cpp sends, and what a client is told afterwards.
use ec_server.Base.{
  append-nil, append_assoc, if◌then◌else◌, ℕ, ◌-◌, ◌≤◌, ◌<◌, ◌≡◌, ◌≢◌, refl, sym, ap, ◌∙◌, List, [],
  ◌∷◌, ◌++◌, some, true, Text, length, drop, arith, length-drop, eq→==, ne→==, ◌==◌, Map, IsSorted,
  subst, Bool-cases, inl, inr,
}
use ec_server.Content.Room.{CRoom, get_room_by_fd}
use ec_server.Sync.Pool.{PoolT, malloc}
use ec_server.Server.{Buf, Server, with_buf, malloc_buf, free_buf, enqueue_buf}
use ec_server.Messages.{post_teacher_to_white, send_on, post_teacher_to_all_student}
use ec_server.Messages.Copies.{
  data_len, Fresh, Ready, Message, Delivered, Ready-with_buf, Ready-Fresh,
}
use ec_server.Messages.Broadcast.{post_teacher_to_all_student-sent}
use ec_server.Departure.{le_word}
use ec_server.Departure.Sending.{memcpy-all}
use ec_server.PuzzleGame.{zeros}
use ec_server.ClassRoom.{st_confirm_into_class_room}
use ec_server.Records.{Row, Database, used_course, by_text}
use ec_server.Records.Questions.{
  c_string, int_message, tell_white, tell_class, handle_get_course_group, handle_set_course_group,
}
use ec_server.Records.Courses.{
  Keyed, Named, names, renewed, set_courses-found, students-renewed, teacher-renewed,
  handle_get_course_group-names,
}

-- The message that is prepared in the buffer q.
abbrev prepared : ℕ → ℕ → ℕ → Server → Server
prepared q fd n s =
    with_buf q
      (λ b. record b {
        c_len = 12;
        c_data = le_word n ++ drop 4 (s.bufs q).c_data;
        used = 12;
        fd = fd;
      })
      s

int_message-prepared :
    (q fd n : ℕ) (s : Server)
    → 4 ≤ length (s.bufs q).c_data
    → int_message q fd n s ≡ some (prepared q fd n s)
unfolding int_message
int_message-prepared q fd n s big =
    rw (memcpy-all (le_word n) (s.bufs q).c_data big, int_message) refl

-- One buffer at most is changed and queued, and no room.
record Keeps (z : ℕ) (sent : List ℕ) (before after : Server) : Type 0 where
  pub queue : after.sendqueue ≡ before.sendqueue ++ sent
  pub rooms : after.rooms ≡ before.rooms
  pub others : (x : ℕ) → x ≢ z → after.bufs x ≡ before.bufs x

enqueued-Keeps : (z c_type fd : ℕ) (s : Server) → Keeps z (z ∷ []) s (send_on z c_type fd s)
unfolding send_on with_buf enqueue_buf
enqueued-Keeps z c_type fd s = record {
  queue = refl;
  rooms = refl;
  others = λ x n. rw (ne→== z x (λ e. n (sym e))) refl;
}

freed-Keeps : (z : ℕ) (s : Server) → Keeps z [] s (free_buf z s)
unfolding free_buf
freed-Keeps z s = record {
  queue = sym (append-nil s.sendqueue);
  rooms = refl;
  others = λ x n. refl;
}

-- The whiteboard is sent the message of a teacher only.
abbrev pub for_white : ℕ → ℕ → CRoom → List ℕ
for_white z fd pc = if pc.m_teacher_fd == fd then z ∷ [] else []

post_teacher_to_white-Keeps :
    (z c_type : ℕ) (pc : CRoom) (s : Server)
    → get_room_by_fd (s.bufs z).fd s.rooms ≡ some pc
    → Keeps z (for_white z (s.bufs z).fd pc) s (post_teacher_to_white (some z) c_type s).1
unfolding post_teacher_to_white
post_teacher_to_white-Keeps z c_type pc s e = elim (Bool-cases (pc.m_teacher_fd == (s.bufs z).fd)) [
  | inl teacher ↦
      rw (e, post_teacher_to_white) (rw teacher (enqueued-Keeps z c_type pc.m_white_fd s))
  | inr other ↦ rw (e, post_teacher_to_white) (rw other (freed-Keeps z s))
]

malloc_buf-rest :
    (z : ℕ) (rest : List ℕ) (s : Server)
    → s.bufpool.m_queue ≡ z ∷ rest
    → malloc_buf s ≡ (some z, record s { bufpool = record s.bufpool { m_queue = rest } })
unfolding malloc_buf malloc
malloc_buf-rest z rest s e = rw (malloc, e) refl

tell_white-Keeps :
    (fd z : ℕ) (rest : List ℕ) (pc : CRoom) (s : Server)
    → s.bufpool.m_queue ≡ z ∷ rest
    → 4 ≤ length (s.bufs z).c_data
    → get_room_by_fd fd s.rooms ≡ some pc
    → (w : Server) × (tell_white fd (malloc_buf s) ≡ some w) × Keeps z (for_white z fd pc) s w
unfolding tell_white with_buf
tell_white-Keeps fd z rest pc s e big found =
    let m : Server = record s { bufpool = record s.bufpool { m_queue = rest } } in
    let typed : Server =
      with_buf z (λ b. record b { c_type = st_confirm_into_class_room }) (prepared z fd 2 m) in
    let fd_z : (typed.bufs z).fd ≡ fd = rw (eq→== z z refl) refl in
    let h = post_teacher_to_white-Keeps z st_confirm_into_class_room pc typed (rw fd_z found) in
    (
      (post_teacher_to_white (some z) st_confirm_into_class_room typed).1,
      ap (tell_white fd) (malloc_buf-rest z rest s e)
          ∙ rw (int_message-prepared z fd 2 m big, tell_white) refl,
      record {
        queue = h.queue ∙ ap (λ fd'. s.sendqueue ++ for_white z fd' pc) fd_z;
        rooms = h.rooms;
        others = λ x n. h.others x n ∙ rw (ne→== z x (λ e. n (sym e))) refl;
      },
    )

Delivered-Keeps :
    (z len c_type : ℕ) (body qs : List ℕ) (m : Map ℕ) (sent : List ℕ) (s r : Server)
    → Keeps z sent s r
    → Fresh z qs
    → Delivered s.bufs len c_type body qs m
    → Delivered r.bufs len c_type body qs m
Delivered-Keeps z len c_type body [] [] sent s r k n d = tt
Delivered-Keeps z len c_type body [] (entry ∷ m) sent s r k n d = absurd d
Delivered-Keeps z len c_type body (q ∷ qs) [] sent s r k n d = absurd d
Delivered-Keeps z len c_type body (q ∷ qs) ((fd, student) ∷ m) sent s r k n d = (
  rw (k.others q (λ e. n.0 (sym e))) d.0,
  Delivered-Keeps z len c_type body qs m sent s r k n.1 d.1,
)

-- What is there once the students have been told: the server `told`, and what the students get.
record Told (fd q : ℕ) (qs more : List ℕ) (m : Map ℕ) (rooms : Map CRoom) (s told : Server)
    : Type 0 where
  pub queue : told.sendqueue ≡ s.sendqueue ++ qs
  pub pool : told.bufpool.m_queue ≡ more ++ q ∷ []
  pub rooms_kept : told.rooms ≡ rooms
  pub others : (x : ℕ) → Fresh x (q ∷ qs) → told.bufs x ≡ s.bufs x
  pub messages :
      Delivered told.bufs 12 st_confirm_into_class_room (le_word 1 ++ drop 4 (s.bufs q).c_data) qs m

students-Told :
    (fd q : ℕ) (qs more : List ℕ) (pc : CRoom) (s : Server)
    → get_room_by_fd fd s.rooms ≡ some pc
    → s.bufpool.m_queue ≡ qs ++ more
    → length qs ≡ length pc.m_student_map
    → Ready q s.bufs qs
    → length (s.bufs q).c_data ≡ data_len
    → (told : Server) × (post_teacher_to_all_student
          (some q)
          st_confirm_into_class_room
          (prepared q fd 1 s)
        ≡ some (true, told))
      × Told fd q qs more pc.m_student_map s.rooms s told
unfolding with_buf
students-Told fd q qs more pc s found pool count ready full =
    let w = prepared q fd 1 s in
    let at_q : w.bufs q ≡ record {
      c_len = 12;
      c_type = (s.bufs q).c_type;
      c_data = le_word 1 ++ drop 4 (s.bufs q).c_data;
      used = 12;
      fd = fd;
    } =
      rw (eq→== q q refl) refl in
    let (told, e, queue, pool', copies, rooms, others) =
      post_teacher_to_all_student-sent q st_confirm_into_class_room w pc qs more (rw at_q found)
        pool count (rw at_q (omega arith)) (rw at_q (omega arith))
        (rw at_q (omega (arith, length-drop 4 (s.bufs q).c_data, full)))
        (Ready-with_buf q q
          (λ b. record b {
            c_len = 12;
            c_data = le_word 1 ++ drop 4 (s.bufs q).c_data;
            used = 12;
            fd = fd;
          })
          s qs (Ready-Fresh q s.bufs qs ready) ready) in
    (
      told,
      e,
      record {
        queue = queue;
        pool = pool';
        rooms_kept = rooms;
        others = λ x n. others x n ∙ rw (ne→== q x (λ e. n.0 (sym e))) refl;
        messages =
            subst
              (λ (b : Buf).
                Delivered told.bufs b.c_len st_confirm_into_class_room b.c_data qs pc.m_student_map)
              at_q copies;
      },
    )

module _ (db : Database) (text_of : ℕ → Text) (name_of : Text → ℕ) where
  -- The client of a room asks with the message p to set the courses of a group, which the database has,
  -- and later with the message a for the courses. The rooms stand in order under their ids; the pool has
  -- buffers for a message, for each student's copy and for the whiteboard's, other than a and of full
  -- size; the names of the courses are kept, and are shorter than 128 bytes with a comma after each. Then
  -- both handlers have a defined result: the first queues for each student of the room, in the order of the
  -- descriptors, that the teacher has logged in, and after these, if the client is the teacher, one message
  -- more; the second queues for the client the names of the rows' courses, in their order, each with a comma
  -- after it.
  pub handle_get_course_group-set :
      (p q z a : ℕ) (qs more : List ℕ) (grade group : Text) (room : CRoom) (rows : List Row)
      (s : Server)
      → c_string (s.bufs p).c_data ≡ some grade
      → c_string (drop 20 (s.bufs p).c_data) ≡ some group
      → db used_course (by_text grade ∷ (by_text group ∷ [])) ≡ some rows
      → IsSorted s.rooms
      → Keyed s.rooms
      → get_room_by_fd (s.bufs p).fd s.rooms ≡ some room
      → s.bufpool.m_queue ≡ q ∷ (qs ++ z ∷ more)
      → length qs ≡ length room.m_student_map
      → Ready q s.bufs qs
      → length (s.bufs q).c_data ≡ data_len
      → Fresh z (q ∷ qs)
      → length (s.bufs z).c_data ≡ data_len
      → Fresh a (z ∷ (q ∷ qs))
      → (s.bufs a).fd ≡ (s.bufs p).fd
      → length (s.bufs a).c_data ≡ data_len
      → Named text_of name_of rows
      → length (names rows) < 128
      → (r t : Server) × (handle_set_course_group db name_of (some p) s ≡ some r)
        × (r.sendqueue ≡ s.sendqueue ++ (qs ++ for_white z (s.bufs p).fd room))
        × Delivered r.bufs 12 st_confirm_into_class_room
            (le_word 1 ++ drop 4 (s.bufs q).c_data)
            qs
            room.m_student_map
        × (handle_get_course_group text_of (some a) r ≡ some t)
        × (t.sendqueue ≡ r.sendqueue ++ a ∷ [])
        × Message (t.bufs a) (s.bufs p).fd 136 156 (names rows ++ zeros (128 - length (names rows)))
  unfolding handle_set_course_group tell_class
  handle_get_course_group-set p q z a qs more grade group room rows s has_grade has_group asked
        sorted keyed found pool count ready full fresh full_z others asks full_a named small =
      let fd = (s.bufs p).fd in
      let (rooms, set, found') =
        set_courses-found text_of name_of fd rows room s sorted keyed found in
      let rest : PoolT = record s.bufpool { m_queue = qs ++ z ∷ more } in
      let m : Server = record s { rooms = rooms; bufpool = rest } in
      let same_students = students-renewed text_of name_of rows room in
      let (told, e1, h) =
        students-Told fd q qs (z ∷ more) (renewed text_of name_of rows room) m found' refl
          (rw same_students count) ready full in
      let (r, e2, k) =
        tell_white-Keeps fd z (more ++ q ∷ []) (renewed text_of name_of rows room) told h.pool
          (rw (h.others z fresh) (omega (arith, full_z))) (rw h.rooms_kept found') in
      let at_a : r.bufs a ≡ s.bufs a = k.others a others.0 ∙ h.others a others.1 in
      let found_r : get_room_by_fd (r.bufs a).fd r.rooms
          ≡ some (renewed text_of name_of rows room) =
        rw (at_a, k.rooms) (rw (h.rooms_kept, asks) found') in
      let (t, e3, queue, message) =
        handle_get_course_group-names text_of name_of a rows room r found_r named small
          (rw at_a full_a) in
      (
        r,
        t,
        rw (has_grade, handle_set_course_group)
            (rw has_group (
              rw asked (
                rw set (
                  ap (tell_class fd)
                    (malloc_buf-rest q (qs ++ z ∷ more) (record s { rooms = rooms }) pool)
                  ∙ rw (int_message-prepared q fd 1 m (omega (arith, full)), tell_class)
                      (rw e1 e2))))),
        k.queue
            ∙ rw h.queue (
                append_assoc s.sendqueue qs (for_white z fd (renewed text_of name_of rows room))
                ∙ ap (λ (t : ℕ). s.sendqueue ++ (qs ++ (if t == fd then z ∷ [] else [])))
                    (teacher-renewed text_of name_of rows room)),
        Delivered-Keeps z 12 st_confirm_into_class_room (le_word 1 ++ drop 4 (s.bufs q).c_data) qs
            room.m_student_map _ told r k fresh.1
            (subst
              (λ (map : Map ℕ).
                Delivered told.bufs 12 st_confirm_into_class_room
                  (le_word 1 ++ drop 4 (s.bufs q).c_data) qs map)
              same_students h.messages),
        e3,
        queue,
        subst
            (λ (fd' : ℕ).
              Message (t.bufs a) fd' 136 156 (names rows ++ zeros (128 - length (names rows))))
            (ap (λ (b : Buf). b.fd) at_a ∙ asks) message,
      )
