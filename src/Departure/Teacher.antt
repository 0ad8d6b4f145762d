-- ===== src/Departure/Teacher.antt =====
-- A teacher who leaves a room: content/room.cpp's reset, teacher_disconnect and del_client.
use ec_server.Base.{
  ℕ, ◌≡◌, refl, List, [], ◌∷◌, ◌++◌, Option, some, ◌==◌, Map, find, update, Bool-cases, inl, inr,
  eq→==,
}
use ec_server.Content.Room.{CStudent, CRoom}
use ec_server.Content.Room.Lookup.{Living}
use ec_server.Server.{Server}
use ec_server.Departure.{le_word, clear_sockets, reset_room}
use ec_server.Departure.Letters.{to_all}
use ec_server.Departure.Students.{
  with_student, set_student_lem, Living-with_student, find-update_here,
}

-- Each student is there and has no socket.
abbrev pub Cleared : (ℕ → Option CStudent) → Map ℕ → Type 0
Cleared students [] = Unit {0}
Cleared students ((fd, p) ∷ m) =
    ((student : CStudent) × (students p ≡ some student) × (student.m_socket ≡ 0))
    × Cleared students m

abbrev no_socket : CStudent → CStudent
no_socket student = record student { m_socket = 0 }

Cleared-with_student :
    (p : ℕ) (student : CStudent) (students : ℕ → Option CStudent) (m : Map ℕ)
    → Cleared students m
    → Cleared (with_student p no_socket student students) m
Cleared-with_student p student students [] c = tt
Cleared-with_student p student students ((fd, q) ∷ m) c = (
  elim (Bool-cases (p == q)) [
    | inl hit ↦ (no_socket student, rw hit refl, refl)
    | inr miss ↦ (c.0.0, rw miss c.0.1, c.0.2)
  ],
  Cleared-with_student p student students m c.1,
)

-- With all students there the loop clears their sockets, and keeps every student there.
clear_sockets-Cleared :
    (m : Map ℕ) (students : ℕ → Option CStudent)
    → Living students m
    → (students' : ℕ → Option CStudent) × (clear_sockets m students ≡ some students')
      × Cleared students' m
      × ((n : Map ℕ) → Living students n → Living students' n)
      × ((n : Map ℕ) → Cleared students n → Cleared students' n)
unfolding clear_sockets
clear_sockets-Cleared [] students l = (students, refl, tt, (λ n h. h), (λ n h. h))
clear_sockets-Cleared ((fd, p) ∷ m) students ((student, there), l) =
    let next = with_student p no_socket student students in
    let (students', e, cleared, living, keeps) =
      clear_sockets-Cleared m next (Living-with_student p no_socket student students m l) in
    let first : Cleared next ((fd, p) ∷ []) =
      ((no_socket student, rw (eq→== p p refl) refl, refl), tt) in
    (
      students',
      rw (clear_sockets, set_student_lem p no_socket student students there) e,
      ((keeps ((fd, p) ∷ []) first).0, cleared),
      (λ n h. living n (Living-with_student p no_socket student students n h)),
      (λ n h. keeps n (Cleared-with_student p student students n h)),
    )

abbrev pub reset_of : CRoom → CRoom
reset_of room = record room { m_course_list = []; m_game_list = []; m_is_used = 0 }

-- `reset` of a room whose students are there: they stay, and have no sockets.
pub reset_room-Cleared :
    (id : ℕ) (room : CRoom) (s : Server)
    → find id s.rooms ≡ some room
    → Living s.students room.m_student_map
    → (r : Server) × (reset_room id s ≡ some r)
      × (find id r.rooms ≡ some (reset_of room))
      × Cleared r.students room.m_student_map
      × Living r.students room.m_student_map
      × (r.bufs ≡ s.bufs)
      × (r.bufpool ≡ s.bufpool)
      × (r.sendqueue ≡ s.sendqueue)
unfolding reset_room
reset_room-Cleared id room s found living =
    let (students, e, cleared, keeps, more) =
      clear_sockets-Cleared room.m_student_map s.students living in
    (
      record s { students = students; rooms = update id reset_of s.rooms },
      rw (reset_room, found) (rw e refl),
      find-update_here id reset_of s.rooms room found,
      cleared,
      keeps room.m_student_map living,
      refl,
      refl,
      refl,
    )

abbrev gone : List ℕ
gone = le_word 0xffffffff ++ le_word 0xffffffff

-- What a teacher's departure posts: the same letter to each student, and to the whiteboard.
abbrev pub gone_letters : CRoom → List (ℕ × List ℕ)
gone_letters room = to_all gone room.m_student_map ++ (room.m_white_fd, gone) ∷ []

abbrev pub left_by_teacher : CRoom → CRoom
left_by_teacher room = record (reset_of room) { m_teacher_fd = 0 }
