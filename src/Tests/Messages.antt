-- ===== src/Tests/Messages.antt =====
-- Messages in a room with two students, from a pool of three buffers.
use ec_server.Base.{ℕ, zero, suc, ◌≡◌, refl, List, [], ◌∷◌, none, some, true, arith}
use ec_server.Content.Room.{get_room_by_fd}
use ec_server.Server.{Server}
use ec_server.Messages.{fd_of_student, post_teacher_to_all_student}
use ec_server.Messages.Copies.{Delivered, Ready}
use ec_server.Messages.Broadcast.{post_teacher_to_all_student-Delivered}
use ec_server.Tests.Room.{room, rooms, students}

abbrev pub bytes : ℕ → List ℕ
bytes zero = []
bytes (suc n) = 65 ∷ bytes n

-- Every buffer holds a message of twelve bytes from the teacher.
abbrev pub server : List ℕ → Server
server pool = record {
  bufs = λ p. record { c_len = 12; c_type = 20; c_data = bytes 5112; used = 12; fd = 3 };
  bufpool = record { m_queue = pool; m_size = 4 };
  sendqueue = [];
  students = students;
  rooms = rooms;
}

found_room : get_room_by_fd 3 rooms ≡ some room
unfolding get_room_by_fd
found_room = refl

no_student : fd_of_student 5 students room.m_student_map ≡ some none
unfolding fd_of_student
no_student = refl

bytes-Ready : Ready 50 (server []).bufs (51 ∷ 52 ∷ [])
bytes-Ready = (omega arith, refl, (omega arith, tt), (omega arith, refl, tt, tt))

post_teacher_to_all_student-Delivered_example :
    (r : Server) × (post_teacher_to_all_student (some 50) 21 (server (51 ∷ 52 ∷ 53 ∷ []))
      ≡ some (true, r))
    × (r.sendqueue ≡ 51 ∷ 52 ∷ [])
    × (r.bufpool.m_queue ≡ 53 ∷ 50 ∷ [])
    × Delivered r.bufs 12 21 (bytes 5112) (51 ∷ 52 ∷ []) room.m_student_map
post_teacher_to_all_student-Delivered_example =
    post_teacher_to_all_student-Delivered 50 21 (server (51 ∷ 52 ∷ 53 ∷ [])) room (51 ∷ 52 ∷ [])
      (53 ∷ []) found_room refl refl (omega arith) (omega arith) refl bytes-Ready
