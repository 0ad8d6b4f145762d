-- ===== src/Tests/ClassRoom.antt =====
-- Handlers of a class room on a room with two students.
use ec_server.Base.{
  ℕ, ◌≡◌, refl, List, [], ◌∷◌, ◌++◌, none, some, ◌==◌, if◌then◌else◌, find, IsSorted, arith,
}
use ec_server.Content.Room.{CRoom, get_room_by_fd}
use ec_server.Server.{Server}
use ec_server.Departure.{went_offline, student_statuses, le_word, st_send_student_status}
use ec_server.Departure.Letters.{Sized, Posted}
use ec_server.Departure.Students.{with_student, departure_letters}
use ec_server.ClassRoom.{handle_confirm_leave_early}
use ec_server.ClassRoom.Leaving.{leaving, handle_confirm_leave_early-Posted}
use ec_server.ClassRoom.Joining.{
  new_student, handle_selected_class_room, handle_selected_class_room-find,
}
use ec_server.Tests.Room.{room, rooms, students}
use ec_server.Tests.Messages.{bytes}
use ec_server.Tests.Departure.{student, found_room, found_student, living, distinct5}

-- Messages from a client that hold two ints.
abbrev pub server : ℕ → ℕ → ℕ → Server
server fd a b = record {
  bufs = λ p. record {
    c_len = 16;
    c_type = 20;
    c_data = (le_word a ++ le_word b) ++ bytes 5104;
    used = 16;
    fd = fd;
  };
  bufpool = record { m_queue = 50 ∷ 51 ∷ 52 ∷ 53 ∷ 54 ∷ []; m_size = 6 };
  sendqueue = [];
  students = students;
  rooms = rooms;
}

pub of_student : get_room_by_fd 7 rooms ≡ some room
unfolding get_room_by_fd
of_student = refl

of_nobody : get_room_by_fd 9 rooms ≡ none
unfolding get_room_by_fd
of_nobody = refl

no_student : find 9 room.m_student_map ≡ none
unfolding find
no_student = refl

sized5 : Sized (server 7 1 1).bufs (50 ∷ 51 ∷ 52 ∷ 53 ∷ 54 ∷ [])
sized5 = (refl, (refl, (refl, (refl, (refl, tt)))))

handle_confirm_leave_early-Posted_example :
    (r : Server) × (entries : List ℕ) × (handle_confirm_leave_early (some 60) (server 7 1 1)
      ≡ some r)
    × (student_statuses
          (with_student 107
            (went_offline 1)
            (leaving student)
            (with_student 107 leaving student students))
          room.m_student_map
        ≡ some entries)
    × (r.sendqueue ≡ 51 ∷ 52 ∷ 53 ∷ 54 ∷ [])
    × (r.bufpool.m_queue ≡ 50 ∷ [])
    × Posted r.bufs st_send_student_status
        (51 ∷ 52 ∷ 53 ∷ 54 ∷ [])
        (departure_letters 1 7 (leaving student) room entries)
    × (find 1 r.rooms ≡ some room)
    × (r.students 107 ≡ some (record (leaving student) { m_socket = 0 }))
handle_confirm_leave_early-Posted_example =
    handle_confirm_leave_early-Posted 60 50 51 52 107 (53 ∷ 54 ∷ []) [] student room (server 7 1 1)
      of_student found_room found_student (omega arith) refl living refl refl (omega arith)
      distinct5 sized5

-- Nobody is at the address 109 yet.
abbrev joining : Server
joining = record (server 9 1 1) { students = λ p. if p == 109 then none else students p }

handle_selected_class_room-find_example :
    (r : Server) × (room' : CRoom) × (handle_selected_class_room 109 0 (some 60) joining ≡ some r)
    × (find 1 r.rooms ≡ some room')
    × IsSorted room'.m_student_map
    × ((j : ℕ)
        → find j room'.m_student_map ≡ (if 9 == j then some 109 else find j room.m_student_map))
    × ((q : ℕ) → r.students q ≡ (if 109 == q then some (new_student 0) else joining.students q))
    × (r.bufpool.m_queue ≡ 50 ∷ 51 ∷ 52 ∷ 53 ∷ 54 ∷ 60 ∷ [])
handle_selected_class_room-find_example =
    handle_selected_class_room-find 109 0 60 room joining found_room refl of_nobody no_student
      (ground arith) refl
