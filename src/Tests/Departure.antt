-- ===== src/Tests/Departure.antt =====
-- Clients that leave a room with a teacher, a whiteboard and two students.
use ec_server.Base.{true, ℕ, ◌≡◌, refl, List, [], ◌∷◌, none, some, find, erase, arith}
use ec_server.Content.Room.{CStudent}
use ec_server.Content.Room.Lookup.{Living}
use ec_server.Server.{Server}
use ec_server.Departure.{
  st_send_student_status, went_offline, student_statuses, update_all_student_status,
}
use ec_server.Departure.Letters.{Distinct, Sized, Posted}
use ec_server.Departure.Students.{with_student, departure_letters, update_all_student_status-Posted}
use ec_server.Tests.Room.{room, rooms, students}
use ec_server.Tests.Messages.{server}

abbrev pub student : CStudent
student = record { m_id = 107; m_socket = 0; m_current_status = 1; m_on_line = true }

pub found_room : find 1 rooms ≡ some room
unfolding find
found_room = refl

pub found_student : find 7 room.m_student_map ≡ some 107
unfolding find
found_student = refl

no_student : find 9 room.m_student_map ≡ none
unfolding find
no_student = refl

pub living : Living students room.m_student_map
living = ((_, refl), ((_, refl), tt))

distinct4 : Distinct (50 ∷ 51 ∷ 52 ∷ 53 ∷ [])
distinct4 = (
  (omega arith, (omega arith, (omega arith, tt))),
  ((omega arith, (omega arith, tt)), ((omega arith, tt), (tt, tt))),
)

sized4 : Sized (server []).bufs (50 ∷ 51 ∷ 52 ∷ 53 ∷ [])
sized4 = (refl, (refl, (refl, (refl, tt))))

pub distinct5 : Distinct (50 ∷ 51 ∷ 52 ∷ 53 ∷ 54 ∷ [])
distinct5 = (
  (omega arith, (omega arith, (omega arith, (omega arith, tt)))),
  (
    (omega arith, (omega arith, (omega arith, tt))),
    ((omega arith, (omega arith, tt)), ((omega arith, tt), (tt, tt))),
  ),
)

update_all_student_status-Posted_example :
    (r : Server) × (entries : List ℕ) × (update_all_student_status 7 0 1
        (server (50 ∷ 51 ∷ 52 ∷ 53 ∷ 54 ∷ []))
      ≡ some r)
    × (student_statuses (with_student 107 (went_offline 0) student students) room.m_student_map
        ≡ some entries)
    × (r.sendqueue ≡ 51 ∷ 52 ∷ 53 ∷ [])
    × (r.bufpool.m_queue ≡ 54 ∷ 50 ∷ [])
    × Posted r.bufs st_send_student_status
        (51 ∷ 52 ∷ 53 ∷ [])
        (departure_letters 0 7 student room entries)
    × (find 1 r.rooms ≡ some (record room { m_student_map = (8, 108) ∷ [] }))
    × (r.students 107 ≡ none)
unfolding erase
update_all_student_status-Posted_example =
    update_all_student_status-Posted 7 0 1 50 51 52 107 (53 ∷ []) (54 ∷ []) student room
      (server (50 ∷ 51 ∷ 52 ∷ 53 ∷ 54 ∷ [])) found_room found_student refl living refl refl
      (omega arith) distinct4 sized4
