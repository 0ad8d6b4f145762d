-- ===== src/ClassRoom/Leaving.antt =====
-- A student who leaves early: handler/HandleClassRoom.cpp's handleConfirmLeaveEarly with
-- content/room.cpp's update_all_student_status.
use ec_server.Base.{
  ℕ, ◌+◌, ◌*◌, ◌≤◌, ◌≡◌, ◌≢◌, refl, List, [], ◌∷◌, ◌++◌, some, find, length, eq→==, ne→==,
}
use ec_server.Content.Room.{CStudent, CRoom, get_room_by_fd}
use ec_server.Content.Room.Lookup.{Living}
use ec_server.Server.{Server}
use ec_server.Messages.Copies.{data_len}
use ec_server.Departure.{st_send_student_status, went_offline, student_statuses}
use ec_server.Departure.Letters.{Distinct, Sized, Posted}
use ec_server.Departure.Students.{
  with_student, set_student_lem, Living-with_student, departure_letters,
  update_all_student_status-Posted,
}
use ec_server.ClassRoom.{e_cs_leaveearly, handle_confirm_leave_early}

abbrev pub leaving : CStudent → CStudent
leaving student = record student { m_current_status = e_cs_leaveearly }

-- A student of a room, all of whose students are there, confirms that he leaves early. The pool has a
-- buffer for the list of the statuses, one each for teacher and whiteboard, and one for each student;
-- the list fits a buffer. Then the handler has a defined result: the student has the status
-- eCS_LEAVEEARLY and no socket, and stays in the room; teacher and whiteboard are sent his status, and
-- each student, he too, the list of the statuses that all then have. The message's own buffer is not given
-- back: only the list's is.
pub handle_confirm_leave_early-Posted :
    (x p q1 q2 ptr : ℕ) (qs more : List ℕ) (student : CStudent) (room : CRoom) (s : Server)
    → get_room_by_fd (s.bufs x).fd s.rooms ≡ some room
    → find room.m_room_id s.rooms ≡ some room
    → find (s.bufs x).fd room.m_student_map ≡ some ptr
    → ptr ≢ 0
    → s.students ptr ≡ some student
    → Living s.students room.m_student_map
    → s.bufpool.m_queue ≡ p ∷ q1 ∷ q2 ∷ (qs ++ more)
    → length qs ≡ length room.m_student_map
    → 4 + 8 * length room.m_student_map ≤ data_len
    → Distinct (p ∷ q1 ∷ q2 ∷ qs)
    → Sized s.bufs (p ∷ q1 ∷ q2 ∷ qs)
    → (r : Server) × (entries : List ℕ) × (handle_confirm_leave_early (some x) s ≡ some r)
      × (student_statuses
            (with_student ptr
              (went_offline 1)
              (leaving student)
              (with_student ptr leaving student s.students))
            room.m_student_map
          ≡ some entries)
      × (r.sendqueue ≡ s.sendqueue ++ q1 ∷ q2 ∷ qs)
      × (r.bufpool.m_queue ≡ more ++ p ∷ [])
      × Posted r.bufs st_send_student_status
          (q1 ∷ q2 ∷ qs)
          (departure_letters 1 (s.bufs x).fd (leaving student) room entries)
      × (find room.m_room_id r.rooms ≡ some room)
      × (r.students ptr ≡ some (record (leaving student) { m_socket = 0 }))
unfolding handle_confirm_leave_early went_offline
handle_confirm_leave_early-Posted x p q1 q2 ptr qs more student room s by_fd found here real there
      living pool count fits d sized =
    let marked : Server = record s { students = with_student ptr leaving student s.students } in
    let (r, entries, e, e1, queue, pool', posted, left, gone) =
      update_all_student_status-Posted (s.bufs x).fd 1 room.m_room_id p q1 q2 ptr qs more
        (leaving student) room marked found here (rw (eq→== ptr ptr refl) refl)
        (Living-with_student ptr leaving student s.students room.m_student_map living) pool count
        fits d sized in
    (
      r,
      entries,
      rw (handle_confirm_leave_early, by_fd)
          (rw here
            (rw (ne→== ptr 0 real) (rw (set_student_lem ptr leaving student s.students there) e))),
      e1,
      queue,
      pool',
      posted,
      left,
      gone,
    )
