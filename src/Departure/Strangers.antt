-- ===== src/Departure/Strangers.antt =====
-- A client who leaves, as a room that does not have it sees it: content/room.cpp's del_client.
use ec_server.Base.{
  ℕ, ◌+◌, ◌*◌, ◌≤◌, ◌≡◌, ◌≢◌, refl, sym, ◌∙◌, List, [], ◌∷◌, ◌++◌, none, some, find, length, arith,
  append-nil, ne→==,
}
use ec_server.Content.Room.{CRoom}
use ec_server.Content.Room.Lookup.{Living}
use ec_server.Server.{Server, with_buf}
use ec_server.Messages.Copies.{data_len}
use ec_server.Departure.{
  st_send_student_status, mark_student, student_statuses, report_student, update_all_student_status,
  del_client,
}
use ec_server.Departure.Letters.{Distinct, Sized, Posted, to_all, Posts}
use ec_server.Departure.Reports.{status_list, listed, update_all_student_status-reported}
use ec_server.Departure.Students.{student_statuses-length}

del_client-update :
    (fd id : ℕ) (room : CRoom) (s : Server)
    → find id s.rooms ≡ some room
    → fd ≢ room.m_teacher_fd
    → fd ≢ room.m_white_fd
    → del_client fd id s ≡ update_all_student_status fd 0 id s
unfolding del_client
del_client-update fd id room s found a b =
    rw (del_client, found) (rw (ne→== fd room.m_teacher_fd a, ne→== fd room.m_white_fd b) refl)

report_student-none :
    (fd flag id : ℕ) (room : CRoom) (s : Server)
    → find fd room.m_student_map ≡ none
    → report_student fd flag id room s ≡ some s
unfolding report_student
report_student-none fd flag id room s e = rw (report_student, e) refl

-- A client disconnects who is neither teacher, whiteboard nor student of the room. All students of the
-- room are there, the list of their statuses fits a buffer, and the pool has a buffer for it and one for
-- each student. Then `del_client` sends every student of the room the list, though nothing in it has
-- changed: the room and the students are as they were.
del_client-stranger :
    (fd id p : ℕ) (qs more : List ℕ) (room : CRoom) (s : Server)
    → find id s.rooms ≡ some room
    → fd ≢ room.m_teacher_fd
    → fd ≢ room.m_white_fd
    → find fd room.m_student_map ≡ none
    → Living s.students room.m_student_map
    → s.bufpool.m_queue ≡ p ∷ (qs ++ more)
    → length qs ≡ length room.m_student_map
    → 4 + 8 * length room.m_student_map ≤ data_len
    → Distinct (p ∷ qs)
    → Sized s.bufs (p ∷ qs)
    → (r : Server) × (entries : List ℕ) × (del_client fd id s ≡ some r)
      × (student_statuses s.students room.m_student_map ≡ some entries)
      × (r.sendqueue ≡ s.sendqueue ++ qs)
      × (r.bufpool.m_queue ≡ more ++ p ∷ [])
      × Posted r.bufs st_send_student_status qs
          (to_all (status_list room.m_student_map entries) room.m_student_map)
      × (r.rooms ≡ s.rooms)
      × (r.students ≡ s.students)
unfolding mark_student with_buf
del_client-stranger fd id p qs more room s found no_teacher no_white absent living pool count fits d
      sized =
    let (entries, e, l) = student_statuses-length s.students room.m_student_map living in
    let start = listed p (qs ++ more) room.m_student_map entries s.students s in
    let posts : Posts st_send_student_status [] (qs ++ more) [] start start = record {
      queue = sym (append-nil start.sendqueue);
      pool = refl;
      posted = tt;
      others = λ x n. refl;
    } in
    let (r, e', queue, pool', posted, kept) =
      update_all_student_status-reported fd 0 id p [] qs more [] room room s.students entries s
        start found pool (rw (mark_student, absent) refl) e (omega (arith, l, fits)) d sized
        (report_student-none fd 0 id room start absent) posts found count in
    (
      r,
      entries,
      del_client-update fd id room s found no_teacher no_white ∙ e',
      e,
      queue,
      pool',
      posted,
      kept.1,
      kept.0,
    )
