-- ===== src/ClassRoom/Joining.antt =====
-- handler/HandleClassRoom.cpp's handleSelectedClassRoom: a client chooses its room.
use ec_server.Base.{
  ℕ, ◌≡◌, refl, [], ◌∷◌, ◌++◌, Option, none, some, ◌==◌, if◌then◌else◌, ◌>>=◌, find, update, insert,
  IsSorted, drop, arith, find-insert, insert-Above, true,
}
use ec_server.Socket.{word}
use ec_server.Content.Room.{CStudent, CRoom, add_student, get_room, get_room_by_fd}
use ec_server.Sync.Pool.{free}
use ec_server.Server.{Server, free_buf}
use ec_server.Departure.{e_cs_offline}
use ec_server.Departure.Students.{find-update_here}

-- The student that is made; its socket is what the memory holds.
abbrev pub new_student : ℕ → CStudent
new_student found = record {
  m_id = 0;
  m_socket = found;
  m_current_status = e_cs_offline;
  m_on_line = true;
}

-- `new CStudent ()` at the address `fresh`.
unfoldable pub make_student : ℕ → ℕ → Server → Server
make_student fresh found s = record s {
  students = λ q. if fresh == q then some (new_student found) else s.students q;
}

-- MCT_STUDENT is 1, MCT_WHITEBOARD is 3. In the two early returns the buffer is not given back, and in
-- the second the new student is nobody's.
unfoldable pub handle_selected_class_room : ℕ → ℕ → Option ℕ → Server → Option Server
unfolding get_room make_student get_room_by_fd add_student update free_buf
handle_selected_class_room fresh found none s = none
handle_selected_class_room fresh found (some p) s =
    let id = word (s.bufs p).c_data in
    let client_type = word (drop 4 (s.bufs p).c_data) in
    elim (get_room id s.rooms) [
      | none ↦ some s
      | some room ↦
          if client_type == 1
          then (elim (get_room_by_fd (s.bufs p).fd s.rooms) [
            | some other ↦ some (make_student fresh found s)
            | none ↦
                (add_student (s.bufs p).fd fresh (make_student fresh found s).students room
                  >>= λ joined. some (
                      free_buf p (record s {
                        students = joined.0;
                        rooms = update id (λ _. joined.1) s.rooms;
                      })))
          ])
          else if client_type == 3
          then some (
              free_buf p (record s {
                rooms = update id (λ r. record r { m_white_fd = (s.bufs p).fd }) s.rooms;
              }))
          else some (free_buf p s)
    ]

module _ (fresh found p : ℕ) (room : CRoom) (s : Server) where
  -- A student whom no room has chooses a room, and the address of the new object is not in use: he is
  -- entered in the room under his descriptor, as a student with the id 0, with the status eCS_OFFLINE and
  -- the flag m_onLine; the room's other entries and all other students are the same, and the buffer goes
  -- back to the pool.
  pub handle_selected_class_room-find :
      find (word (s.bufs p).c_data) s.rooms ≡ some room
      → word (drop 4 (s.bufs p).c_data) ≡ 1
      → get_room_by_fd (s.bufs p).fd s.rooms ≡ none
      → find (s.bufs p).fd room.m_student_map ≡ none
      → IsSorted room.m_student_map
      → s.students fresh ≡ none
      → (r : Server) × (room' : CRoom) × (handle_selected_class_room fresh found (some p) s
          ≡ some r)
        × (find (word (s.bufs p).c_data) r.rooms ≡ some room')
        × IsSorted room'.m_student_map
        × ((j : ℕ)
            → find j room'.m_student_map
              ≡ (if (s.bufs p).fd == j then some fresh else find j room.m_student_map))
        × ((q : ℕ) → r.students q ≡ (if fresh == q then some (new_student found) else s.students q))
        × (r.bufpool.m_queue ≡ s.bufpool.m_queue ++ p ∷ [])
  unfolding handle_selected_class_room get_room add_student make_student free_buf free
  handle_selected_class_room-find here student nowhere new sorted unused =
      let room' : CRoom = record room {
        m_student_map = insert (s.bufs p).fd fresh room.m_student_map;
      } in
      let made : Server = make_student fresh found s in
      (
        free_buf p (record s {
          students = made.students;
          rooms = update (word (s.bufs p).c_data) (λ _. room') s.rooms;
        }),
        room',
        rw (handle_selected_class_room, here)
            (rw student (rw nowhere (rw (add_student, new) refl))),
        find-update_here (word (s.bufs p).c_data) (λ (_ : CRoom). room') s.rooms room here,
        insert-Above 0 (s.bufs p).fd fresh room.m_student_map (omega arith) sorted,
        (λ j. ground (arith, find-insert 0 (s.bufs p).fd j fresh room.m_student_map sorted, new)),
        (λ q. refl),
        refl,
      )
