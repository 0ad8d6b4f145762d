-- ===== src/Departure.antt =====
-- content/room.cpp and content/roommanager.cpp: a client that leaves, and what its room tells the
-- others. A room is `this` under its id in the server's rooms. A result is `none` where the code follows
-- a null pointer, a malloc's included, or one to a deleted student, or writes past the end of a buffer.
pub mod Letters
pub mod Sending
pub mod Reports
pub mod Students
pub mod Teacher
pub mod Strangers
use ec_server.Base.{
  ℕ, ◌+◌, ◌/◌, ◌%◌, List, [], ◌∷◌, ◌++◌, Option, none, some, ◌==◌, if◌then◌else◌, ◌>>=◌, Map, find,
  erase, update, keys, length,
}
use ec_server.Content.Room.{CStudent, CRoom, get_room_by_fd}
use ec_server.Server.{
  Buf, Server, head_len, with_buf, reset, memcpy, malloc_buf, free_buf, enqueue_buf,
}
use ec_server.Messages.{send_copies}

abbrev pub st_send_student_status : ℕ
st_send_student_status = 187

abbrev pub e_cs_offline : ℕ
e_cs_offline = 2

-- An unsigned int as it is stored.
abbrev pub le_word : ℕ → List ℕ
le_word n = n % 256 ∷ n / 256 % 256 ∷ n / 65536 % 256 ∷ n / 16777216 % 256 ∷ []

-- A new message: a buffer is taken, written and queued.
unfoldable pub send_new : ℕ → ℕ → List ℕ → Server → Option Server
unfolding malloc_buf memcpy with_buf enqueue_buf
send_new fd c_type body s = elim (malloc_buf s).0 [
  | none ↦ none
  | some q ↦ elim (memcpy (length body) body (s.bufs q).c_data) [
    | none ↦ none
    | some bytes ↦ some (
        enqueue_buf q (
          with_buf q
            (λ b. record b {
              c_len = head_len + length body;
              c_type = c_type;
              c_data = bytes;
              used = head_len + length body;
              fd = fd;
            })
            (malloc_buf s).1))
  ]
]

-- The same message for each student of a map.
unfoldable pub send_all : ℕ → List ℕ → Map ℕ → Server → Option Server
unfolding send_new
send_all c_type body [] s = some s
send_all c_type body ((fd, student) ∷ m) s = elim (send_new fd c_type body s) [
  | none ↦ none
  | some s' ↦ send_all c_type body m s'
]

-- A TSendStudentStatusReq.
abbrev pub status_req : CStudent → List ℕ
status_req student = le_word student.m_id ++ le_word student.m_current_status

unfoldable pub set_student :
    ℕ → (CStudent → CStudent) → (ℕ → Option CStudent) → Option (ℕ → Option CStudent)
set_student p f students = elim (students p) [
  | none ↦ none
  | some student ↦ some (λ q. if p == q then some (f student) else students q)
]

-- The status of the student is set only when the flag says that he is offline.
unfoldable pub went_offline : ℕ → CStudent → CStudent
went_offline flag student =
    if flag == 0
    then record student { m_socket = 0; m_current_status = e_cs_offline }
    else record student { m_socket = 0 }

unfoldable pub mark_student : ℕ → ℕ → Map ℕ → (ℕ → Option CStudent) → Option (ℕ → Option CStudent)
unfolding find set_student went_offline
mark_student fd flag m students = elim (find fd m) [
  | none ↦ some students
  | some p ↦ set_student p (went_offline flag) students
]

unfoldable pub student_statuses : (ℕ → Option CStudent) → Map ℕ → Option (List ℕ)
student_statuses students [] = some []
student_statuses students ((fd, p) ∷ m) =
    let rest = student_statuses students m in
    elim (students p) [
      | none ↦ none
      | some student ↦ rest >>= λ bytes. some (status_req student ++ bytes)
    ]

-- `delete` and `erase` of a student of the room.
unfoldable pub remove_student : ℕ → ℕ → ℕ → Server → Server
unfolding erase update
remove_student fd p id s = record s {
  students = λ q. if p == q then none else s.students q;
  rooms = update id (λ r. record r { m_student_map = erase fd r.m_student_map }) s.rooms;
}

-- Teacher and whiteboard are told of the one student, who is deleted if he is offline.
unfoldable pub report_student : ℕ → ℕ → ℕ → CRoom → Server → Option Server
unfolding find send_new remove_student
report_student fd flag id room s = elim (find fd room.m_student_map) [
  | none ↦ some s
  | some p ↦ do
    student ← s.students p
    told ← send_new room.m_teacher_fd st_send_student_status (le_word 1 ++ status_req student) s
    shown ← send_new room.m_white_fd st_send_student_status (le_word 1 ++ status_req student) told
    some (if flag == 0 then remove_student fd p id shown else shown)
]

-- The list of all statuses is written behind its count into a buffer of its own, and copied from there
-- to each student who is left: the copy's head_len + 4 + 8 n bytes are head and data.
unfoldable pub update_all_student_status : ℕ → ℕ → ℕ → Server → Option Server
unfolding find malloc_buf mark_student student_statuses memcpy with_buf report_student send_copies
    reset free_buf
update_all_student_status fd flag id s = do
  room ← find id s.rooms
  p ← (malloc_buf s).0
  students ← mark_student fd flag room.m_student_map s.students
  entries ← student_statuses students room.m_student_map
  let body = le_word (length room.m_student_map) ++ entries
  bytes ← memcpy (length body) body (s.bufs p).c_data
  let len = head_len + length body
  reported ← report_student fd flag id room (
      with_buf p (λ b. record b { c_len = len; c_type = st_send_student_status; c_data = bytes })
        (record (malloc_buf s).1 { students = students }))
  left ← find id reported.rooms
  sent ← send_copies p len st_send_student_status left.m_student_map reported
  some (free_buf p (with_buf p reset sent))

-- The message has no count, which `update_all_student_status` puts in front.
unfoldable pub del_student : ℕ → ℕ → Server → Option Server
unfolding find send_new remove_student send_all
del_student fd id s = do
  room ← find id s.rooms
  elim (find fd room.m_student_map) [
    | none ↦ some s
    | some p ↦ do
      student ← s.students p
      let body = le_word student.m_id ++ le_word e_cs_offline
      told ← send_new room.m_teacher_fd st_send_student_status body s
      left ← find id (remove_student fd p id told).rooms
      send_all st_send_student_status body left.m_student_map (remove_student fd p id told)
  ]

unfoldable pub clear_sockets : Map ℕ → (ℕ → Option CStudent) → Option (ℕ → Option CStudent)
unfolding set_student
clear_sockets [] students = some students
clear_sockets ((fd, p) ∷ m) students =
    elim (set_student p (λ student. record student { m_socket = 0 }) students) [
      | none ↦ none
      | some students' ↦ clear_sockets m students'
    ]

-- The students stay in the room.
unfoldable pub reset_room : ℕ → Server → Option Server
unfolding find clear_sockets update
reset_room id s = do
  room ← find id s.rooms
  students ← clear_sockets room.m_student_map s.students
  some (record s {
    students = students;
    rooms =
        update id (λ r. record r { m_course_list = []; m_game_list = []; m_is_used = 0 }) s.rooms;
  })

unfoldable pub teacher_disconnect : ℕ → Server → Option Server
unfolding find send_all send_new reset_room
teacher_disconnect id s = do
  room ← find id s.rooms
  let body = le_word 0xffffffff ++ le_word 0xffffffff
  told ← send_all st_send_student_status body room.m_student_map s
  shown ← send_new room.m_white_fd st_send_student_status body told
  reset_room id shown

-- The room that the teacher's descriptor leads to is looked up, and reset, before this one is told.
unfoldable pub teacher_left : ℕ → ℕ → Server → Option Server
unfolding get_room_by_fd reset_room teacher_disconnect update
teacher_left fd id s = do
  first ← get_room_by_fd fd s.rooms
  ready ← (if first.m_is_used == 1 then reset_room first.m_room_id s else some s)
  told ← teacher_disconnect id ready
  some (record told { rooms = update id (λ r. record r { m_teacher_fd = 0 }) told.rooms })

unfoldable pub del_client : ℕ → ℕ → Server → Option Server
unfolding find teacher_left update update_all_student_status
del_client fd id s = find id s.rooms >>= λ room.
    if fd == room.m_teacher_fd
    then teacher_left fd id s
    else if fd == room.m_white_fd
    then some (record s { rooms = update id (λ r. record r { m_white_fd = 0 }) s.rooms })
    else update_all_student_status fd 0 id s

unfoldable pub del_client_from : ℕ → List ℕ → Server → Option Server
unfolding del_client
del_client_from fd [] s = some s
del_client_from fd (id ∷ ids) s = elim (del_client fd id s) [
  | none ↦ none
  | some s' ↦ del_client_from fd ids s'
]

-- CRoomManager::del_client
unfoldable pub del_client_of_rooms : ℕ → Server → Option Server
unfolding del_client_from
del_client_of_rooms fd s = del_client_from fd (keys s.rooms) s
