-- ===== src/ClassRoom.antt =====
-- handler/HandleClassRoom.cpp: the handlers that change a room or answer from it. A result is `none`
-- where the code follows a null pointer or has no defined result otherwise; the pointer to a message is
-- `none` if it is null.
pub mod Leaving
pub mod Scenes
pub mod Joining
use ec_server.Base.{
  ℕ, ◌+◌, ◌-◌, ◌^◌, ◌%◌, List, [], ◌∷◌, ◌++◌, Option, none, some, Bool, true, false, ◌&&◌, not, ltb,
  leb, ◌==◌, if◌then◌else◌, ◌>>=◌, Map, find, update, take, drop,
}
use ec_server.Socket.{word}
use ec_server.Content.Room.{
  CStudent, CRoom, add_student, get_room, get_room_by_fd, get_room_by_name,
}
use ec_server.Content.Group.{CGroup, is_positive, add_student_to_group}
use ec_server.Server.{Buf, Server, head_len, with_buf, memcpy, malloc_buf, free_buf, enqueue_buf}
use ec_server.Messages.{
  post_message, post_teacher_to_white, post_teacher_to_all_student, post_teacher_to_student,
}
use ec_server.Departure.{le_word, set_student, reset_room, update_all_student_status, e_cs_offline}

abbrev pub st_control_change_scene : ℕ
st_control_change_scene = 103

abbrev pub st_confirm_into_class_room : ℕ
st_confirm_into_class_room = 106

abbrev pub ct_confirm_into_class_room : ℕ
ct_confirm_into_class_room = 107

abbrev pub st_get_current_scene : ℕ
st_get_current_scene = 110

abbrev pub ct_leave_early : ℕ
ct_leave_early = 173

abbrev pub st_leave_early : ℕ
st_leave_early = 174

abbrev pub ct_lock_student : ℕ
ct_lock_student = 178

abbrev pub st_lock_student : ℕ
st_lock_student = 179

abbrev pub ct_scene_end : ℕ
ct_scene_end = 725

abbrev pub st_scene_end : ℕ
st_scene_end = 726

abbrev pub e_cs_leaveearly : ℕ
e_cs_leaveearly = 3

-- A change of the room behind a pointer: the rooms are stored under their ids.
unfoldable pub with_room : CRoom → (CRoom → CRoom) → Server → Server
unfolding update
with_room room f s = record s { rooms = update room.m_room_id f s.rooms }

-- An int is stored behind the head, and the head says so.
unfoldable pub put_int : ℕ → ℕ → ℕ → Server → Option Server
unfolding memcpy with_buf
put_int p c_type n s = memcpy 4 (le_word n) (s.bufs p).c_data >>= λ bytes.
    some (with_buf p (λ b. record b { c_len = head_len + 4; c_type = c_type; c_data = bytes }) s)

-- `setsize` and `enqueue`.
unfoldable pub send_sized : ℕ → ℕ → Server → Server
unfolding with_buf enqueue_buf
send_sized p size s = enqueue_buf p (with_buf p (λ b. record b { used = size }) s)

-- A client of no room gets no answer, and its buffer is not given back.
unfoldable pub handle_get_current_scene : Option ℕ → Server → Option Server
unfolding get_room_by_fd put_int send_sized
handle_get_current_scene none s = none
handle_get_current_scene (some p) s = elim (get_room_by_fd (s.bufs p).fd s.rooms) [
  | none ↦ some s
  | some room ↦ put_int p st_get_current_scene room.m_current_scene s >>= λ s'.
      some (send_sized p (head_len + 4) s')
]

-- TT_LOGIN_CLASSROOM and TT_LOGOUT_CLASSROOM.
abbrev pub login_state : CRoom → ℕ
login_state room = if is_positive room.m_teacher_fd && (room.m_is_used == 1) then 1 else 2

-- The head is changed before the room is looked for.
unfoldable pub handle_confirm_into_class_room : Option ℕ → Server → Option Server
unfolding get_room_by_fd with_buf put_int send_sized
handle_confirm_into_class_room none s = some s
handle_confirm_into_class_room (some p) s =
    if (s.bufs p).c_type == ct_confirm_into_class_room
    then (elim (get_room_by_fd (s.bufs p).fd s.rooms) [
      | none ↦ some (
          with_buf p (λ b. record b { c_len = head_len + 4; c_type = st_confirm_into_class_room })
            s)
      | some room ↦ put_int p st_confirm_into_class_room (login_state room) s >>= λ s'.
          some (send_sized p (head_len + 4) s')
    ])
    else some s

-- `name_of` is the name that the bytes of a C string spell. A room in use is left alone, and the
-- buffer is not given back.
unfoldable pub handle_login_class_room : (List ℕ → ℕ) → Option ℕ → Server → Option Server
unfolding get_room_by_name with_room free_buf
handle_login_class_room name_of none s = none
handle_login_class_room name_of (some p) s =
    let body = (s.bufs p).c_data in
    let teacher = name_of (take 20 (drop 4 body)) in
    let class = name_of (take 20 (drop 24 body)) in
    elim (get_room_by_name (name_of (take 20 (drop 44 body))) s.rooms) [
      | none ↦ some (free_buf p s)
      | some room ↦
          if room.m_is_used == 1
          then some s
          else some (
              free_buf p (
                with_room room
                  (λ r. record r {
                    m_teacher_fd = (s.bufs p).fd;
                    m_teacher_name = if teacher == 0 then r.m_teacher_name else teacher;
                    m_class_name = class;
                    m_is_used = 1;
                  })
                  s))
    ]

-- After the message has gone to the students its buffer is back in the pool, and still read: the
-- descriptor is in it as before.
unfoldable pub handle_logout_class_room : Option ℕ → Server → Option Server
unfolding get_room_by_fd put_int post_teacher_to_all_student malloc_buf with_buf
    post_teacher_to_white reset_room with_room
handle_logout_class_room none s = none
handle_logout_class_room (some p) s = elim (get_room_by_fd (s.bufs p).fd s.rooms) [
  | none ↦ some s
  | some room ↦
      if (s.bufs p).fd == room.m_teacher_fd
      then (do
        ready ← put_int p st_confirm_into_class_room 2 s
        told ← post_teacher_to_all_student (some p) st_confirm_into_class_room ready
        elim (malloc_buf told.1).0 [
          | none ↦ some told.1
          | some q ↦ do
            filled ← put_int q st_confirm_into_class_room 2 (malloc_buf told.1).1
            let asked = with_buf q (λ b. record b { fd = (filled.bufs p).fd }) filled
            let shown = (post_teacher_to_white (some q) st_confirm_into_class_room asked).1
            reset_room room.m_room_id (with_room room (λ r. record r { m_is_used = 0 }) shown)
        ])
      else some s
]

unfoldable pub handle_leave_early : Option ℕ → Server → Option Server
unfolding post_teacher_to_student
handle_leave_early none s = some s
handle_leave_early (some p) s =
    if (s.bufs p).c_type == ct_leave_early
    then (post_teacher_to_student (some p) st_leave_early (word (s.bufs p).c_data) s >>= λ r.
        some r.1)
    else some s

-- The buffer is not given back on any path.
unfoldable pub handle_confirm_leave_early : Option ℕ → Server → Option Server
unfolding get_room_by_fd find set_student update_all_student_status
handle_confirm_leave_early none s = some s
handle_confirm_leave_early (some p) s = elim (get_room_by_fd (s.bufs p).fd s.rooms) [
  | none ↦ some s
  | some room ↦ elim (find (s.bufs p).fd room.m_student_map) [
    | none ↦ some s
    | some ptr ↦
        if ptr == 0
        then some s
        else (set_student ptr (λ student. record student { m_current_status = e_cs_leaveearly })
              s.students
            >>= λ students.
                update_all_student_status (s.bufs p).fd 1 room.m_room_id
                  (record s { students = students }))
  ]
]

unfoldable pub handle_lock_student : Option ℕ → Server → Option Server
unfolding post_teacher_to_all_student
handle_lock_student none s = some s
handle_lock_student (some p) s =
    if (s.bufs p).c_type == ct_lock_student
    then (post_teacher_to_all_student (some p) st_lock_student s >>= λ r. some r.1)
    else some s

-- The message is posted back with its own data; a length below the head's wraps.
unfoldable pub handle_scene_end : Option ℕ → Server → Option Server
unfolding post_message
handle_scene_end none s = some s
handle_scene_end (some p) s =
    if (s.bufs p).c_type == ct_scene_end
    then (post_message (some p) st_scene_end (some (s.bufs p).c_data)
          (((s.bufs p).c_len + 2 ^ 64 - head_len) % 2 ^ 64) s
        >>= λ r. some r.1)
    else some s
