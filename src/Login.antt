-- ===== src/Login.antt =====
-- The logins, content/LoginCheck.cpp, and handleLogin of handler/HandleClassRoom.cpp. The database is a
-- parameter; of a student only the fields of CStudent are kept that messages are about. A result is `none`
-- where the code follows a null pointer, or reads or writes past an array.
pub mod Passwords
use Prim.Native.String.{String}
use ec_server.Base.{
  ℕ, ◌*◌, ◌+◌, ◌-◌, List, [], ◌∷◌, ◌++◌, Option, none, some, Bool, true, false, ◌&&◌, ltb, leb,
  ◌==◌, if◌then◌else◌, ◌>>=◌, Text, codes, starts_with, length, take, drop, Map, find,
}
use ec_server.Socket.{word}
use ec_server.Content.Room.{CStudent, CRoom, get_room_by_fd}
use ec_server.Server.{Buf, Server, head_len, with_buf, memcpy, malloc_buf, enqueue_buf}
use ec_server.Departure.{
  le_word, send_new, set_student, status_req, student_statuses, st_send_student_status,
}
use ec_server.PuzzleGame.{zeros}
use ec_server.ClassRoom.{send_sized}
use ec_server.Records.{student_login, teacher_login, white_board, by_text, Row, Database}
use ec_server.Records.Questions.{c_string}

abbrev pub ct_login_result : ℕ
ct_login_result = 151

abbrev pub e_cs_online : ℕ
e_cs_online = 1

-- The value -1 of an int.
abbrev pub failed : ℕ
failed = 0xffffffff

-- The rows of a result; after an exception there is none.
unfoldable pub rows_of : Option (List Row) → List Row
rows_of none = []
rows_of (some rows) = rows

-- The column of the last row, and the empty string, or 0, without one.
unfoldable pub last_string : String → Text → List Row → Text
last_string label old [] = old
last_string label old (row ∷ rows) = last_string label (row.get_string (codes label)) rows

unfoldable pub last_int : String → ℕ → List Row → ℕ
last_int label old [] = old
last_int label old (row ∷ rows) = last_int label (row.get_int (codes label)) rows

-- `strncmp (password, stored, strlen (password))` is 0.
abbrev pub agrees : Text → Text → Bool
agrees password stored = starts_with stored password

-- A message for each student; where the pool is empty, there is none for the student.
unfoldable pub send_some : ℕ → List ℕ → Map ℕ → Server → Option Server
unfolding send_new malloc_buf
send_some c_type body [] s = some s
send_some c_type body ((fd, student) ∷ m) s = elim (malloc_buf s).0 [
  | none ↦ send_some c_type body m s
  | some q ↦ elim (send_new fd c_type body s) [ none ↦ none | some s' ↦ send_some c_type body m s' ]
]

-- The end of login_student: teacher, whiteboard and all students are told; the statuses of more than 64
-- students do not fit the array of 512 bytes.
unfoldable pub tell_login : CRoom → CStudent → Server → Option Server
unfolding send_new student_statuses send_some
tell_login room student s = do
  told ← send_new room.m_teacher_fd st_send_student_status (le_word 1 ++ status_req student) s
  shown ← send_new room.m_white_fd st_send_student_status (le_word 1 ++ status_req student) told
  statuses ← student_statuses shown.students room.m_student_map
  (if leb (length statuses) 512
      then send_some st_send_student_status (le_word (length room.m_student_map) ++ statuses)
          room.m_student_map shown
      else none)

unfoldable pub set_online : ℕ → CStudent → CStudent
set_online id student = record student {
  m_id = id;
  m_current_status = e_cs_online;
  m_on_line = true;
}

-- The student who logs in is the one whom the room of the client has under its descriptor.
unfoldable pub enter_student : ℕ → ℕ → Server → Option (ℕ × Server)
unfolding get_room_by_fd find set_student set_online tell_login
enter_student fd id s = elim (get_room_by_fd fd s.rooms) [
  | none ↦ some (failed, s)
  | some room ↦ elim (find fd room.m_student_map) [
    | none ↦ some (failed, s)
    | some p ↦ do
      student ← s.students p
      students ← set_student p (set_online id) s.students
      told ← tell_login room (set_online id student) (record s { students = students })
      some (0, told)
  ]
]

-- The whiteboard's name is looked up, and what is found is not used.
abbrev pub login_whiteboard : ℕ
login_whiteboard = 0

-- sLoginOutResult is packed: an int and the 50 bytes of the text.
unfoldable pub login_out : ℕ → Text
unfolding zeros
login_out result =
    if result == 0
    then le_word 1 ++ (codes "Login succeed" ++ zeros 37)
    else le_word 2 ++ (codes "Login failed" ++ zeros 38)

-- The message's own buffer takes the answer.
unfoldable pub answer_login : ℕ → ℕ → Server → Option Server
unfolding login_out memcpy with_buf send_sized
answer_login p result s = memcpy 54 (login_out result) (s.bufs p).c_data >>= λ bytes. some (
    send_sized p 62
      (with_buf p (λ b. record b { c_len = 62; c_type = ct_login_result; c_data = bytes }) s))

module _ (db : Database) where
  unfoldable pub login_student : ℕ → Text → Text → Server → Option (ℕ × Server)
  unfolding rows_of last_string last_int starts_with enter_student
  login_student fd username password s =
      let rows = rows_of (db student_login (by_text username ∷ (by_text password ∷ []))) in
      if agrees password (last_string "password" [] rows)
      then enter_student fd (last_int "student_id" 0 rows) s
      else some (failed, s)

  unfoldable pub login_teacher : Text → Text → ℕ
  unfolding rows_of last_string starts_with
  login_teacher username password =
      let rows = rows_of (db teacher_login (by_text username ∷ [])) in
      if agrees password (last_string "password" [] rows) && ltb 0 (length password)
      then 0
      else failed

  unfoldable pub login : ℕ → ℕ → Text → Text → Server → Option (ℕ × Server)
  unfolding login_student login_teacher
  login type fd username password s =
      if type == 1
      then login_student fd username password s
      else if type == 2
      then some (login_teacher username password, s)
      else if type == 3
      then some (login_whiteboard, s)
      else some (failed, s)

  unfoldable pub check : ℕ → Server → Option Server
  unfolding c_string login answer_login
  check p s = do
    username ← c_string (take 20 (drop 4 (s.bufs p).c_data))
    password ← c_string (take 20 (drop 24 (s.bufs p).c_data))
    done ← login (word (s.bufs p).c_data) (s.bufs p).fd username password s
    answer_login p done.0 done.1

  unfoldable pub handle_login : Option ℕ → Server → Option Server
  unfolding check
  handle_login none s = none
  handle_login (some p) s = check p s
