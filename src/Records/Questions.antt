-- ===== src/Records/Questions.antt =====
-- The handlers of handler/HandleClassRoom.cpp that ask the database. `text_of` gives the text of a name,
-- `name_of` the name that a text is. Where an exception is caught, the message's buffer is given back only
-- by handleGetCourseItemKeyInfoReq.
use ec_server.Base.{
  ℕ, zero, suc, ◌+◌, ◌-◌, List, [], ◌∷◌, ◌++◌, Option, none, some, Bool, ltb, ◌==◌, if◌then◌else◌,
  ◌>>=◌, Text, codes, length, drop,
}
use ec_server.Content.Room.{CCourse, CRoom, get_room_by_fd}
use ec_server.Content.Room.Courses.{add_course, clear_all_course}
use ec_server.Server.{Server, head_len, with_buf, reset, memcpy, malloc_buf, free_buf}
use ec_server.Socket.{word}
use ec_server.Messages.{post_message, post_teacher_to_all_student, post_teacher_to_white}
use ec_server.Departure.{le_word}
use ec_server.PuzzleGame.{zeros}
use ec_server.ClassRoom.{with_room, send_sized, st_confirm_into_class_room}
use ec_server.Records.{
  used_course, item_keys, student_detailinfo, teacher_detailinfo, by_number, by_name, by_text, Row,
  Database, strcpy, column, int_column, post_db_record, post_db_record_count,
}

abbrev after : Option (Bool × Server) → Option Server
after r = r >>= λ done. some done.1

-- A text of a message up to its NUL.
unfoldable pub c_string : List ℕ → Option Text
c_string [] = none
c_string (zero ∷ bytes) = some []
c_string (suc c ∷ bytes) = c_string bytes >>= λ rest. some (suc c ∷ rest)

-- A message of one int for the room of p's client, in a buffer of its own.
unfoldable pub int_message : ℕ → ℕ → ℕ → Server → Option Server
unfolding memcpy with_buf
int_message q fd n s = memcpy 4 (le_word n) (s.bufs q).c_data >>= λ bytes. some (
    with_buf q
      (λ b. record b { c_len = head_len + 4; c_data = bytes; used = head_len + 4; fd = fd }) s)

-- The names of the courses, with a comma after each.
unfoldable pub course_text : (ℕ → Text) → List CCourse → Text
course_text text_of [] = []
course_text text_of (course ∷ courses) =
    text_of course.m_name ++ (codes "," ++ course_text text_of courses)

-- A text of 128 bytes or more does not fit the structure, and what is printed of it has no end.
unfoldable pub handle_get_course_group : (ℕ → Text) → Option ℕ → Server → Option Server
unfolding course_text get_room_by_fd memcpy with_buf send_sized zeros
handle_get_course_group text_of none s = none
handle_get_course_group text_of (some p) s =
    let names : Text = elim (get_room_by_fd (s.bufs p).fd s.rooms) [
      | none ↦ []
      | some room ↦ course_text text_of room.m_course_list
    ] in
    if ltb (length names) 128
    then (memcpy 128 (names ++ zeros (128 - length names)) (s.bufs p).c_data >>= λ bytes. some (
        send_sized p (head_len + 128)
          (with_buf p (λ b. record b { c_len = head_len + 128; c_type = 156; c_data = bytes }) s)))
    else none

unfoldable pub add_courses : (Text → ℕ) → List Row → CRoom → CRoom
unfolding add_course
add_courses name_of [] room = room
add_courses name_of (row ∷ rows) room = add_courses name_of rows (
    add_course
      (some (record {
        m_name = name_of (row.get_string (codes "course_name"));
        m_course_id = row.get_int (codes "course_id");
        m_items = [];
      }))
      room)

-- The courses of the room that the client is in, if there was no exception.
unfoldable pub set_courses : (Text → ℕ) → ℕ → Option (List Row) → Server → Server
unfolding add_courses clear_all_course get_room_by_fd with_room
set_courses name_of fd none s = s
set_courses name_of fd (some rows) s = elim (get_room_by_fd fd s.rooms) [
  | none ↦ s
  | some room ↦ with_room room (λ r. add_courses name_of rows (clear_all_course r)) s
]

-- The whiteboard is told, in a buffer that the pool gives or does not give.
unfoldable pub tell_white : ℕ → Option ℕ × Server → Option Server
unfolding int_message with_buf post_teacher_to_white
tell_white fd (none, s) = some s
tell_white fd (some q, s) = int_message q fd 2 s >>= λ written.
    let typed = with_buf q (λ b. record b { c_type = st_confirm_into_class_room }) written in
    some (post_teacher_to_white (some q) st_confirm_into_class_room typed).1

-- The end of handleSetCourseGroup: first the students are told.
unfoldable pub tell_class : ℕ → Option ℕ × Server → Option Server
unfolding malloc_buf int_message post_teacher_to_all_student tell_white
tell_class fd (none, s) = some s
tell_class fd (some q, s) = do
  written ← int_message q fd 1 s
  told ← post_teacher_to_all_student (some q) st_confirm_into_class_room written
  tell_white fd (malloc_buf told.1)

module _ (db : Database) where
  unfoldable pub handle_get_course_db_count : Option ℕ → Server → Option Server
  handle_get_course_db_count p s = after (post_db_record_count db p 1 s)

  unfoldable pub handle_get_course_db : Option ℕ → Server → Option Server
  handle_get_course_db p s = after (post_db_record db p 1 s)

  unfoldable pub handle_get_course_item_count : Option ℕ → Server → Option Server
  handle_get_course_item_count p s = after (post_db_record_count db p 6 s)

  unfoldable pub handle_get_course_item : Option ℕ → Server → Option Server
  handle_get_course_item p s = after (post_db_record db p 6 s)

  unfoldable pub handle_get_class_room_db_count : Option ℕ → Server → Option Server
  handle_get_class_room_db_count p s = after (post_db_record_count db p 4 s)

  unfoldable pub handle_get_class_room_db : Option ℕ → Server → Option Server
  handle_get_class_room_db p s = after (post_db_record db p 4 s)

  unfoldable pub handle_get_grade_db_count : Option ℕ → Server → Option Server
  handle_get_grade_db_count p s = after (post_db_record_count db p 2 s)

  unfoldable pub handle_get_grade_db : Option ℕ → Server → Option Server
  handle_get_grade_db p s = after (post_db_record db p 2 s)

  unfoldable pub handle_get_class_db_count : Option ℕ → Server → Option Server
  handle_get_class_db_count p s = after (post_db_record_count db p 3 s)

  unfoldable pub handle_get_class_db : Option ℕ → Server → Option Server
  handle_get_class_db p s = after (post_db_record db p 3 s)

  unfoldable pub handle_get_all_student_info_count : Option ℕ → Server → Option Server
  handle_get_all_student_info_count p s = after (post_db_record_count db p 5 s)

  unfoldable pub handle_get_all_student_info : Option ℕ → Server → Option Server
  handle_get_all_student_info p s = after (post_db_record db p 5 s)

  -- The message's own buffer is neither sent nor given back.
  unfoldable pub handle_set_course_group : (Text → ℕ) → Option ℕ → Server → Option Server
  unfolding c_string set_courses malloc_buf tell_class
  handle_set_course_group name_of none s = none
  handle_set_course_group name_of (some p) s = do
    grade ← c_string (s.bufs p).c_data
    group ← c_string (drop 20 (s.bufs p).c_data)
    let fd = (s.bufs p).fd
    let rows = db used_course (by_text grade ∷ (by_text group ∷ []))
    tell_class fd (malloc_buf (set_courses name_of fd rows s))

  -- The last row counts; without one the structure is 0.
  unfoldable pub detail_info : Text → List Row → Option Text
  unfolding column zeros
  detail_info info [] = some info
  detail_info info (row ∷ rows) = do
    number ← column 20 "number" row
    last ← column 20 "last_name" row
    first ← column 20 "first_name" row
    sex ← column 10 "sex" row
    school ← column 20 "school_name" row
    grade ← column 20 "grade_name" row
    class ← column 20 "class_name" row
    account ← column 20 "account" row
    teacher_first ← column 20 "tf_name" row
    teacher_last ← column 20 "tl_name" row
    detail_info
        (number
          ++ (first
              ++ (last
                  ++ (sex
                      ++ (school
                          ++ (grade
                              ++ (class
                                  ++ (account
                                      ++ (zeros 20
                                          ++ (teacher_first
                                              ++ (teacher_last
                                                  ++ int_column "picture_id" row)))))))))))
        rows

  unfoldable pub handle_get_student_detail_info : Option ℕ → Server → Option Server
  unfolding c_string detail_info post_message zeros
  handle_get_student_detail_info none s = none
  handle_get_student_detail_info (some p) s =
      if (s.bufs p).c_type == 169
      then (c_string (drop 4 (s.bufs p).c_data) >>= λ student.
          elim (db student_detailinfo
            (by_number (word (s.bufs p).c_data) ∷ (by_text student ∷ []))) [
              | none ↦ some s
              | some rows ↦ detail_info (zeros 214) rows >>= λ info.
                  after (post_message (some p) 170 (some info) 214 s)
            ])
      else some s

  -- Each row is copied over the one before.
  unfoldable pub teacher_info : Text → Text → List Row → Option Text
  unfolding strcpy
  teacher_info teacher picture [] = some (teacher ++ picture)
  teacher_info teacher picture (row ∷ rows) = do
    teacher' ← strcpy (row.get_string (codes "account")) teacher
    picture' ← strcpy (row.get_string (codes "pic_name")) picture
    teacher_info teacher' picture' rows

  unfoldable pub handle_get_teacher_info : Option ℕ → Server → Option Server
  unfolding get_room_by_fd teacher_info post_message zeros
  handle_get_teacher_info none s = some s
  handle_get_teacher_info (some p) s =
      if (s.bufs p).c_type == 176
      then (elim (get_room_by_fd (s.bufs p).fd s.rooms) [
        | none ↦ some s
        | some room ↦ elim (db teacher_detailinfo (by_name room.m_teacher_name ∷ [])) [
          | none ↦ some s
          | some rows ↦ teacher_info (zeros 20) (zeros 128) rows >>= λ info.
              after (post_message (some p) 177 (some info) 148 s)
        ]
      ])
      else some s

  unfoldable pub item_keys_of : Text → List Row → Option Text
  unfolding strcpy
  item_keys_of keys [] = some keys
  item_keys_of keys (row ∷ rows) =
      strcpy (row.get_string (codes "keys_info")) keys >>= λ keys'. item_keys_of keys' rows

  unfoldable pub handle_get_course_item_key_info_req : Option ℕ → Server → Option Server
  unfolding c_string item_keys_of memcpy with_buf free_buf send_sized zeros
  handle_get_course_item_key_info_req none s = none
  handle_get_course_item_key_info_req (some p) s = do
    item ← c_string (s.bufs p).c_data
    elim (db item_keys (by_text item ∷ [])) [
      | none ↦ some (free_buf p s)
      | some rows ↦ item_keys_of (zeros 512) rows >>= λ keys.
          memcpy 512 keys (s.bufs p).c_data >>= λ bytes. some (
            send_sized p (head_len + 512) (
              with_buf p (λ b. record b { c_len = head_len + 512; c_type = 186; c_data = bytes })
                s))
    ]

unfoldable pub handle_db_record_finished : Option ℕ → Server → Server
unfolding with_buf reset free_buf
handle_db_record_finished none s = s
handle_db_record_finished (some p) s = free_buf p (with_buf p reset s)
