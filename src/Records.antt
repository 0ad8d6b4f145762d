-- ===== src/Records.antt =====
-- The answers from the database: postDBRecord and postDBRecordCount of handler/HandleMessage.cpp, and the
-- handlers of handler/HandleClassRoom.cpp that ask for them. The database is a parameter: what a query
-- gives for its parameters is a list of rows, or `none` for an SQLException; a row has the columns that
-- its query names. A result is `none` where the code follows a null pointer or writes past an array.
pub mod Answers
pub mod Questions
pub mod Courses
pub mod Setting
use Prim.Native.String.{String}
use ec_server.Base.{
  ℕ, zero, suc, ◌+◌, ◌%◌, ◌^◌, List, [], ◌∷◌, ◌++◌, Option, none, some, Bool, true, false, ltb,
  ◌==◌, if◌then◌else◌, ◌>>=◌, Text, codes, length, take, drop, Map,
}
use ec_server.Content.Room.{CCourse, CRoom, get_room_by_fd}
use ec_server.Server.{
  Buf, Server, head_len, with_buf, reset, memcpy, malloc_buf, free_buf, enqueue_buf,
}
use ec_server.Departure.{le_word, send_new}
use ec_server.PuzzleGame.{zeros}

-- The statements of SQL.h that these functions prepare, and the ones that count, by their number.
pub data Query : Type 0 where
  course_db grade_db class_db classroom_db student_db courseitem_db : Query
  used_course item_keys student_detailinfo teacher_detailinfo : Query
  student_login teacher_login white_board : Query
  count : ℕ → Query

-- A parameter of a statement: a number, a name, or a text of a message.
pub data Param : Type 0 where
  by_number by_name : ℕ → Param
  by_text : Text → Param

pub record Row : Type 0 where
  pub get_int : Text → ℕ
  pub get_string : Text → Text

abbrev pub Database : Type 0
Database = Query → List Param → Option (List Row)

abbrev pub st_get_db_record_finished : ℕ
st_get_db_record_finished = 184

-- `strcpy` into an array.
unfoldable pub strcpy : Text → Text → Option Text
strcpy from to =
    if ltb (length from) (length to) then some (from ++ (0 ∷ drop (length from + 1) to)) else none

-- A column of text in an array of n bytes that are 0.
unfoldable pub column : ℕ → String → Row → Option Text
unfolding strcpy zeros
column n label row = strcpy (row.get_string (codes label)) (zeros n)

abbrev pub int_column : String → Row → Text
int_column label row = le_word (row.get_int (codes label))

-- The statement for a case.
unfoldable pub query_of : ℕ → Option Query
query_of icase =
    if icase == 1
    then some course_db
    else if icase == 2
    then some grade_db
    else if icase == 3
    then some class_db
    else if icase == 4
    then some classroom_db
    else if icase == 5
    then some student_db
    else if icase == 6
    then some courseitem_db
    else none

-- The names of the courses of the client's room are the parameters, if it has one.
unfoldable pub course_names : List CCourse → List Param
course_names [] = []
course_names (course ∷ courses) = by_name course.m_name ∷ course_names courses

unfoldable pub params_of : ℕ → ℕ → Map CRoom → List Param
unfolding course_names get_room_by_fd
params_of icase fd rooms =
    if icase == 6
    then (elim (get_room_by_fd fd rooms) [
      | none ↦ []
      | some room ↦ course_names room.m_course_list
    ])
    else []

-- The type of the first row's message; each row after it has the next.
unfoldable pub row_base : Query → ℕ
row_base course_db = 5000
row_base grade_db = 3000
row_base class_db = 4000
row_base classroom_db = 6000
row_base student_db = 10000
row_base courseitem_db = 7000
row_base q = 0

-- The structure that is sent for a row.
unfoldable pub row_body : Query → Row → Option Text
unfolding column
row_body course_db row = do
  grade ← column 20 "grade_name" row
  group ← column 20 "group_name" row
  course ← column 20 "course_name" row
  some (
      grade
      ++ (group
          ++ (course
              ++ (int_column "language" row
                  ++ (int_column "art" row
                      ++ (int_column "community" row
                          ++ (int_column "health" row ++ int_column "science" row)))))))
row_body grade_db row = column 20 "grade_name" row
row_body class_db row = column 20 "class_name" row
row_body classroom_db row = column 20 "classroom_name" row
row_body student_db row = do
  picture ← column 128 "picture_name" row
  student ← column 20 "student_name" row
  some (int_column "student_id" row ++ (picture ++ student))
row_body courseitem_db row = do
  course ← column 20 "course_name" row
  item ← column 20 "item_name" row
  desc ← column 512 "fck_desc" row
  some (course ++ (item ++ (desc ++ le_word 0)))
row_body q row = none

-- A message for each row; the pointer that `malloc` gives is not tested.
unfoldable pub send_rows : ℕ → Query → ℕ → List Row → Server → Option Server
unfolding row_body row_base send_new
send_rows fd q index [] s = some s
send_rows fd q index (row ∷ rows) s =
    elim (row_body q row >>= λ body. send_new fd ((row_base q + index) % 2 ^ 32) body s) [
      | none ↦ none
      | some s' ↦ send_rows fd q (index + 1) rows s'
    ]

unfoldable pub finish_flag : Query → ℕ
finish_flag student_db = 10000
finish_flag q = 1

unfoldable pub post_db_record : Database → Option ℕ → ℕ → Server → Option (Bool × Server)
unfolding query_of params_of send_rows send_new finish_flag with_buf reset free_buf
post_db_record db none icase s = some (false, s)
post_db_record db (some p) icase s = elim (query_of icase) [
  | none ↦ some (false, s)
  | some q ↦ elim (db q (params_of icase (s.bufs p).fd s.rooms)) [
    | none ↦ some (true, free_buf p (with_buf p reset s))
    | some rows ↦ do
      sent ← send_rows (s.bufs p).fd q 0 rows s
      done ← send_new (s.bufs p).fd st_get_db_record_finished (le_word (finish_flag q)) sent
      some (true, free_buf p (with_buf p reset done))
  ]
]

-- The type of the answer; another number leaves that of the question.
unfoldable pub count_type : ℕ → ℕ → ℕ
count_type icase old =
    if icase == 1
    then 152
    else if icase == 2
    then 163
    else if icase == 3
    then 165
    else if icase == 4
    then 161
    else if icase == 5
    then 171
    else if icase == 6
    then 157
    else old

-- The question's own buffer is written and queued once for each row.
unfoldable pub count_rows : ℕ → ℕ → List Row → Server → Option Server
unfolding count_type memcpy with_buf enqueue_buf
count_rows p icase [] s = some s
count_rows p icase (row ∷ rows) s =
    elim (memcpy 4 (le_word (row.get_int (codes "ccount"))) (s.bufs p).c_data) [
      | none ↦ none
      | some bytes ↦ count_rows p icase rows (
          enqueue_buf p (
            with_buf p
              (λ b. record b {
                c_len = head_len + 4;
                c_type = count_type icase b.c_type;
                c_data = bytes;
                used = head_len + 4;
              })
              s))
    ]

unfoldable pub post_db_record_count : Database → Option ℕ → ℕ → Server → Option (Bool × Server)
unfolding params_of count_rows
post_db_record_count db none icase s = some (false, s)
post_db_record_count db (some p) icase s =
    elim (db (count icase) (params_of icase (s.bufs p).fd s.rooms)) [
      | none ↦ some (true, s)
      | some rows ↦ count_rows p icase rows s >>= λ s'. some (true, s')
    ]
