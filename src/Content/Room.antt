-- ===== src/Content/Room.antt =====
-- content/room.cpp and content/roommanager.cpp: a room's clients, and how a client's room is found.
-- A descriptor is the pattern of an int, a pointer to a student a number, which is 0 if it is null, and
-- a name a number, which is 0 if it is empty. A pointer to a puzzle is the puzzle, or `none`.
pub mod Lookup
pub mod Courses
use ec_server.Base.{
  ℕ, List, [], ◌∷◌, Option, none, some, Bool, true, false, ◌==◌, if◌then◌else◌, Map, find, insert,
  erase,
}
use ec_server.Content.Puzzle.{CPuzzle}

-- The fields of CCourseItem, in content/courseitem.h, and of CCourse, in content/course.h.
pub record CCourseItem : Type 0 where
  pub m_item_id : ℕ
  pub m_item_name : ℕ

pub record CCourse : Type 0 where
  pub m_name : ℕ
  pub m_course_id : ℕ
  pub m_items : List CCourseItem

-- The fields of CStudent that the server's messages are about.
pub record CStudent : Type 0 where
  pub m_id : ℕ
  pub m_socket : ℕ
  pub m_current_status : ℕ
  pub m_on_line : Bool

pub record CRoom : Type 0 where
  pub m_room_id : ℕ
  pub m_room_name : ℕ
  pub m_is_used : ℕ
  pub m_teacher_fd : ℕ
  pub m_white_fd : ℕ
  pub m_class_name : ℕ
  pub m_teacher_name : ℕ
  pub m_student_map : Map ℕ
  pub m_course_list : List CCourse
  pub m_game_list : List ℕ
  pub m_is_show : ℕ
  pub m_current_scene : ℕ
  pub m_puzzle_map : Map (Option CPuzzle)

-- The constructor: no teacher and no whiteboard, which is -1.
unfoldable pub new_room : ℕ → ℕ → CRoom
new_room id name = record {
  m_room_id = id;
  m_room_name = name;
  m_is_used = 0;
  m_teacher_fd = 0xffffffff;
  m_white_fd = 0xffffffff;
  m_class_name = 0;
  m_teacher_name = 0;
  m_student_map = [];
  m_course_list = [];
  m_game_list = [];
  m_is_show = 0;
  m_current_scene = 100;
  m_puzzle_map = [];
}

-- A student who is there under the descriptor is deleted; `delete` of one who is no more has no
-- defined result.
unfoldable pub add_student :
    ℕ → ℕ → (ℕ → Option CStudent) → CRoom → Option ((ℕ → Option CStudent) × CRoom)
unfolding find erase insert
add_student fd student students room = elim (find fd room.m_student_map) [
  | none ↦ some (students, record room { m_student_map = insert fd student room.m_student_map })
  | some old ↦ elim (students old) [
    | none ↦ none
    | some _ ↦ some (
      λ q. if old == q then none else students q,
      record room { m_student_map = insert fd student (erase fd room.m_student_map) },
    )
  ]
]

-- Whether CRoom::get_room_by_fd returns the room and not a null pointer.
unfoldable pub has_client : ℕ → CRoom → Bool
unfolding find
has_client fd room = elim (find fd room.m_student_map) [
  | some student ↦ true
  | none ↦ if fd == room.m_teacher_fd then true else if fd == room.m_white_fd then true else false
]

-- CRoomManager::get_room_by_fd: the first room, by its id, that has the client.
unfoldable pub get_room_by_fd : ℕ → Map CRoom → Option CRoom
unfolding has_client
get_room_by_fd fd [] = none
get_room_by_fd fd ((id, room) ∷ rooms) =
    if has_client fd room then some room else get_room_by_fd fd rooms

unfoldable pub get_room : ℕ → Map CRoom → Option CRoom
unfolding find
get_room id rooms = find id rooms

unfoldable pub get_room_by_name : ℕ → Map CRoom → Option CRoom
get_room_by_name name [] = none
get_room_by_name name ((id, room) ∷ rooms) =
    if name == room.m_room_name then some room else get_room_by_name name rooms
