-- ===== src/Tests/Room.antt =====
-- Two rooms of content/room.cpp.
use ec_server.Base.{true, ℕ, [], ◌∷◌, Option, some, Map}
use ec_server.Content.Room.{CStudent, CRoom}

-- Teacher 3, whiteboard 4 and the students 7 and 8.
abbrev pub room : CRoom
room = record {
  m_room_id = 1;
  m_room_name = 11;
  m_is_used = 1;
  m_teacher_fd = 3;
  m_white_fd = 4;
  m_class_name = 0;
  m_teacher_name = 0;
  m_student_map = (7, 107) ∷ (8, 108) ∷ [];
  m_course_list = [];
  m_game_list = [];
  m_is_show = 0;
  m_current_scene = 100;
  m_puzzle_map = [];
}

abbrev pub rooms : Map CRoom
rooms = (1, room) ∷ []

abbrev pub students : ℕ → Option CStudent
students p = some (record { m_id = p; m_socket = 0; m_current_status = 1; m_on_line = true })
