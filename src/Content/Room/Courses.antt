-- ===== src/Content/Room/Courses.antt =====
-- The courses of a room, content/room.cpp, and the items of a course, content/course.cpp. A pointer is
-- the object behind it, and `none` if it is null.
use ec_server.Base.{
  ℕ, ◌≡◌, refl, List, [], ◌∷◌, ◌++◌, Option, none, some, ◌==◌, if◌then◌else◌, arith,
}
use ec_server.Content.Room.{CCourseItem, CCourse, CRoom}

unfoldable pub get_item_by_id : ℕ → List CCourseItem → Option CCourseItem
get_item_by_id id [] = none
get_item_by_id id (item ∷ items) =
    if item.m_item_id == id then some item else get_item_by_id id items

unfoldable pub get_item_by_name : ℕ → List CCourseItem → Option CCourseItem
get_item_by_name name [] = none
get_item_by_name name (item ∷ items) =
    if item.m_item_name == name then some item else get_item_by_name name items

unfoldable pub add_item : Option CCourseItem → CCourse → CCourse
add_item none course = course
add_item (some item) course = record course { m_items = course.m_items ++ item ∷ [] }

unfoldable pub get_course_by_name : ℕ → List CCourse → Option CCourse
get_course_by_name name [] = none
get_course_by_name name (course ∷ courses) =
    if course.m_name == name then some course else get_course_by_name name courses

unfoldable pub get_course_by_id : ℕ → List CCourse → Option CCourse
get_course_by_id id [] = none
get_course_by_id id (course ∷ courses) =
    if course.m_course_id == id then some course else get_course_by_id id courses

unfoldable pub add_course : Option CCourse → CRoom → CRoom
add_course none room = room
add_course (some course) room = record room { m_course_list = room.m_course_list ++ course ∷ [] }

unfoldable pub clear_all_course : CRoom → CRoom
clear_all_course room = record room { m_course_list = [] }

-- What a lookup gives that finds nothing in front of the last element.
abbrev pub or_last : Option CCourse → Option CCourse → Option CCourse
or_last none last = last
or_last (some course) last = some course

append_by_id :
    (id : ℕ) (course : CCourse) (courses : List CCourse)
    → get_course_by_id id (courses ++ course ∷ [])
      ≡ or_last
          (get_course_by_id id courses)
          (if course.m_course_id == id then some course else none)
unfolding get_course_by_id
append_by_id id course [] = refl
append_by_id id course (c ∷ courses) = ground (arith, append_by_id id course courses)

append_by_name :
    (name : ℕ) (course : CCourse) (courses : List CCourse)
    → get_course_by_name name (courses ++ course ∷ [])
      ≡ or_last
          (get_course_by_name name courses)
          (if course.m_name == name then some course else none)
unfolding get_course_by_name
append_by_name name course [] = refl
append_by_name name course (c ∷ courses) = ground (arith, append_by_name name course courses)

-- After `add_course` of a course that is there, a lookup by id or by name gives what it gave before
-- and, if it gave nothing, the new course if that has the id or the name; after `clear_all_course` both
-- lookups give a null pointer.
pub add_course-get_course :
    (key : ℕ) (course : CCourse) (room : CRoom)
    → (get_course_by_id key (add_course (some course) room).m_course_list
        ≡ or_last
            (get_course_by_id key room.m_course_list)
            (if course.m_course_id == key then some course else none))
      × (get_course_by_name key (add_course (some course) room).m_course_list
          ≡ or_last
              (get_course_by_name key room.m_course_list)
              (if course.m_name == key then some course else none))
      × (get_course_by_id key (clear_all_course room).m_course_list ≡ none)
      × (get_course_by_name key (clear_all_course room).m_course_list ≡ none)
unfolding add_course clear_all_course get_course_by_id get_course_by_name
add_course-get_course key course room = (
  append_by_id key course room.m_course_list,
  append_by_name key course room.m_course_list,
  refl,
  refl,
)
