-- ===== src/Tests/Records.antt =====
-- Two grades, and their number, from a database, and two courses that are set.
use ec_server.Base.{
  ℕ, ◌-◌, ◌<◌, ◌≡◌, refl, List, [], ◌∷◌, ◌++◌, some, true, codes, length, drop, arith,
}
use ec_server.Server.{Server}
use ec_server.Departure.{le_word}
use ec_server.Departure.Letters.{Kept}
use ec_server.PuzzleGame.{zeros}
use ec_server.Records.{Row, Database, post_db_record_count, count_type}
use ec_server.Records.Answers.{last_count, post_db_record_count-times}
use ec_server.Messages.Copies.{Message, Delivered}
use ec_server.Content.Room.{get_room_by_fd}
use ec_server.ClassRoom.{st_confirm_into_class_room}
use ec_server.Records.Questions.{c_string, handle_get_course_group, handle_set_course_group}
use ec_server.Records.Courses.{Named, names}
use ec_server.Records.Setting.{handle_get_course_group-set}
use ec_server.Tests.Room.{room}
use ec_server.Tests.Messages.{server}

row : Row
row = record { get_int = λ name. 2; get_string = λ name. codes "ab" }

abbrev db : Database
db q params = some (row ∷ [])

post_db_record_count-times_example :
    (r : Server) × (post_db_record_count db (some 50) 2 (server []) ≡ some (true, r))
    × (r.sendqueue ≡ 50 ∷ [])
    × (r.bufpool ≡ (server []).bufpool)
    × Message (r.bufs 50) 3 12 (count_type 2 20) (le_word (last_count row []))
    × Kept (server []) r
post_db_record_count-times_example =
    post_db_record_count-times db 50 2 row [] (server []) refl (omega arith)

-- Every buffer holds the grade "G" and the group "A", from the teacher.
abbrev asking : List ℕ
asking = 71 ∷ (zeros 19 ++ (65 ∷ zeros 5091))

abbrev class_server : Server
class_server = record (server (51 ∷ 52 ∷ 53 ∷ 54 ∷ [])) {
  bufs = λ p. record { c_len = 48; c_type = 153; c_data = asking; used = 48; fd = 3 };
}

abbrev courses : Database
courses q params = some (row ∷ row ∷ [])

grade : c_string asking ≡ some (codes "G")
unfolding c_string zeros
grade = refl

group : c_string (drop 20 asking) ≡ some (codes "A")
unfolding c_string zeros
group = refl

in_room : get_room_by_fd 3 class_server.rooms ≡ some room
unfolding get_room_by_fd
in_room = refl

full : length asking ≡ 5112
unfolding zeros
full = refl

row-Named : Named (λ n. codes "ab") (λ t. 7) (row ∷ row ∷ [])
unfolding row
row-Named = (refl, (refl, tt))

short_names : length (names (row ∷ row ∷ [])) < 128
unfolding row
short_names = omega arith

handle_get_course_group-set_example :
    (r t : Server) × (handle_set_course_group courses (λ t. 7) (some 50) class_server ≡ some r)
    × (r.sendqueue ≡ 52 ∷ 53 ∷ 54 ∷ [])
    × Delivered r.bufs 12 st_confirm_into_class_room
        (le_word 1 ++ drop 4 asking)
        (52 ∷ 53 ∷ [])
        room.m_student_map
    × (handle_get_course_group (λ n. codes "ab") (some 55) r ≡ some t)
    × (t.sendqueue ≡ r.sendqueue ++ 55 ∷ [])
    × Message
        (t.bufs 55)
        3
        136
        156
        (names (row ∷ row ∷ []) ++ zeros (128 - length (names (row ∷ row ∷ []))))
handle_get_course_group-set_example =
    handle_get_course_group-set courses (λ n. codes "ab") (λ t. 7) 50 51 54 55 (52 ∷ 53 ∷ []) []
      (codes "G") (codes "A") room (row ∷ row ∷ []) class_server grade group refl (omega arith, tt)
      (refl, tt) in_room refl refl
      (omega arith, full, (omega arith, tt), (omega arith, full, tt, tt)) full
      (omega arith, (omega arith, (omega arith, tt))) full
      (omega arith, (omega arith, (omega arith, (omega arith, tt)))) refl full row-Named short_names
