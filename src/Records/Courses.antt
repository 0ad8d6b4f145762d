-- ===== src/Records/Courses.antt =====
-- The courses that handleSetCourseGroup of handler/HandleClassRoom.cpp gives to a room, and what
-- handleGetCourseGroup tells of them.
use ec_server.Base.{
  ℕ, zero, suc, ◌-◌, ◌≤◌, ◌<◌, ◌≡◌, refl, sym, ap, ◌∙◌, List, [], ◌∷◌, ◌++◌, some, Bool-cases, inl,
  inr, Text, codes, length, drop, arith, append-nil, append_assoc, eq→==, ne→==, lt→ltb, Map,
  update, Above, IsSorted, length-append,
}
use ec_server.Content.Room.{CCourse, CRoom, has_client, get_room_by_fd}
use ec_server.Content.Room.Courses.{add_course, clear_all_course}
use ec_server.Server.{Server, with_buf, enqueue_buf}
use ec_server.Messages.Copies.{data_len, Message}
use ec_server.Departure.Sending.{memcpy-exact, take-exact}
use ec_server.PuzzleGame.{zeros}
use ec_server.ClassRoom.{with_room, send_sized}
use ec_server.Records.{Row}
use ec_server.Records.Questions.{course_text, handle_get_course_group, add_courses, set_courses}

-- Every room is stored under its id.
abbrev pub Keyed : Map CRoom → Type 0
Keyed [] = Unit {0}
Keyed ((id, room) ∷ rooms) = (room.m_room_id ≡ id) × Keyed rooms

found-Above :
    (b fd : ℕ) (rooms : Map CRoom) (room : CRoom)
    → Above b rooms
    → Keyed rooms
    → get_room_by_fd fd rooms ≡ some room
    → b ≤ room.m_room_id
unfolding get_room_by_fd
found-Above b fd [] room above keyed found = absurd (ground arith)
found-Above b fd ((id, r) ∷ rooms) room above keyed found =
    ground (arith, found-Above (suc id) fd rooms room above.1 keyed.1)

get_room_by_fd-update :
    (b fd : ℕ) (f : CRoom → CRoom) (rooms : Map CRoom) (room : CRoom)
    → Above b rooms
    → Keyed rooms
    → ((r : CRoom) → has_client fd (f r) ≡ has_client fd r)
    → get_room_by_fd fd rooms ≡ some room
    → get_room_by_fd fd (update room.m_room_id f rooms) ≡ some (f room)
unfolding get_room_by_fd update
get_room_by_fd-update b fd f [] room above keyed same found = absurd (ground arith)
get_room_by_fd-update b fd f ((id, r) ∷ rooms) room above keyed same found =
    elim (Bool-cases (has_client fd r)) [
      | inl here ↦
          let it : r ≡ room = ground arith in
          let at : id ≡ room.m_room_id = sym keyed.0 ∙ ap (λ (x : CRoom). x.m_room_id) it in
          rw (eq→== id room.m_room_id at, get_room_by_fd)
            (rw (same r, here) (ap (λ x. some (f x)) it))
      | inr other ↦
          let later : get_room_by_fd fd rooms ≡ some room = ground arith in
          let above_id = found-Above (suc id) fd rooms room above.1 keyed.1 later in
          rw (ne→== id room.m_room_id (λ e. omega (arith, e, above_id)), get_room_by_fd)
            (rw other (get_room_by_fd-update (suc id) fd f rooms room above.1 keyed.1 same later))
    ]

-- What is told of the rows: the names of the courses, each with a comma.
abbrev pub names : List Row → Text
names [] = []
names (row ∷ rows) = row.get_string (codes "course_name") ++ (codes "," ++ names rows)

-- The rows' courses have their names back.
abbrev pub Named : (ℕ → Text) → (Text → ℕ) → List Row → Type 0
Named text_of name_of [] = Unit {0}
Named text_of name_of (row ∷ rows) =
    (text_of (name_of (row.get_string (codes "course_name")))
      ≡ row.get_string (codes "course_name"))
    × Named text_of name_of rows

module _ (text_of : ℕ → Text) (name_of : Text → ℕ) where
  course_text-append :
      (xs ys : List CCourse)
      → course_text text_of (xs ++ ys) ≡ course_text text_of xs ++ course_text text_of ys
  unfolding course_text
  course_text-append [] ys = refl
  course_text-append (x ∷ xs) ys = rw (course_text-append xs ys) (
      sym (
        append_assoc (text_of x.m_name) (codes "," ++ course_text text_of xs)
          (course_text text_of ys)))

  course_text-add_courses :
      (rows : List Row) (room : CRoom)
      → Named text_of name_of rows
      → course_text text_of (add_courses name_of rows room).m_course_list
        ≡ course_text text_of room.m_course_list ++ names rows
  unfolding add_courses add_course
  course_text-add_courses [] room named = sym (append-nil (course_text text_of room.m_course_list))
  course_text-add_courses (row ∷ rows) room named =
      let course : CCourse = record {
        m_name = name_of (row.get_string (codes "course_name"));
        m_course_id = row.get_int (codes "course_id");
        m_items = [];
      } in
      course_text-add_courses rows (add_course (some course) room) named.1
      ∙ rw (course_text-append room.m_course_list (course ∷ [])) (
          unfold course_text in
          rw named.0 (
            append_assoc (course_text text_of room.m_course_list)
              (row.get_string (codes "course_name") ++ codes ",") (names rows)
            ∙ ap (λ xs. course_text text_of room.m_course_list ++ xs)
                (append_assoc (row.get_string (codes "course_name")) (codes ",") (names rows))))

  add_courses-kept :
      (rows : List Row) (room : CRoom)
      → add_courses name_of rows room
        ≡ record room { m_course_list = (add_courses name_of rows room).m_course_list }
  unfolding add_courses add_course
  add_courses-kept [] room = refl
  add_courses-kept (row ∷ rows) room = add_courses-kept rows (
      add_course
        (some (record {
          m_name = name_of (row.get_string (codes "course_name"));
          m_course_id = row.get_int (codes "course_id");
          m_items = [];
        }))
        room)

  -- The room with the courses of the rows.
  abbrev pub renewed : List Row → CRoom → CRoom
  renewed rows room = add_courses name_of rows (clear_all_course room)

  has_client-renewed :
      (fd : ℕ) (rows : List Row) (room : CRoom)
      → has_client fd (renewed rows room) ≡ has_client fd room
  unfolding has_client clear_all_course
  has_client-renewed fd rows room = rw (add_courses-kept rows (clear_all_course room)) refl

  pub students-renewed :
      (rows : List Row) (room : CRoom) → (renewed rows room).m_student_map ≡ room.m_student_map
  unfolding clear_all_course
  students-renewed rows room =
      ap (λ (r : CRoom). r.m_student_map) (add_courses-kept rows (clear_all_course room))

  pub teacher-renewed :
      (rows : List Row) (room : CRoom) → (renewed rows room).m_teacher_fd ≡ room.m_teacher_fd
  unfolding clear_all_course
  teacher-renewed rows room =
      ap (λ (r : CRoom). r.m_teacher_fd) (add_courses-kept rows (clear_all_course room))

  -- The room that the client is in once its courses are set.
  pub set_courses-found :
      (fd : ℕ) (rows : List Row) (room : CRoom) (s : Server)
      → IsSorted s.rooms
      → Keyed s.rooms
      → get_room_by_fd fd s.rooms ≡ some room
      → (rooms : Map CRoom) × (set_courses name_of fd (some rows) s ≡ record s { rooms = rooms })
        × (get_room_by_fd fd rooms ≡ some (renewed rows room))
  unfolding set_courses with_room
  set_courses-found fd rows room s sorted keyed found = (
    update room.m_room_id (renewed rows) s.rooms,
    rw (found, set_courses) refl,
    get_room_by_fd-update 0 fd (renewed rows) s.rooms room sorted keyed
        (λ r. has_client-renewed fd rows r) found,
  )

  names-text :
      (rows : List Row) (room : CRoom)
      → Named text_of name_of rows
      → course_text text_of (renewed rows room).m_course_list ≡ names rows
  unfolding clear_all_course course_text
  names-text rows room named = course_text-add_courses rows (clear_all_course room) named

  length-zeros : (n : ℕ) → length (zeros n) ≡ n
  unfolding zeros
  length-zeros zero = refl
  length-zeros (suc n) = ap suc (length-zeros n)

  padded : (xs : Text) → length xs < 128 → length (xs ++ zeros (128 - length xs)) ≡ 128
  padded xs small =
      length-append xs (zeros (128 - length xs)) ∙ rw (length-zeros (128 - length xs)) (omega arith)

  -- What the client is told who asks for the courses.
  pub handle_get_course_group-names :
      (a : ℕ) (rows : List Row) (room : CRoom) (s : Server)
      → get_room_by_fd (s.bufs a).fd s.rooms ≡ some (renewed rows room)
      → Named text_of name_of rows
      → length (names rows) < 128
      → length (s.bufs a).c_data ≡ data_len
      → (t : Server) × (handle_get_course_group text_of (some a) s ≡ some t)
        × (t.sendqueue ≡ s.sendqueue ++ a ∷ [])
        × Message (t.bufs a) (s.bufs a).fd 136 156 (names rows ++ zeros (128 - length (names rows)))
  unfolding handle_get_course_group clear_all_course send_sized with_buf enqueue_buf
  handle_get_course_group-names a rows room s found named small size =
      let body = names rows ++ zeros (128 - length (names rows)) in
      let bytes = (s.bufs a).c_data in
      let full = padded (names rows) small in
      (
        send_sized a 136 (
            with_buf a
              (λ b. record b { c_len = 136; c_type = 156; c_data = body ++ drop 128 bytes }) s),
        rw (found, handle_get_course_group)
            (rw (names-text rows room named) (
              rw (lt→ltb (length (names rows)) 128 small)
                (rw (memcpy-exact 128 body bytes full (omega arith)) refl))),
        refl,
        rw (eq→== a a refl) (record {
          for_fd = refl;
          of_type = refl;
          of_len = refl;
          sends_all = refl;
          same_data = take-exact 128 body (drop 128 bytes) full;
        }),
      )
