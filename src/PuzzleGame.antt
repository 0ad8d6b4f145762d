-- ===== src/PuzzleGame.antt =====
-- The puzzles of a room, content/room.cpp, and the handlers of handler/HandlePuzzle.cpp that start and end
-- them. A null pointer in the map of the puzzles is `none`; a result is `none` where the code follows a
-- null pointer or writes past the end of a buffer. `clock fd` is what `time (NULL)` gives for a client.
pub mod Games
use ec_server.Base.{
  ℕ, zero, suc, ◌+◌, ◌-◌, ◌%◌, ◌^◌, List, [], ◌∷◌, ◌++◌, Option, none, some, ltb, leb, ◌==◌,
  if◌then◌else◌, ◌>>=◌, Map, find, insert, update, length,
}
use ec_server.Content.Puzzle.{CPuzzle, new_puzzle, start, end, get_time}
use ec_server.Content.Room.{CStudent, CRoom, get_room_by_fd}
use ec_server.Server.{Buf, Server, with_buf, memcpy, free_buf, enqueue_buf}
use ec_server.Messages.{post_teacher_to_all_student}
use ec_server.Departure.{le_word, send_new}

abbrev pub st_puzzle_game_start : ℕ
st_puzzle_game_start = 701

abbrev pub st_puzzle_update_pic : ℕ
st_puzzle_update_pic = 705

abbrev pub st_puzzle_end_game : ℕ
st_puzzle_end_game = 720

abbrev pub Puzzles : Type 0
Puzzles = Map (Option CPuzzle)

-- The loop of `puzzle_start`: `insert` leaves a puzzle that is there alone.
unfoldable pub start_all : (ℕ → ℕ) → Map ℕ → Puzzles → Puzzles
unfolding insert start new_puzzle
start_all clock [] puzzles = puzzles
start_all clock ((fd, student) ∷ m) puzzles =
    start_all clock m (insert fd (some (start (clock fd) new_puzzle)) puzzles)

unfoldable pub puzzle_start : (ℕ → ℕ) → CRoom → CRoom
unfolding start_all
puzzle_start clock room = record room {
  m_puzzle_map = start_all clock room.m_student_map room.m_puzzle_map;
}

-- What the loop of `puzzle_end` leaves: the puzzles, the students, and the text.
pub record Ended : Type 0 where
  pub puzzles : Puzzles
  pub students : Map ℕ
  pub buf : List ℕ

-- `strcat` into 1024 bytes, of which the last is 0.
unfoldable pub strcat : List ℕ → List ℕ → Option (List ℕ)
strcat buf tmp = if ltb (length (buf ++ tmp)) 1024 then some (buf ++ tmp) else none

-- A student's line: `text` is what `snprintf` writes for a student and a time.
unfoldable pub add_line :
    (CStudent → ℕ → List ℕ) → (ℕ → Option CStudent) → Option ℕ → CPuzzle → List ℕ → Option (List ℕ)
unfolding strcat get_time
add_line text heap none puzzle buf = some buf
add_line text heap (some p) puzzle buf =
    if p == 0 then some buf else (heap p >>= λ student. strcat buf (text student (get_time puzzle)))

-- `m_student_map[fd]` enters a null pointer for a client who is no student.
unfoldable pub end_all :
    (ℕ → ℕ)
    → (CStudent → ℕ → List ℕ)
    → (ℕ → Option CStudent)
    → Puzzles
    → Map ℕ
    → List ℕ
    → Option Ended
unfolding insert find end add_line
end_all clock text heap [] m buf = some (record { puzzles = []; students = m; buf = buf })
end_all clock text heap ((fd, none) ∷ puzzles) m buf = none
end_all clock text heap ((fd, some puzzle) ∷ puzzles) m buf =
    let ended = end (clock fd) puzzle in
    let m' = insert fd 0 m in
    elim (add_line text heap (find fd m') ended buf) [
      | none ↦ none
      | some buf' ↦ elim (end_all clock text heap puzzles m' buf') [
        | none ↦ none
        | some rest ↦ some (record rest { puzzles = (fd, some ended) ∷ rest.puzzles })
      ]
    ]

unfoldable pub zeros : ℕ → List ℕ
zeros zero = []
zeros (suc n) = 0 ∷ zeros n

unfoldable pub puzzle_end : (ℕ → ℕ) → (CStudent → ℕ → List ℕ) → ℕ → Server → Option Server
unfolding find end_all update send_new zeros
puzzle_end clock text id s = do
  room ← find id s.rooms
  ended ← end_all clock text s.students room.m_puzzle_map room.m_student_map []
  let room' = record room { m_puzzle_map = ended.puzzles; m_student_map = ended.students }
  let s' = record s { rooms = update id (λ _. room') s.rooms }
  if room.m_white_fd == 0
      then some s'
      else send_new room.m_white_fd st_puzzle_end_game
          (ended.buf ++ zeros (1024 - length ended.buf)) s'

-- `m_puzzle_map[fd]` enters a null pointer for a client who has no puzzle.
unfoldable pub end_puzzle_by_fd : (ℕ → ℕ) → ℕ → CRoom → CRoom
unfolding insert update end
end_puzzle_by_fd clock fd room = record room {
  m_puzzle_map =
      update fd
        (λ pointer. elim pointer [ none ↦ none | some puzzle ↦ some (end (clock fd) puzzle) ])
        (insert fd none room.m_puzzle_map);
}

-- The message's buffer is back in the pool when its descriptor is read again.
unfoldable pub handle_puzzle_game_start : (ℕ → ℕ) → Option ℕ → Server → Option Server
unfolding post_teacher_to_all_student get_room_by_fd update puzzle_start
handle_puzzle_game_start clock none s = none
handle_puzzle_game_start clock (some p) s = do
  told ← post_teacher_to_all_student (some p) st_puzzle_game_start s
  elim (get_room_by_fd (told.1.bufs p).fd told.1.rooms) [
    | none ↦ some told.1
    | some room ↦
        some (record told.1 { rooms = update room.m_room_id (puzzle_start clock) told.1.rooms })
  ]

unfoldable pub handle_puzzle_end_game :
    (ℕ → ℕ) → (CStudent → ℕ → List ℕ) → Option ℕ → Server → Option Server
unfolding get_room_by_fd puzzle_end update end_puzzle_by_fd free_buf
handle_puzzle_end_game clock text none s = none
handle_puzzle_end_game clock text (some p) s = elim (get_room_by_fd (s.bufs p).fd s.rooms) [
  | none ↦ some (free_buf p s)
  | some room ↦
      if (s.bufs p).fd == room.m_teacher_fd
      then (puzzle_end clock text room.m_room_id s >>= λ s'. some (free_buf p s'))
      else some (
          free_buf p (record s {
            rooms = update room.m_room_id (end_puzzle_by_fd clock (s.bufs p).fd) s.rooms;
          }))
]

-- The type is made from the student's id, in ints.
unfoldable pub handle_puzzle_update_pic : Option ℕ → Server → Option Server
unfolding get_room_by_fd find free_buf memcpy with_buf enqueue_buf
handle_puzzle_update_pic none s = none
handle_puzzle_update_pic (some p) s = elim (get_room_by_fd (s.bufs p).fd s.rooms) [
  | none ↦ some (free_buf p s)
  | some room ↦ elim (find (s.bufs p).fd room.m_student_map) [
    | none ↦ some (free_buf p s)
    | some zero ↦ some (free_buf p s)
    | some (suc n) ↦ do
      student ← s.students (suc n)
      bytes ← memcpy 4 (le_word student.m_id) (s.bufs p).c_data
      c_type ←
          (if ltb student.m_id (2 ^ 31)
            then (if ltb (st_puzzle_update_pic + student.m_id) (2 ^ 31)
                then some (st_puzzle_update_pic + student.m_id)
                else none)
            else some ((st_puzzle_update_pic + student.m_id) % 2 ^ 32))
      some (
          enqueue_buf p (
            with_buf p
              (λ b. record b { c_type = c_type; c_data = bytes; used = 16; fd = room.m_white_fd })
              s))
  ]
]
