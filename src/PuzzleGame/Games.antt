-- ===== src/PuzzleGame/Games.antt =====
-- The puzzles that content/room.cpp keeps from one game to the next, and the null pointers among them.
use ec_server.Base.{
  ℕ, ◌≡◌, ◌≢◌, refl, ◌∙◌, List, [], ◌∷◌, Option, none, some, Map, find, insert, update, IsSorted,
  insert-Above, find-insert, find-update, arith, Option-cases, inl, inr, eq→==, ne→==,
}
use ec_server.Content.Puzzle.{CPuzzle, new_puzzle, start, end}
use ec_server.Content.Room.{CStudent, CRoom, get_room_by_fd}
use ec_server.Server.{Server, free_buf}
use ec_server.Departure.Students.{find-update_here}
use ec_server.PuzzleGame.{
  Puzzles, start_all, puzzle_start, end_all, add_line, puzzle_end, end_puzzle_by_fd,
  handle_puzzle_end_game,
}

-- The puzzle that is made for a student of the room.
abbrev pub made : (ℕ → ℕ) → ℕ → Option ℕ → Option (Option CPuzzle)
made clock fd none = none
made clock fd (some student) = some (some (start (clock fd) new_puzzle))

abbrev pub first_of {ℓ} : {V : Type ℓ} → Option V → Option V → Option V
first_of none w = w
first_of (some v) w = some v

start_all-find :
    (clock : ℕ → ℕ) (j : ℕ) (m : Map ℕ) (puzzles : Puzzles)
    → IsSorted puzzles
    → find j (start_all clock m puzzles) ≡ first_of (find j puzzles) (made clock j (find j m))
unfolding start_all find
start_all-find clock j [] puzzles sorted = elim (Option-cases (find j puzzles)) [
  | inl e ↦ rw e refl
  | inr (q, e) ↦ rw e refl
]
start_all-find clock j ((fd, student) ∷ m) puzzles sorted = ground (
  arith,
  start_all-find clock j m (insert fd (some (start (clock fd) new_puzzle)) puzzles)
      (insert-Above 0 fd (some (start (clock fd) new_puzzle)) puzzles (omega arith) sorted),
  find-insert 0 fd j (some (start (clock fd) new_puzzle)) puzzles sorted,
)

-- When a game starts, a client that already has a puzzle keeps it, with the times of the earlier game, and
-- every other student of the room gets a new one that starts then.
pub puzzle_start-find :
    (clock : ℕ → ℕ) (j : ℕ) (room : CRoom)
    → IsSorted room.m_puzzle_map
    → find j (puzzle_start clock room).m_puzzle_map
      ≡ first_of (find j room.m_puzzle_map) (made clock j (find j room.m_student_map))
unfolding puzzle_start
puzzle_start-find clock j room sorted =
    start_all-find clock j room.m_student_map room.m_puzzle_map sorted

end_all-null :
    (clock : ℕ → ℕ) (text : CStudent → ℕ → List ℕ) (heap : ℕ → Option CStudent) (fd : ℕ)
    (puzzles : Puzzles) (m : Map ℕ) (buf : List ℕ)
    → find fd puzzles ≡ some none
    → end_all clock text heap puzzles m buf ≡ none
unfolding end_all find
end_all-null clock text heap fd [] m buf e = absurd (ground arith)
end_all-null clock text heap fd ((k, none) ∷ puzzles) m buf e = refl
end_all-null clock text heap fd ((k, some puzzle) ∷ puzzles) m buf e =
    let ended = end (clock k) puzzle in
    let m' = insert k 0 m in
    let later : find fd puzzles ≡ some none = ground arith in
    elim (Option-cases (add_line text heap (find k m') ended buf)) [
      | inl full ↦ rw (end_all, full) refl
      | inr (buf', more) ↦
          rw (end_all, more) (rw (end_all-null clock text heap fd puzzles m' buf' later) refl)
    ]

end_puzzle_by_fd-null :
    (clock : ℕ → ℕ) (fd : ℕ) (room : CRoom)
    → find fd room.m_puzzle_map ≡ none
    → IsSorted room.m_puzzle_map
    → find fd (end_puzzle_by_fd clock fd room).m_puzzle_map ≡ some none
unfolding end_puzzle_by_fd
end_puzzle_by_fd-null clock fd room absent sorted =
    let entered : find fd (insert fd none room.m_puzzle_map) ≡ some none =
      find-insert 0 fd fd none room.m_puzzle_map sorted ∙ rw (eq→== fd fd refl, absent) refl in
    find-update fd fd
      (λ pointer. elim pointer [ none ↦ none | some puzzle ↦ some (end (clock fd) puzzle) ])
      (insert fd none room.m_puzzle_map)
    ∙ rw (eq→== fd fd refl, entered) refl

module _ (clock : ℕ → ℕ) (text : CStudent → ℕ → List ℕ) (p : ℕ) (room : CRoom) (s : Server) where
  -- A client that has no puzzle, and is not the teacher, ends the game: `m_puzzle_map[fd]` enters a null
  -- pointer for it, which the code does not follow then; but when the teacher ends the game after it,
  -- `puzzle_end` follows the null pointer.
  handle_puzzle_end_game-null :
      get_room_by_fd (s.bufs p).fd s.rooms ≡ some room
      → find room.m_room_id s.rooms ≡ some room
      → (s.bufs p).fd ≢ room.m_teacher_fd
      → find (s.bufs p).fd room.m_puzzle_map ≡ none
      → IsSorted room.m_puzzle_map
      → (r : Server) × (handle_puzzle_end_game clock text (some p) s ≡ some r)
        × (puzzle_end clock text room.m_room_id r ≡ none)
  unfolding handle_puzzle_end_game free_buf puzzle_end
  handle_puzzle_end_game-null found here student absent sorted =
      let fd = (s.bufs p).fd in
      let room' = end_puzzle_by_fd clock fd room in
      let r =
        free_buf p
          (record s { rooms = update room.m_room_id (end_puzzle_by_fd clock fd) s.rooms }) in
      let there : find room.m_room_id r.rooms ≡ some room' =
        find-update_here room.m_room_id (end_puzzle_by_fd clock fd) s.rooms room here in
      let empty : find fd room'.m_puzzle_map ≡ some none =
        end_puzzle_by_fd-null clock fd room absent sorted in
      (
        r,
        rw (handle_puzzle_end_game, found) (rw (ne→== fd room.m_teacher_fd student) refl),
        rw (puzzle_end, there)
            (rw
              (end_all-null clock text s.students fd room'.m_puzzle_map room.m_student_map [] empty)
              refl),
      )
