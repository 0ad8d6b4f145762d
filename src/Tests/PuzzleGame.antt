-- ===== src/Tests/PuzzleGame.antt =====
-- A room after a first game of its student 7.
use ec_server.Base.{ℕ, ◌+◌, ◌≡◌, refl, List, [], ◌∷◌, none, some, find, arith}
use ec_server.Content.Room.{CStudent, CRoom, get_room_by_fd}
use ec_server.Server.{Server}
use ec_server.PuzzleGame.{puzzle_start}
use ec_server.PuzzleGame.Games.{made, first_of, puzzle_start-find}
use ec_server.Tests.Room.{room}
use ec_server.Tests.ClassRoom.{server}

abbrev played : CRoom
played = record room {
  m_puzzle_map = (7, some (record { m_start_time = 100; m_end_time = 160 })) ∷ [];
}

abbrev game : Server
game = record (server 8 1 1) { rooms = (1, played) ∷ [] }

abbrev text : CStudent → ℕ → List ℕ
text student time = student.m_id ∷ time ∷ []

by_student : get_room_by_fd 8 game.rooms ≡ some played
unfolding get_room_by_fd
by_student = refl

by_id : find 1 game.rooms ≡ some played
unfolding find
by_id = refl

no_puzzle : find 8 played.m_puzzle_map ≡ none
unfolding find
no_puzzle = refl

puzzle_start-find_example :
    find 7 (puzzle_start (λ fd. 200 + fd) played).m_puzzle_map
    ≡ first_of (find 7 played.m_puzzle_map) (made (λ fd. 200 + fd) 7 (find 7 played.m_student_map))
puzzle_start-find_example = puzzle_start-find (λ fd. 200 + fd) 7 played (ground arith)
