-- ===== src/Content/Puzzle.antt =====
-- content/puzzle.cpp: class CPuzzle, the time that a student takes for a puzzle. What `time (NULL)` returns
-- is an argument; a time is the pattern of a number of 64 bits.
use ec_server.Base.{ℕ, ◌+◌, ◌-◌, ◌%◌, ◌^◌, ◌==◌, if◌then◌else◌}

pub record CPuzzle : Type 0 where
  pub m_start_time : ℕ
  pub m_end_time : ℕ

unfoldable pub new_puzzle : CPuzzle
new_puzzle = record { m_start_time = 0; m_end_time = 0 }

-- The first call of each counts.
unfoldable pub start : ℕ → CPuzzle → CPuzzle
start now puzzle = if puzzle.m_start_time == 0 then record puzzle { m_start_time = now } else puzzle

unfoldable pub end : ℕ → CPuzzle → CPuzzle
end now puzzle = if puzzle.m_end_time == 0 then record puzzle { m_end_time = now } else puzzle

unfoldable pub get_time : CPuzzle → ℕ
get_time puzzle = (puzzle.m_end_time + 2 ^ 64 - puzzle.m_start_time) % 2 ^ 64
