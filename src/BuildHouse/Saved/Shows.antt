-- ===== src/BuildHouse/Saved/Shows.antt =====
-- What the whiteboard is sent of a student's house: handler/HandleBuildHouse.cpp's
-- handleBuildHouse_Update and a round of handler/HandleRainbowValley.cpp's handleRainbowValley_HouseInfo.
use ec_server.Base.{ℕ, ◌+◌, ◌≡◌, List, take}
use ec_server.Server.{Buf, Server}
use ec_server.BuildHouse.Saved.{Saved}

-- What the whiteboard is sent of a student's message: its type is made from the student's id, its length
-- is that of the student's message, and its first n bytes of data are too.
pub record Shown (n : ℕ) (b : Buf) (white id len : ℕ) (body : List ℕ) : Type 0 where
  pub for_white : b.fd ≡ white
  pub of_type : b.c_type ≡ 50000 + id
  pub of_len : b.c_len ≡ len
  pub sends_all : b.used ≡ len
  pub same_data : take n b.c_data ≡ take n body
