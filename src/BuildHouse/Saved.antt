-- ===== src/BuildHouse/Saved.antt =====
-- The messages that handler/HandleBuildHouse.cpp's handleBuildHouse_Update keeps in longlong_data,
-- content/makehouse.h, and handler/HandleRainbowValley.cpp's handleRainbowValley_HouseInfo shows. A result
-- is `none` where the code has no defined one.
pub mod Shows
use ec_server.Base.{
  ℕ, zero, suc, ◌+◌, ◌%◌, ◌^◌, ◌≤◌, ◌<◌, ◌≡◌, ◌≢◌, refl, sym, ap, ◌∙◌, List, [], ◌∷◌, ◌++◌, Option,
  none, some, true, false, ◌&&◌, leb, ltb, subst, length-take, ◌==◌, if◌then◌else◌, ◌>>=◌, length,
  take, drop, arith, eq→==, ne→==, le→leb, lt→ltb, le→ltb,
}
use ec_server.Socket.{word}
use ec_server.Server.{Buf, Server, with_buf, memcpy, malloc_buf, enqueue_buf}
use ec_server.GroupMessages.{send_to_white}
use ec_server.Messages.Copies.{data_len, take-take_append}
use ec_server.Messages.Broadcast.{malloc-rest}
use ec_server.Departure.Sending.{memcpy-all}
use ec_server.ClassRoom.{put_int, send_sized}

-- The first 1024 bytes of a message: its head and 1016 bytes of data.
pub record Saved : Type 0 where
  pub c_len : ℕ
  pub c_type : ℕ
  pub c_data : List ℕ

abbrev pub saved_len : ℕ
saved_len = 1016

-- The first n bytes of data of a message are kept.
unfoldable pub row_of : ℕ → Buf → Saved
row_of n b = record { c_len = b.c_len; c_type = b.c_type; c_data = take n b.c_data }

-- A student's id up to 35 is taken for a row of the 36; a negative one is before the first. The buffer of
-- a message with another id is not given back.
unfoldable pub handle_build_house_update :
    Option ℕ → ℕ → (ℕ → Saved) → Server → Option ((ℕ → Saved) × Server)
unfolding send_to_white
handle_build_house_update none white saved s = none
handle_build_house_update (some p) white saved s =
    let id = word (drop 4 (s.bufs p).c_data) in
    if leb (2 ^ 31) id
    then none
    else if leb id 35
    then (send_to_white (some p) white s >>= λ s'.
        some ((λ i. if id == i then row_of saved_len (s.bufs p) else saved i), s'))
    else some (saved, s)

-- One round, with the length of a row: without a buffer the row is left out.
unfoldable pub show_row : ℕ → ℕ → Saved → Server → Option Server
unfolding malloc_buf memcpy with_buf send_to_white
show_row n white row s = elim (malloc_buf s).0 [
  | none ↦ some s
  | some q ↦ memcpy n row.c_data (s.bufs q).c_data >>= λ bytes. send_to_white (some q) white (
      with_buf q (λ b. record b { c_len = row.c_len; c_type = row.c_type; c_data = bytes })
        (malloc_buf s).1)
]

unfoldable pub show_house : ℕ → (ℕ → Saved) → ℕ → Server → Option Server
show_house white saved i s = show_row saved_len white (saved i) s

unfoldable pub show_houses : ℕ → (ℕ → Saved) → ℕ → ℕ → Server → Option Server
unfolding show_house
show_houses white saved i zero s = some s
show_houses white saved i (suc n) s = elim (show_house white saved i s) [
  | none ↦ none
  | some s' ↦ show_houses white saved (suc i) n s'
]

-- The rows 1 to 35; the message that asks for them is not given back.
unfoldable pub handle_rainbow_valley_house_info : ℕ → (ℕ → Saved) → Server → Option Server
unfolding show_houses
handle_rainbow_valley_house_info white saved s = show_houses white saved 1 35 s

-- The number of houses is 35 in the compiled branch, and no room is looked up.
unfoldable pub handle_rainbow_valley_house_num : Option ℕ → Server → Option Server
unfolding put_int send_sized
handle_rainbow_valley_house_num none s = none
handle_rainbow_valley_house_num (some p) s = put_int p 801 35 s >>= λ s'. some (send_sized p 12 s')
