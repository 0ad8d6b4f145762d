-- ===== src/Tests/Picture.antt =====
-- The packing of content/DataTool.cpp with numbers of one decimal place for the floats.
use ec_server.Base.{ℕ, ◌*◌, ◌/◌, ◌≡◌, none, some, ◌>>=◌, arith}
use ec_server.Content.Picture.{Floats, Picture, set_data, get_picture}
use ec_server.Content.Picture.RoundTrip.{Fits, cut, get_picture-set_data, set_data-overflow}

-- A float is its number of tenths.
abbrev pub tenths : Floats
tenths = record {
  Float = ℕ;
  to_int = λ f. f / 10;
  to_long_tenths = λ f. f;
  of_int = λ n. n * 10;
  tenth = λ f. f / 10;
}

-- x = 120.5, y = 45.0, angle = 359.9, scale = 1.5
abbrev picture : ℕ → Picture ℕ
picture id = record {
  x = 1205;
  y = 450;
  angle = 3599;
  scale = 15;
  name = 1234;
  layer = 7;
  student_id = id;
}

picture-Fits : Fits tenths (picture 91)
picture-Fits = ground arith

picture-Fits_zero : Fits tenths (picture 0)
picture-Fits_zero = ground arith

get_picture-set_data_example :
    (set_data tenths (picture 91) >>= get_picture tenths) ≡ some (cut tenths (picture 91))
get_picture-set_data_example = get_picture-set_data tenths (picture 91) picture-Fits (omega arith)

set_data-overflow_example : set_data tenths (picture 93) ≡ none
set_data-overflow_example = set_data-overflow tenths (picture 93) (omega arith)
