-- ===== src/Content/Picture/RoundTrip.antt =====
-- What content/DataTool.cpp reads back from the numbers that it makes.
use ec_server.Base.{ℕ, ◌+◌, ◌*◌, ◌<◌, ◌≤◌, ◌≡◌, none, some, arith, ◌>>=◌}
use ec_server.Content.Picture.{
  Floats, Picture, set_data, get_picture, get_student_id, get_x, get_y, get_angle, get_scale,
  get_name, get_layer,
}
use ec_server.Content.Picture.Decimal.{decimal}
use ec_server.Content.Picture.Text.{
  decimal-text, read_layer, read_name, read_scale, read_angle, read_y, read_x, read_student_id,
  get_student_id-short,
}

module _ (floats : Floats) where
  open floats use {Float, to_int, to_long_tenths, of_int, tenth}

  -- Each field fits into its digits.
  pub record Fits (pic : Picture Float) : Type 0 where
    pub x : to_int pic.x < 1000
    pub y : to_int pic.y < 1000
    pub angle : to_int pic.angle < 1000
    pub scale : to_long_tenths pic.scale < 100
    pub name : pic.name < 10000
    pub layer : pic.layer < 100
    pub student_id : pic.student_id < 92

  abbrev low : Picture Float → ℕ
  low pic =
      (((((to_int pic.x + to_int pic.y * 1000) + to_int pic.angle * 1000000)
            + to_long_tenths pic.scale * 1000000000)
          + pic.name * 100000000000)
        + pic.layer * 1000000000000000)

  set_data-Fits :
      (pic : Picture Float)
      → Fits pic
      → set_data floats pic ≡ some (low pic + pic.student_id * 100000000000000000)
  unfolding set_data
  set_data-Fits pic h = ground arith

  -- What is left of a picture once its fields are cut to whole numbers, the scale to tenths.
  abbrev pub cut : Picture Float → Picture Float
  cut pic = record {
    x = of_int (to_int pic.x);
    y = of_int (to_int pic.y);
    angle = of_int (to_int pic.angle);
    scale = tenth (of_int (to_long_tenths pic.scale));
    name = pic.name;
    layer = pic.layer;
    student_id = pic.student_id;
  }

  -- A picture whose fields fit into their digits, with a student's id from 1 to 91, is packed into a
  -- number without overflow, and that number is read back without an exception as the picture with
  -- its position and angle cut to whole numbers and its scale to tenths.
  pub get_picture-set_data :
      (pic : Picture Float)
      → Fits pic
      → 0 < pic.student_id
      → (set_data floats pic >>= get_picture floats) ≡ some (cut pic)
  unfolding get_picture get_x get_y get_angle get_scale get_name get_layer
  get_picture-set_data pic h p =
      rw (set_data-Fits pic h, decimal-text x y a c n l s h.x h.y h.angle h.scale h.name h.layer p)
        (rw (
          read_angle x y a c n l s h.angle,
          read_layer x y a c n l s h.layer,
          read_name x y a c n l s h.name,
          read_scale x y a c n l s h.scale,
          read_x x y a c n l s h.x,
          read_y x y a c n l s h.y,
          read_student_id x y a c n l s (omega (arith, h.student_id)),
        ))
    where
      open pic use {name as n, layer as l, student_id as s}

      x : ℕ
      x = to_int pic.x

      y : ℕ
      y = to_int pic.y

      a : ℕ
      a = to_int pic.angle

      c : ℕ
      c = to_long_tenths pic.scale

  -- A picture that fits but has the student's id 0, as a student has who has not logged in, is packed
  -- into a number that cannot be read back: the reading throws.
  get_picture-zero_id :
      (pic : Picture Float)
      → Fits pic
      → pic.student_id ≡ 0
      → (n : ℕ) × (set_data floats pic ≡ some n) × (get_picture floats n ≡ none)
  unfolding get_picture
  get_picture-zero_id pic h e =
      (low pic + pic.student_id * 100000000000000000, set_data-Fits pic h, throws)
    where
      short : get_student_id (decimal 20 (low pic + pic.student_id * 100000000000000000)) ≡ none
      short =
          get_student_id-short (low pic + pic.student_id * 100000000000000000) (omega (arith, h, e))

      throws : get_picture floats (low pic + pic.student_id * 100000000000000000) ≡ none
      throws = ground (arith, short)

  -- With a student's id of 93 or more the packing overflows 64 bits, though two digits are left for
  -- the id.
  pub set_data-overflow : (pic : Picture Float) → 93 ≤ pic.student_id → set_data floats pic ≡ none
  unfolding set_data
  set_data-overflow pic h = ground arith
