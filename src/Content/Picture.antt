-- ===== src/Content/Picture.antt =====
-- content/DataTool.cpp: a picture of the house as one `long long`, whose decimal digits hold its
-- fields. The floating-point numbers are a parameter: the casts and operations that the code makes.
pub mod Decimal
pub mod RoundTrip
pub mod Text
use ec_server.Base.{
  ℕ, ◌+◌, ◌-◌, ◌*◌, ◌^◌, List, [], ◌∷◌, Option, none, some, ltb, ◌==◌, if◌then◌else◌, length, ◌>>=◌,
}
use Decimal.{decimal, parse_from, from_end}

-- `to_int f` is `(int) f`, `to_long_tenths f` is `(long long) (f * 10)`, for f that is not negative
-- and in range; `of_int n` is the number that `>>` reads from the digits of n, and `tenth f` is
-- `f / 10`.
pub record Floats : Type 1 where
  pub Float : Type 0
  pub to_int : Float → ℕ
  pub to_long_tenths : Float → ℕ
  pub of_int : ℕ → Float
  pub tenth : Float → Float

-- struct Picture
pub record Picture (Float : Type 0) : Type 0 where
  pub x : Float
  pub y : Float
  pub angle : Float
  pub scale : Float
  pub name : ℕ
  pub layer : ℕ
  pub student_id : ℕ

-- Signed arithmetic of 32 and 64 bits on numbers that are not negative; `none` is an overflow,
-- which has no defined result.
unfoldable pub mul_int : ℕ → ℕ → Option ℕ
mul_int a b = if ltb (a * b) (2 ^ 31) then some (a * b) else none

unfoldable pub mul_long : ℕ → ℕ → Option ℕ
mul_long a b = if ltb (a * b) (2 ^ 63) then some (a * b) else none

unfoldable pub add_long : ℕ → ℕ → Option ℕ
add_long a b = if ltb (a + b) (2 ^ 63) then some (a + b) else none

pub read_at : ℕ → ℕ → List ℕ → Option ℕ
unfolding from_end parse_from
read_at k w s = do digits ← from_end k w s; some (parse_from 0 digits)

pub get_name : List ℕ → Option ℕ
unfolding read_at
get_name s = read_at 15 4 s

pub get_layer : List ℕ → Option ℕ
unfolding read_at
get_layer s = read_at 17 2 s

pub get_student_id : List ℕ → Option ℕ
unfolding read_at
get_student_id s = if length s == 18 then read_at 18 1 s else read_at 19 2 s

module _ (floats : Floats) where
  open floats use {Float, to_int, to_long_tenths, of_int, tenth}

  -- DataTool::setData, from the `m_data` of 0 that the constructor sets.
  unfoldable pub set_data : Picture Float → Option ℕ
  unfolding mul_int mul_long add_long
  set_data pic = do
    data0 ← add_long 0 (to_int pic.x)
    y ← mul_int (to_int pic.y) 1000
    data1 ← add_long data0 y
    angle ← mul_int (to_int pic.angle) 1000000
    data2 ← add_long data1 angle
    scale ← mul_long (to_long_tenths pic.scale) 1000000000
    data3 ← add_long data2 scale
    name ← mul_long pic.name 100000000000
    data4 ← add_long data3 name
    layer ← mul_long pic.layer 1000000000000000
    data5 ← add_long data4 layer
    student_id ← mul_long pic.student_id 100000000000000000
    add_long data5 student_id

  pub get_x : List ℕ → Option Float
  unfolding read_at
  get_x s = do n ← read_at 3 3 s; some (of_int n)

  pub get_y : List ℕ → Option Float
  unfolding read_at
  get_y s = do n ← read_at 6 3 s; some (of_int n)

  pub get_angle : List ℕ → Option Float
  unfolding read_at
  get_angle s = do n ← read_at 9 3 s; some (of_int n)

  pub get_scale : List ℕ → Option Float
  unfolding read_at
  get_scale s = do n ← read_at 11 2 s; some (tenth (of_int n))

  -- DataTool (long long) and getPicture; `none` is an exception of `string (s, pos, n)`.
  unfoldable pub get_picture : ℕ → Option (Picture Float)
  unfolding get_x get_y get_angle get_scale get_name get_layer get_student_id decimal
  get_picture n = do
    let s = decimal 20 n
    angle ← get_angle s
    layer ← get_layer s
    name ← get_name s
    scale ← get_scale s
    x ← get_x s
    y ← get_y s
    student_id ← get_student_id s
    some (record {
      x = x;
      y = y;
      angle = angle;
      scale = scale;
      name = name;
      layer = layer;
      student_id = student_id;
    })
