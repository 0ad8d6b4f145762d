-- ===== src/Content/Picture/Text.antt =====
-- The text of digits that content/DataTool.cpp reads a picture from, and what it reads at each place.
use native.Mathlib.Nat.{pow-suc}
use ec_server.Base.{
  ℕ, zero, suc, ◌+◌, ◌*◌, ◌/◌, ◌%◌, ◌^◌, ◌<◌, ◌≤◌, ◌≡◌, refl, List, [], ◌∷◌, ◌++◌, none, some,
  arith, ltb, length, ap, Bool-cases, inl, inr, append_assoc, append-nil, subst, length-append,
  ltb→lt, lt→ltb, eq→==, ne→==,
}
use ec_server.Content.Picture.{read_at, get_student_id}
use ec_server.Content.Picture.Decimal.{
  decimal, parse_from, from_end, fixed, fixed-append, decimal-append, length-fixed, from_end-append,
  decimal_one, decimal_two,
}

parse-fixed_one : (v : ℕ) → v < 10 → parse_from 0 (fixed 1 v) ≡ v
unfolding parse_from fixed
parse-fixed_one v h = omega arith

parse-fixed_two : (v : ℕ) → v < 100 → parse_from 0 (fixed 2 v) ≡ v
unfolding parse_from fixed
parse-fixed_two v h = omega arith

parse-fixed_three : (v : ℕ) → v < 1000 → parse_from 0 (fixed 3 v) ≡ v
unfolding parse_from fixed
parse-fixed_three v h = omega arith

parse-fixed_four : (v : ℕ) → v < 10000 → parse_from 0 (fixed 4 v) ≡ v
unfolding parse_from fixed
parse-fixed_four v h = omega arith

read_at-fixed :
    (a c : List ℕ) (k w v : ℕ)
    → w + length c ≡ k
    → parse_from 0 (fixed w v) ≡ v
    → read_at k w (a ++ (fixed w v ++ c)) ≡ some v
unfolding read_at
read_at-fixed a c k w v e p =
    rw (from_end-append a (fixed w v) c k w (length-fixed w v) e) (ap some p)

-- The student's id has one digit or two, and ends 17 places before the end of the text.
get_student_id-decimal :
    (s : ℕ) (c : List ℕ) → s < 100 → length c ≡ 17 → get_student_id (decimal 3 s ++ c) ≡ some s
unfolding get_student_id
get_student_id-decimal s c h e = elim (Bool-cases (ltb s 10)) [
  | inl one ↦
      rw (decimal_one s (ltb→lt s 10 one), eq→== (length (fixed 1 s ++ c)) 18 (reach 1))
        (read_at-fixed [] c 18 1 s (omega (arith, e)) (parse-fixed_one s (ltb→lt s 10 one)))
  | inr two ↦
      rw
        (
          decimal_two s (ground (arith, two)) h,
          ne→== (length (fixed 2 s ++ c)) 18 (omega (arith, reach 2)),
        )
        (read_at-fixed [] c 19 2 s (omega (arith, e)) (parse-fixed_two s h))
]
  where
    reach : (k : ℕ) → length (fixed k s ++ c) ≡ k + 17
    reach k = omega (arith, length-append (fixed k s) c, length-fixed k s, e)

-- The text of a number whose fields fit into their digits.
pub text : (x y a c n l s : ℕ) → List ℕ
text x y a c n l s =
    decimal 3 s
    ++ (fixed 2 l ++ (fixed 4 n ++ (fixed 2 c ++ (fixed 3 a ++ (fixed 3 y ++ fixed 3 x)))))

pub decimal-text :
    (x y a c n l s : ℕ)
    → x < 1000
    → y < 1000
    → a < 1000
    → c < 100
    → n < 10000
    → l < 100
    → 0 < s
    → decimal 20 (
        (((((x + y * 1000) + a * 1000000) + c * 1000000000) + n * 100000000000)
          + l * 1000000000000000)
        + s * 100000000000000000)
      ≡ text x y a c n l s
unfolding text
decimal-text x y a c n l s hx hy ha hc hn hl hs = rw total (
    rw (
      decimal-append 3 s 17 v15 hs (omega arith),
      fixed-append 2 l 15 v11 (omega arith),
      fixed-append 4 n 11 v9 (omega arith),
      fixed-append 2 c 9 v6 (omega arith),
      fixed-append 3 a 6 v3 (omega arith),
      fixed-append 3 y 3 x hx,
    ))
  where
    v3 : ℕ
    v3 = y * 10 ^ 3 + x

    v6 : ℕ
    v6 = a * 10 ^ 6 + v3

    v9 : ℕ
    v9 = c * 10 ^ 9 + v6

    v11 : ℕ
    v11 = n * 10 ^ 11 + v9

    v15 : ℕ
    v15 = l * 10 ^ 15 + v11

    total :
        ((((((x + y * 1000) + a * 1000000) + c * 1000000000) + n * 100000000000)
            + l * 1000000000000000)
          + s * 100000000000000000)
        ≡ s * 10 ^ 17
          + (l * 10 ^ 15 + (n * 10 ^ 11 + (c * 10 ^ 9 + (a * 10 ^ 6 + (y * 10 ^ 3 + x)))))
    total = omega arith

-- What stands behind each field in the text.
module _ (x y a c n l s : ℕ) where
  abbrev behind_y : List ℕ
  behind_y = fixed 3 x

  abbrev behind_angle : List ℕ
  behind_angle = fixed 3 y ++ behind_y

  abbrev behind_scale : List ℕ
  behind_scale = fixed 3 a ++ behind_angle

  abbrev behind_name : List ℕ
  behind_name = fixed 2 c ++ behind_scale

  abbrev behind_layer : List ℕ
  behind_layer = fixed 4 n ++ behind_name

  behind_lengths :
      (length behind_y ≡ 3)
      × (length behind_angle ≡ 6)
      × (length behind_scale ≡ 9)
      × (length behind_name ≡ 11)
      × (length behind_layer ≡ 15)
      × (length (fixed 2 l ++ behind_layer) ≡ 17)
  unfolding fixed
  behind_lengths = (refl, refl, refl, refl, refl, refl)

  pub read_layer : l < 100 → read_at 17 2 (text x y a c n l s) ≡ some l
  unfolding text
  read_layer h =
      read_at-fixed (decimal 3 s) behind_layer 17 2 l (omega (arith, behind_lengths))
        (parse-fixed_two l h)

  pub read_name : n < 10000 → read_at 15 4 (text x y a c n l s) ≡ some n
  unfolding text
  read_name h = rw (← append_assoc) (
      read_at-fixed (decimal 3 s ++ fixed 2 l) behind_name 15 4 n (omega (arith, behind_lengths))
        (parse-fixed_four n h))

  pub read_scale : c < 100 → read_at 11 2 (text x y a c n l s) ≡ some c
  unfolding text
  read_scale h =
      rw (← append_assoc, ← append_assoc)
        (read_at-fixed ((decimal 3 s ++ fixed 2 l) ++ fixed 4 n) behind_scale 11 2 c
          (omega (arith, behind_lengths)) (parse-fixed_two c h))

  pub read_angle : a < 1000 → read_at 9 3 (text x y a c n l s) ≡ some a
  unfolding text
  read_angle h =
      rw (← append_assoc, ← append_assoc, ← append_assoc)
        (read_at-fixed (((decimal 3 s ++ fixed 2 l) ++ fixed 4 n) ++ fixed 2 c) behind_angle 9 3 a
          (omega (arith, behind_lengths)) (parse-fixed_three a h))

  pub read_y : y < 1000 → read_at 6 3 (text x y a c n l s) ≡ some y
  unfolding text
  read_y h =
      rw (← append_assoc, ← append_assoc, ← append_assoc, ← append_assoc)
        (read_at-fixed ((((decimal 3 s ++ fixed 2 l) ++ fixed 4 n) ++ fixed 2 c) ++ fixed 3 a)
          behind_y 6 3 y (omega (arith, behind_lengths)) (parse-fixed_three y h))

  pub read_x : x < 1000 → read_at 3 3 (text x y a c n l s) ≡ some x
  unfolding text
  read_x h =
      rw (← append_assoc, ← append_assoc, ← append_assoc, ← append_assoc, ← append_assoc)
        (subst (λ r. read_at 3 3 (before ++ r) ≡ some x) (append-nil (fixed 3 x))
          (read_at-fixed before [] 3 3 x refl (parse-fixed_three x h)))
    where
      before : List ℕ
      before = ((((decimal 3 s ++ fixed 2 l) ++ fixed 4 n) ++ fixed 2 c) ++ fixed 3 a) ++ fixed 3 y

  pub read_student_id : s < 100 → get_student_id (text x y a c n l s) ≡ some s
  unfolding text
  read_student_id h =
      get_student_id-decimal s (fixed 2 l ++ behind_layer) h (omega (arith, behind_lengths))

length-decimal-le : (f k n : ℕ) → n < 10 ^ suc k → length (decimal f n) ≤ suc k
unfolding decimal
length-decimal-le zero k n h = omega arith
length-decimal-le (suc f) zero n h = rw (lt→ltb n 10 h) (omega arith)
length-decimal-le (suc f) (suc k) n h =
    let less : n / 10 < 10 ^ suc k = omega (arith, pow-suc 10 (suc k)) in
    ground
      (arith, length-decimal-le f k (n / 10) less, length-append (decimal f (n / 10)) (n % 10 ∷ []))

-- Seventeen digits or fewer hold no student's id.
pub get_student_id-short : (n : ℕ) → n < 10 ^ 17 → get_student_id (decimal 20 n) ≡ none
unfolding get_student_id from_end
get_student_id-short n h =
    rw (ne→== l 18 (omega (arith, short)), read_at, lt→ltb l 19 (omega (arith, short)))
  where
    l : ℕ
    l = length (decimal 20 n)

    short : l ≤ 17
    short = length-decimal-le 20 16 n h
