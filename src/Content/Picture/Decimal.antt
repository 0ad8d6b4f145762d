-- ===== src/Content/Picture/Decimal.antt =====
-- The decimal digits that DataTool.cpp reads a number by: `stringstream << long long`,
-- `string (s, pos, n)` and `stringstream >> int`. A text of digits is the list of their values.
use Prim.Native.Nat.add
use native.Mathlib.Nat.{pow-suc, zero-add, le_trans, le-add_right}
use ec_server.Base.{
  ℕ, zero, suc, ◌+◌, ◌-◌, ◌*◌, ◌/◌, ◌%◌, ◌^◌, ◌<◌, ◌≤◌, ◌≡◌, refl, sym, ap, List, [], ◌∷◌, ◌++◌,
  Option, none, some, arith, append-nil, append_assoc, ltb, if◌then◌else◌, length, take, drop,
  length-append, false, le→ltb, lt→ltb,
}

-- A `long long` has at most 19 digits; the first argument is how many may be written.
unfoldable pub decimal : ℕ → ℕ → List ℕ
decimal zero n = []
decimal (suc f) n = if ltb n 10 then n ∷ [] else decimal f (n / 10) ++ n % 10 ∷ []

unfoldable pub parse_from : ℕ → List ℕ → ℕ
parse_from acc [] = acc
parse_from acc (d ∷ ds) = parse_from (acc * 10 + d) ds

-- `string (s, length - k, w)`: a start before the text is a position beyond its end, which throws.
unfoldable pub from_end : ℕ → ℕ → List ℕ → Option (List ℕ)
from_end k w s = if ltb (length s) k then none else some (take w (drop (length s - k) s))

-- Exactly k digits.
unfoldable pub fixed : ℕ → ℕ → List ℕ
fixed zero n = []
fixed (suc k) n = fixed k (n / 10) ++ n % 10 ∷ []

pub length-fixed : (k n : ℕ) → length (fixed k n) ≡ k
unfolding fixed
length-fixed zero n = refl
length-fixed (suc k) n =
    omega (arith, length-fixed k (n / 10), length-append (fixed k (n / 10)) (n % 10 ∷ []))

-- The last digit of a number in two parts, and what stands before it.
split_last :
    (u b v : ℕ)
    → ((u * 10 ^ suc b + v) / 10 ≡ u * 10 ^ b + v / 10) × ((u * 10 ^ suc b + v) % 10 ≡ v % 10)
split_last u b v =
    let e = ap (λ (t : ℕ). u * t) (pow-suc 10 b) in (omega (arith, e), omega (arith, e))

div_below : (b v : ℕ) → v < 10 ^ suc b → v / 10 < 10 ^ b
div_below b v h = omega (arith, pow-suc 10 b)

pow_pos : (b : ℕ) → 1 ≤ 10 ^ b
pow_pos zero = omega arith
pow_pos (suc b) = omega (arith, pow-suc 10 b, pow_pos b)

above_ten : (u t : ℕ) → 0 < u → 10 ≤ t → 10 ≤ u * t
above_ten u t p h = grind arith

-- A number in two parts, u above the last b digits v.
module _ (a u : ℕ) where
  pub fixed-append :
      (b v : ℕ) → v < 10 ^ b → fixed (b + a) (u * 10 ^ b + v) ≡ fixed a u ++ fixed b v
  unfolding fixed
  fixed-append zero v h =
      let e : u * 1 + v ≡ u = omega arith in rw (zero-add, e) (sym (append-nil (fixed a u)))
  fixed-append (suc b) v h =
      rw (add.suc b a, (split_last u b v).0, (split_last u b v).1)
        (rw (fixed-append b (v / 10) (div_below b v h), append_assoc))

  pub decimal-append :
      (b v : ℕ) → 0 < u → v < 10 ^ b → decimal (b + a) (u * 10 ^ b + v) ≡ decimal a u ++ fixed b v
  unfolding decimal fixed
  decimal-append zero v p h =
      let e : u * 1 + v ≡ u = omega arith in rw (zero-add, e) (sym (append-nil (decimal a u)))
  decimal-append (suc b) v p h =
      rw (add.suc b a, decimal, long)
        (rw ((split_last u b v).0, (split_last u b v).1)
          (rw (decimal-append b (v / 10) p (div_below b v h), append_assoc)))
    where
      ten : 10 ≤ u * 10 ^ suc b
      ten = above_ten u (10 ^ suc b) p (omega (arith, pow-suc 10 b, pow_pos b))

      long : ltb (u * 10 ^ suc b + v) 10 ≡ false
      long = le→ltb (u * 10 ^ suc b + v) 10 (le_trans ten (le-add_right (u * 10 ^ suc b) v))

module _ {ℓ} {A : Type ℓ} where
  take-append : (b c : List A) → take (length b) (b ++ c) ≡ b
  take-append [] c = refl
  take-append (x ∷ b) c = ap (◌∷◌ x) (take-append b c)

  drop-append : (a b : List A) → drop (length a) (a ++ b) ≡ b
  drop-append [] b = refl
  drop-append (x ∷ a) b = drop-append a b

pub from_end-append :
    (a b c : List ℕ) (k w : ℕ)
    → length b ≡ w
    → w + length c ≡ k
    → from_end k w (a ++ (b ++ c)) ≡ some b
unfolding from_end
from_end-append a b c k w e f =
    rw (reach, start, drop-append a (b ++ c), ← e) (ap some (take-append b c))
  where
    total : length (a ++ (b ++ c)) ≡ length a + k
    total = omega (arith, length-append a (b ++ c), length-append b c)

    reach : ltb (length (a ++ (b ++ c))) k ≡ false
    reach = ground (arith, total)

    start : length (a ++ (b ++ c)) - k ≡ length a
    start = omega (arith, total)

-- Two digits at most.
pub decimal_one : (n : ℕ) → n < 10 → decimal 3 n ≡ fixed 1 n
unfolding decimal fixed
decimal_one n h = rw (lt→ltb n 10 h) (ap (λ (d : ℕ). d ∷ []) (omega arith))

pub decimal_two : (n : ℕ) → 10 ≤ n → n < 100 → decimal 3 n ≡ fixed 2 n
unfolding decimal fixed
decimal_two n l h =
    let e : n / 10 % 10 ≡ n / 10 = omega arith in
    rw (le→ltb n 10 l, lt→ltb (n / 10) 10 (omega arith), e)
