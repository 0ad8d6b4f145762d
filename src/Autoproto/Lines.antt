-- ===== src/Autoproto/Lines.antt =====
-- A file as its lines, and how the loop `while (!ifs.eof ()) ifs.getline (..)` of
-- autoproto/autoprotocol.cc runs through them.
use ec_server.Base.{
  ℕ, zero, suc, ◌≤◌, ◌≡◌, refl, ap, List, [], ◌∷◌, ◌++◌, some, Bool, true, false, ◌||◌, ◌==◌,
  if◌then◌else◌, length, Text, contains, arith, ◌⊎◌, ◌≢◌, inl, inr, Bool-cases,
}
use ec_server.Autoproto.Streams.{
  Input, newline, at_end, at_newline, scan, stop_state, getline, open_in,
}

abbrev pub extend : ℕ → List Text → List Text
extend c [] = (c ∷ []) ∷ []
extend c (l ∷ ls) = (c ∷ l) ∷ ls

-- The pieces of a text between newlines; the last is what follows the last newline.
unfoldable pub split : Text → List Text
split [] = [] ∷ []
split (c ∷ text) = if c == newline then [] ∷ split text else extend c (split text)

-- What a loop writes with `ofs << line << endl`.
unfoldable pub unlines : List Text → Text
unlines [] = []
unlines (l ∷ ls) = l ++ newline ∷ unlines ls

-- No line is longer than n.
abbrev pub IsWithin : ℕ → List Text → Type 0
IsWithin n [] = Unit {0}
IsWithin n (l ∷ ls) = (length l ≤ n) × IsWithin n ls

-- Some line has the part in it.
unfoldable pub any_line : Text → List Text → Bool
any_line part [] = false
any_line part (l ∷ ls) = contains l part || any_line part ls

pub IsWithin-append : (n : ℕ) (a b : List Text) → IsWithin n a → IsWithin n b → IsWithin n (a ++ b)
IsWithin-append n [] b h k = k
IsWithin-append n (l ∷ a) b h k = (h.0, IsWithin-append n a b h.1 k)

pub any_line-append :
    (part : Text) (a b : List Text) → any_line part (a ++ b) ≡ any_line part a || any_line part b
unfolding any_line
any_line-append part [] b = refl
any_line-append part (l ∷ a) b = ground (arith, any_line-append part a b)

abbrev pub head_len : List Text → ℕ
head_len [] = 0
head_len (l ∷ ls) = length l

pub split-cons : (text : Text) → (l : Text) × (ls : List Text) × (split text ≡ l ∷ ls)
unfolding split
split-cons [] = ([], [], refl)
split-cons (c ∷ text) = elim (Bool-cases (c == newline)) [
  | inl e ↦ ([], split text, rw e refl)
  | inr e ↦ let (l, ls, s) = split-cons text in (c ∷ l, ls, rw e (rw s refl))
]

extend-append :
    (c : ℕ) (a b : List Text) (l : Text) → extend c ((l ∷ a) ++ b) ≡ extend c (l ∷ a) ++ b
extend-append c a b l = refl

pub split-ne_nil : (text : Text) → split text ≢ []
split-ne_nil text h = let (l, ls, e) = split-cons text in cc

-- What stands before a newline and what stands after it have their own lines.
pub split-append : (a b : Text) → split (a ++ newline ∷ b) ≡ split a ++ split b
unfolding split
split-append [] b = refl
split-append (c ∷ a) b = elim (Bool-cases (c == newline)) [
  | inl e ↦ rw (e, split) (rw (split-append a b) refl)
  | inr e ↦ let (l, ls, s) = split-cons a in rw (e, split) (rw (split-append a b) (rw s refl))
]

-- One call of `getline` where the first line is not longer than n: it takes this line, and the stream
-- has eofbit if there is no newline after it.
pub scan_lem :
    (n : ℕ) (text l : Text) (ls : List Text)
    → split text ≡ l ∷ ls
    → length l ≤ n
    → ((ls ≡ []) × (scan n text ≡ (l, [], at_end)))
      ⊎ ((rest : Text) × (ls ≡ split rest) × (scan n text ≡ (l, rest, at_newline)))
unfolding split scan
scan_lem n [] l ls h k = inl (cc, cc)
scan_lem zero (c ∷ text) l ls h k = elim (Bool-cases (c == newline)) [
  | inl e ↦ let first = rw e at h in inr (text, cc, rw e cc)
  | inr e ↦
      let (l', ls', s) = split-cons text in
      let first = rw (e, s) at h in (absurd (omega (arith, ap head_len first)))
]
scan_lem (suc n) (c ∷ text) l ls h k = elim (Bool-cases (c == newline)) [
  | inl e ↦ let first = rw e at h in inr (text, cc, rw e cc)
  | inr e ↦
      let (l', ls', s) = split-cons text in
      let first : (c ∷ l') ∷ ls' ≡ l ∷ ls = rw (e, s) at h in
      elim (scan_lem n text l' ls' s (omega (arith, ap head_len first))) [
        | inl (last, at) ↦ inl (cc, rw e (rw at cc))
        | inr (rest, more, at) ↦ inr (rest, cc, rw e (rw at cc))
      ]
]

-- A call of `getline` on a stream without the bits.
pub getline_lem :
    (n : ℕ) (text l : Text) (ls : List Text)
    → split text ≡ l ∷ ls
    → length l ≤ n
    → (ifs : Input) × (getline n (open_in (some text)) ≡ (l, ifs))
      × (((ls ≡ []) × (ifs.eof ≡ true))
          ⊎ ((rest : Text) × (ls ≡ split rest) × (ifs ≡ open_in (some rest))))
unfolding getline open_in stop_state
getline_lem n text [] ls h k = elim (scan_lem n text [] ls h k) [
  | inl (last, at) ↦ ((stop_state ([], [], at_end)).1, ap stop_state at, inl (last, refl))
  | inr (rest, more, at) ↦ (open_in (some rest), ap stop_state at, inr (rest, more, refl))
]
getline_lem n text (c ∷ l) ls h k = elim (scan_lem n text (c ∷ l) ls h k) [
  | inl (last, at) ↦ ((stop_state (c ∷ l, [], at_end)).1, ap stop_state at, inl (last, refl))
  | inr (rest, more, at) ↦ (open_in (some rest), ap stop_state at, inr (rest, more, refl))
]
