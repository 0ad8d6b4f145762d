-- ===== src/Autoproto/Replace/Pieces.antt =====
-- What is found in the file that replace of autoproto/autoprotocol.cc writes.
use ec_server.Base.{
  ℕ, ◌+◌, ◌≤◌, ◌≡◌, refl, sym, ◌∙◌, List, [], ◌∷◌, ◌++◌, Bool, true, false, ◌&&◌, ◌||◌,
  if◌then◌else◌, length, Text, contains, arith, inl, inr, Bool-cases, append_assoc, length-append,
  ◌==◌,
}
use ec_server.Autoproto.Streams.{newline}
use ec_server.Autoproto.Lines.{
  split, unlines, IsWithin, any_line, IsWithin-append, any_line-append, split-append, extend,
}
use ec_server.Autoproto.Replace.Runs.{with_content}

-- The lines of the lines, which may have newlines themselves.
unfoldable pub pieces : List Text → List Text
pieces [] = []
pieces (l ∷ ls) = split l ++ pieces ls

pub split-unlines : (ls : List Text) → split (unlines ls) ≡ pieces ls ++ ([] ∷ [])
unfolding unlines pieces
split-unlines [] = unfold split in refl
split-unlines (l ∷ ls) =
    split-append l (unlines ls)
    ∙ rw (split-unlines ls) (sym (append_assoc (split l) (pieces ls) ([] ∷ [])))

-- No line has a newline in it.
abbrev IsLines : List Text → Type 0
IsLines [] = Unit {0}
IsLines (l ∷ ls) = (split l ≡ l ∷ []) × IsLines ls

extend-IsLines :
    (c : ℕ) (ls : List Text) → (c == newline) ≡ false → IsLines ls → IsLines (extend c ls)
unfolding split
extend-IsLines c [] e h = (rw e refl, tt)
extend-IsLines c (l ∷ ls) e h = (rw e (rw h.0 refl), h.1)

split-IsLines : (text : Text) → IsLines (split text)
unfolding split
split-IsLines [] = (refl, tt)
split-IsLines (c ∷ text) = elim (Bool-cases (c == newline)) [
  | inl e ↦ rw e (refl, split-IsLines text)
  | inr e ↦ rw e (extend-IsLines c (split text) e (split-IsLines text))
]

pieces-IsLines : (ls : List Text) → IsLines ls → pieces ls ≡ ls
unfolding pieces
pieces-IsLines [] h = refl
pieces-IsLines (l ∷ ls) h = rw h.0 (rw (pieces-IsLines ls h.1) refl)

pub pieces-split : (text : Text) → pieces (split text) ≡ split text
pieces-split text = pieces-IsLines (split text) (split-IsLines text)

-- The two ways to put the content beside a line.
pieces-any :
    (part l content : Text) (ls : List Text) (seek : Bool)
    → any_line part (pieces (if seek then l ∷ (content ∷ ls) else content ∷ (l ∷ ls)))
      ≡ any_line part (split content) || (any_line part (split l) || any_line part (pieces ls))
unfolding pieces
pieces-any part l content ls true = ground (
  arith,
  any_line-append part (split l) (split content ++ pieces ls),
  any_line-append part (split content) (pieces ls),
)
pieces-any part l content ls false = ground (
  arith,
  any_line-append part (split content) (split l ++ pieces ls),
  any_line-append part (split l) (pieces ls),
)

pub any_line-keeps :
    (part flag content : Text) (iscontinue seek go : Bool) (ls : List Text)
    → any_line part (pieces ls) ≡ true
    → any_line part (pieces (with_content flag content iscontinue seek go ls)) ≡ true
unfolding with_content pieces
any_line-keeps part flag content iscontinue seek go [] h = h
any_line-keeps part flag content iscontinue seek go (l ∷ ls) h =
    let found = sym (any_line-append part (split l) (pieces ls)) ∙ h in
    elim (Bool-cases (contains l flag && go)) [
      | inl here ↦ rw here (
          pieces-any part l content (with_content flag content iscontinue seek iscontinue ls) seek
          ∙ ground (arith, any_line-keeps part flag content iscontinue seek iscontinue ls))
      | inr other ↦ rw other (
          any_line-append part (split l) (pieces (with_content flag content iscontinue seek go ls))
          ∙ ground (arith, any_line-keeps part flag content iscontinue seek go ls))
    ]

pub any_line-new :
    (part flag content : Text) (iscontinue seek : Bool) (ls : List Text)
    → any_line flag ls ≡ true
    → any_line part (split content) ≡ true
    → any_line part (pieces (with_content flag content iscontinue seek true ls)) ≡ true
unfolding with_content any_line pieces
any_line-new part flag content iscontinue seek [] h c = cc
any_line-new part flag content iscontinue seek (l ∷ ls) h c = elim (Bool-cases (contains l flag)) [
  | inl here ↦ rw here (
      pieces-any part l content (with_content flag content iscontinue seek iscontinue ls) seek
      ∙ rw c refl)
  | inr other ↦ rw other (
      any_line-append part (split l) (pieces (with_content flag content iscontinue seek true ls))
      ∙ ground (arith, any_line-new part flag content iscontinue seek ls, other, h))
]

parts-IsWithin : (n : ℕ) (a b : List Text) → IsWithin n (a ++ b) → IsWithin n a × IsWithin n b
parts-IsWithin n [] b h = (tt, h)
parts-IsWithin n (l ∷ a) b h = let (k, m) = parts-IsWithin n a b h.1 in ((h.0, k), m)

pieces-IsWithin :
    (n : ℕ) (l content : Text) (ls : List Text) (seek : Bool)
    → IsWithin n (split content)
    → IsWithin n (split l)
    → IsWithin n (pieces ls)
    → IsWithin n (pieces (if seek then l ∷ (content ∷ ls) else content ∷ (l ∷ ls)))
unfolding pieces
pieces-IsWithin n l content ls true c h k = IsWithin-append n _ _ h (IsWithin-append n _ _ c k)
pieces-IsWithin n l content ls false c h k = IsWithin-append n _ _ c (IsWithin-append n _ _ h k)

-- The lines stay short.
pub with_content-IsWithin :
    (n : ℕ) (flag content : Text) (iscontinue seek go : Bool) (ls : List Text)
    → IsWithin n (split content)
    → IsWithin n (pieces ls)
    → IsWithin n (pieces (with_content flag content iscontinue seek go ls))
unfolding with_content pieces
with_content-IsWithin n flag content iscontinue seek go [] c h = tt
with_content-IsWithin n flag content iscontinue seek go (l ∷ ls) c h =
    let (k, m) = parts-IsWithin n (split l) (pieces ls) h in
    elim (Bool-cases (contains l flag && go)) [
      | inl here ↦ rw here (
          pieces-IsWithin n l content (with_content flag content iscontinue seek iscontinue ls) seek
            c k (with_content-IsWithin n flag content iscontinue seek iscontinue ls c m))
      | inr other ↦ rw other (
          IsWithin-append n (split l) _ k
            (with_content-IsWithin n flag content iscontinue seek go ls c m))
    ]

length-pieces :
    (l content : Text) (ls : List Text) (seek : Bool)
    → length (pieces (if seek then l ∷ (content ∷ ls) else content ∷ (l ∷ ls)))
      ≡ length (split content) + length (split l) + length (pieces ls)
unfolding pieces
length-pieces l content ls true = omega (
  arith,
  length-append (split l) (split content ++ pieces ls),
  length-append (split content) (pieces ls),
)
length-pieces l content ls false = omega (
  arith,
  length-append (split content) (split l ++ pieces ls),
  length-append (split l) (pieces ls),
)

-- With `iscontinue` false there are at most as many lines more as the content has.
pub length-with_content :
    (flag content : Text) (seek go : Bool) (ls : List Text)
    → length (pieces (with_content flag content false seek go ls))
      ≤ (if go then length (split content) else 0) + length (pieces ls)
unfolding with_content pieces
length-with_content flag content seek go [] = omega arith
length-with_content flag content seek false (l ∷ ls) = elim (Bool-cases (contains l flag)) [
  | inl here ↦ rw here (
      omega (
        arith,
        length-append (split l) (pieces ls),
        length-append (split l) (pieces (with_content flag content false seek false ls)),
        length-with_content flag content seek false ls,
      ))
  | inr other ↦ rw other (
      omega (
        arith,
        length-append (split l) (pieces ls),
        length-append (split l) (pieces (with_content flag content false seek false ls)),
        length-with_content flag content seek false ls,
      ))
]
length-with_content flag content seek true (l ∷ ls) = elim (Bool-cases (contains l flag)) [
  | inl here ↦ rw here (
      omega (
        arith,
        length-pieces l content (with_content flag content false seek false ls) seek,
        length-append (split l) (pieces ls),
        length-with_content flag content seek false ls,
      ))
  | inr other ↦ rw other (
      omega (
        arith,
        length-append (split l) (pieces ls),
        length-append (split l) (pieces (with_content flag content false seek true ls)),
        length-with_content flag content seek true ls,
      ))
]
