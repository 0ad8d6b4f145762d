-- ===== src/Autoproto/Replace/Endless.antt =====
-- Files on which replace of autoproto/autoprotocol.cc does not end.
use ec_server.Base.{
  ℕ, zero, suc, ◌<◌, ◌≡◌, refl, sym, ap, ◌∙◌, List, [], ◌∷◌, ◌++◌, none, some, Bool, true, false,
  length, take, Text, starts_with, contains, contains-nil, arith, ◌==◌, Bool-cases, inl, inr, ◌⊎◌,
  ◌≢◌,
}
use ec_server.Autoproto.Streams.{Files, open_in, Command, scan, getline, stop_state, full, newline}
use ec_server.Autoproto.Lines.{split, IsWithin, any_line, split-cons, head_len, getline_lem}
use ec_server.Autoproto.Replace.{room, check_loop, checkcontent, replace}
use ec_server.Autoproto.Replace.Runs.{check_loop-failed}

starts_with-take :
    (n : ℕ) (line part : Text)
    → starts_with line part ≡ false
    → starts_with (take n line) part ≡ false
unfolding starts_with
starts_with-take n line [] h = cc
starts_with-take zero line (b ∷ part) h = refl
starts_with-take (suc n) [] (b ∷ part) h = refl
starts_with-take (suc n) (c ∷ line) (b ∷ part) h = ground (arith, starts_with-take n line part)

pub contains-take :
    (n : ℕ) (line part : Text) → contains line part ≡ false → contains (take n line) part ≡ false
unfolding contains starts_with
contains-take n line [] h = cc (contains-nil line)
contains-take zero line (b ∷ part) h = refl
contains-take (suc n) [] (b ∷ part) h = refl
contains-take (suc n) (c ∷ line) (b ∷ part) h =
    ground (arith, starts_with-take n line part, contains-take n line (b ∷ part))

-- A first line that is longer than n fills the buffer.
scan-full :
    (n : ℕ) (text l : Text) (ls : List Text)
    → split text ≡ l ∷ ls
    → n < length l
    → (rest : Text) × (scan n text ≡ (take n l, rest, full))
unfolding split scan
scan-full n [] l ls h k = absurd (omega (arith, ap head_len h))
scan-full zero (c ∷ text) l ls h k = elim (Bool-cases (c == newline)) [
  | inl e ↦ let first = rw e at h in absurd (omega (arith, ap head_len first))
  | inr e ↦ (c ∷ text, rw e refl)
]
scan-full (suc n) (c ∷ text) l ls h k = elim (Bool-cases (c == newline)) [
  | inl e ↦ let first = rw e at h in absurd (omega (arith, ap head_len first))
  | inr e ↦
      let (l', ls', s) = split-cons text in
      let first : (c ∷ l') ∷ ls' ≡ l ∷ ls = rw (e, s) at h in
      let (rest, at) = scan-full n text l' ls' s (omega (arith, ap head_len first)) in
      (rest, rw e (rw at cc))
]

stop_state-full :
    (line rest : Text)
    → stop_state (line, rest, full) ≡ (line, record { rest = rest; eof = false; fail = true })
unfolding stop_state
stop_state-full [] rest = refl
stop_state-full (c ∷ line) rest = refl

append-cons-ne_nil : (a : List Text) (l : Text) (ls : List Text) → a ++ l ∷ ls ≢ []
append-cons-ne_nil [] l ls h = cc
append-cons-ne_nil (x ∷ a) l ls h = cc

-- The loop stops at a line that is longer than n, and waits for an end that it never sees.
check_loop-long :
    (n fuel : ℕ) (content text l : Text) (a ls : List Text)
    → split text ≡ a ++ l ∷ ls
    → IsWithin n a
    → n < length l
    → any_line content (a ++ l ∷ []) ≡ false
    → contains [] content ≡ false
    → check_loop n fuel content (open_in (some text)) ≡ none
unfolding check_loop open_in any_line
check_loop-long n zero content text l a ls h w k none_of c = refl
check_loop-long n (suc fuel) content text l [] ls h w k none_of c =
    let (rest, at) = scan-full n text l ls h k in
    let e : getline n (open_in (some text))
        ≡ (take n l, record { rest = rest; eof = false; fail = true }) =
      unfold getline open_in in (ap stop_state at ∙ stop_state-full (take n l) rest) in
    let short : contains (take n l) content ≡ false = contains-take n l content (ground arith) in
    rw (e, check_loop) (rw short (rw e (check_loop-failed n fuel content rest c)))
check_loop-long n (suc fuel) content text l (l' ∷ a) ls h w k none_of c =
    let (ifs, e, next) = getline_lem n text l' (a ++ l ∷ ls) h w.0 in
    let other : contains l' content ≡ false = ground arith in
    elim next [
      | inl (last, ended) ↦ absurd (append-cons-ne_nil a l ls last)
      | inr (rest, more, at) ↦
          rw (e, check_loop)
            (rw other (
              rw e (
                rw at
                  (check_loop-long n fuel content rest l a ls (sym more) w.1 k (ground arith) c))))
    ]

-- replace does not end, however long it runs, if the text that is looked for is not empty, and the file is
-- not there, or it has a line of more than 1023 bytes and that text is not in the lines up to this one.
pub replace-endless :
    (system : Command → Files → Files) (fuel : ℕ) (file flag content chkcontent : Text)
    (iscontinue seek : Bool) (files : Files)
    → contains [] chkcontent ≡ false
    → (files file ≡ none)
      ⊎ ((text : Text) × (l : Text) × (a : List Text) × (ls : List Text) × (files file ≡ some text)
          × (split text ≡ a ++ l ∷ ls)
          × IsWithin room a
          × (room < length l)
          × (any_line chkcontent (a ++ l ∷ []) ≡ false))
    → replace system fuel file flag content chkcontent iscontinue seek files ≡ none
unfolding replace checkcontent open_in
replace-endless system fuel file flag content chkcontent iscontinue seek files c (inl e) =
    let failed : checkcontent fuel file chkcontent files ≡ none =
      rw e (check_loop-failed room fuel chkcontent [] c) in
    rw (failed, replace) refl
replace-endless system fuel file flag content chkcontent iscontinue seek files c
      (inr (text, l, a, ls, e, h, w, k, new)) =
    let failed : checkcontent fuel file chkcontent files ≡ none =
      rw e (check_loop-long room fuel chkcontent text l a ls h w k new c) in
    rw (failed, replace) refl
