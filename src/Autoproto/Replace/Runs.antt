-- ===== src/Autoproto/Replace/Runs.antt =====
-- The loops of checkcontent and replace over the lines of a file.
use ec_server.Base.{
  ℕ, zero, suc, ◌<◌, ◌≡◌, refl, sym, ap, List, [], ◌∷◌, ◌++◌, none, some, Bool, true, false, ◌&&◌,
  if◌then◌else◌, length, Text, contains, arith, inl, inr, Bool-cases, append_assoc,
}
use ec_server.Autoproto.Streams.{Input, open_in, getline}
use ec_server.Autoproto.Lines.{split, unlines, IsWithin, any_line, getline_lem, split-ne_nil}
use ec_server.Autoproto.Replace.{check_loop, round, replace_loop}

-- A stream that has failbit gives nothing more, and no loop sees its end.
pub check_loop-failed :
    (n fuel : ℕ) (content rest : Text)
    → contains [] content ≡ false
    → check_loop n fuel content (record { rest = rest; eof = false; fail = true }) ≡ none
unfolding check_loop getline
check_loop-failed n zero content rest c = refl
check_loop-failed n (suc fuel) content rest c =
    rw (c, check_loop) (check_loop-failed n fuel content rest c)

check_loop-ended :
    (n fuel : ℕ) (content : Text) (ifs : Input)
    → ifs.eof ≡ true
    → 0 < fuel
    → check_loop n fuel content ifs ≡ some false
unfolding check_loop
check_loop-ended n zero content ifs e k = absurd (omega arith)
check_loop-ended n (suc fuel) content ifs e k = rw (e, check_loop) refl

pub check_loop-lines :
    (n fuel : ℕ) (content text : Text) (ls : List Text)
    → split text ≡ ls
    → IsWithin n ls
    → length ls < fuel
    → check_loop n fuel content (open_in (some text)) ≡ some (any_line content ls)
unfolding check_loop any_line open_in
check_loop-lines n fuel content text [] h w k = absurd (split-ne_nil text h)
check_loop-lines n zero content text (l ∷ ls) h w k = absurd (omega arith)
check_loop-lines n (suc fuel) content text (l ∷ ls) h w k =
    let (ifs, e, next) = getline_lem n text l ls h w.0 in
    let rest-eq : check_loop n fuel content ifs ≡ some (any_line content ls) = elim next [
      | inl (last, ended) ↦ rw last (check_loop-ended n fuel content ifs ended (omega (arith, k)))
      | inr (rest, more, at) ↦
          rw at (check_loop-lines n fuel content rest ls (sym more) w.1 (omega (arith, k)))
    ] in
    elim (Bool-cases (contains l content)) [
      | inl found ↦ rw (e, check_loop) (rw found refl)
      | inr other ↦ rw (e, check_loop) (rw other (rw e rest-eq))
    ]

-- The lines with the content before or after the first that has the flag in it, or, with `iscontinue`,
-- each that has it.
unfoldable pub with_content : Text → Text → Bool → Bool → Bool → List Text → List Text
with_content flag content iscontinue seek go [] = []
with_content flag content iscontinue seek go (l ∷ ls) =
    if contains l flag && go
    then (if seek
        then l ∷ (content ∷ with_content flag content iscontinue seek iscontinue ls)
        else content ∷ (l ∷ with_content flag content iscontinue seek iscontinue ls))
    else l ∷ with_content flag content iscontinue seek go ls

replace_loop-ended :
    (n fuel : ℕ) (flag content : Text) (iscontinue seek go : Bool) (ifs : Input)
    → ifs.eof ≡ true
    → 0 < fuel
    → replace_loop n fuel flag content iscontinue seek go ifs ≡ some []
unfolding replace_loop
replace_loop-ended n zero flag content iscontinue seek go ifs e k = absurd (omega arith)
replace_loop-ended n (suc fuel) flag content iscontinue seek go ifs e k = rw (e, replace_loop) refl

unlines-with_content :
    (flag content l : Text) (iscontinue seek go : Bool) (ls : List Text)
    → (round flag content iscontinue seek go l).0
        ++ unlines (
            with_content flag content iscontinue seek
              (round flag content iscontinue seek go l).1
              ls)
      ≡ unlines (with_content flag content iscontinue seek go (l ∷ ls))
unfolding round with_content unlines
unlines-with_content flag content l iscontinue true go ls =
    elim (Bool-cases (contains l flag && go)) [
      | inl here ↦ rw here (simp append_assoc)
      | inr other ↦ rw other (simp append_assoc)
    ]
unlines-with_content flag content l iscontinue false go ls =
    elim (Bool-cases (contains l flag && go)) [
      | inl here ↦ rw here (simp append_assoc)
      | inr other ↦ rw other (simp append_assoc)
    ]

pub replace_loop-lines :
    (n fuel : ℕ) (flag content : Text) (iscontinue seek go : Bool) (text : Text) (ls : List Text)
    → split text ≡ ls
    → IsWithin n ls
    → length ls < fuel
    → replace_loop n fuel flag content iscontinue seek go (open_in (some text))
      ≡ some (unlines (with_content flag content iscontinue seek go ls))
unfolding replace_loop open_in unlines with_content
replace_loop-lines n fuel flag content iscontinue seek go text [] h w k =
    absurd (split-ne_nil text h)
replace_loop-lines n zero flag content iscontinue seek go text (l ∷ ls) h w k = absurd (omega arith)
replace_loop-lines n (suc fuel) flag content iscontinue seek go text (l ∷ ls) h w k =
    let (ifs, e, next) = getline_lem n text l ls h w.0 in
    let next_go = (round flag content iscontinue seek go l).1 in
    let rest-eq : replace_loop n fuel flag content iscontinue seek next_go ifs
        ≡ some (unlines (with_content flag content iscontinue seek next_go ls)) =
      elim next [
        | inl (last, ended) ↦ rw last (
            replace_loop-ended n fuel flag content iscontinue seek next_go ifs ended
              (omega (arith, k)))
        | inr (rest, more, at) ↦ rw at (
            replace_loop-lines n fuel flag content iscontinue seek next_go rest ls (sym more) w.1
              (omega (arith, k)))
      ] in
    rw (e, replace_loop)
      (rw rest-eq (ap some (unlines-with_content flag content l iscontinue seek go ls)))
