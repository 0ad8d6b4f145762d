-- ===== src/Autoproto/Replace/Twice.antt =====
-- What a call of replace of autoproto/autoprotocol.cc leaves for the calls after it.
use ec_server.Base.{
  if◌then◌else◌, ℕ, ◌+◌, ◌≤◌, ◌<◌, ◌≡◌, refl, ap, ◌∙◌, [], ◌∷◌, ◌++◌, none, some, Bool, true, false,
  length, Text, text_eq, arith, inl, inr, Bool-cases, length-append,
}
use ec_server.Autoproto.Streams.{plain_name, Files, Command, IsShell}
use ec_server.Autoproto.Lines.{split, unlines, IsWithin, any_line, IsWithin-append, any_line-append}
use ec_server.Autoproto.Replace.{room, replace, dst_file}
use ec_server.Autoproto.Replace.Runs.{with_content}
use ec_server.Autoproto.Replace.Pieces.{
  pieces, split-unlines, pieces-split, any_line-keeps, any_line-new, with_content-IsWithin,
  length-with_content,
}
use ec_server.Autoproto.Replace.Outcomes.{IsReadable, replace-found, replace-Replaced}

-- The text with the content beside the first line that has the flag, each line ended; a text that has
-- what is looked for already is left as it is.
unfoldable pub updated : Text → Text → Text → Bool → Text → Text
updated flag content chkcontent seek text =
    if any_line chkcontent (split text)
    then text
    else unlines (with_content flag content false seek true (split text))

-- Whatever the call did: the file is the updated one, what is in a line of the old one is in a line of it,
-- so is the text that is looked for, it is not much longer, and nothing else is changed.
pub record Left (file flag content chkcontent : Text) (seek : Bool) (text : Text)
    (files files' : Files) (text' : Text) : Type 0 where
  pub exact : text' ≡ updated flag content chkcontent seek text
  pub there : files' file ≡ some text'
  pub cleared : files' (dst_file file) ≡ none
  pub others :
      (f : Text) → text_eq file f ≡ false → text_eq (dst_file file) f ≡ false → files' f ≡ files f
  pub within : IsWithin room (split text')
  pub few : length (split text') ≤ length (split text) + length (split content) + 1
  pub kept : (part : Text) → any_line part (split text) ≡ true → any_line part (split text') ≡ true
  pub has : any_line chkcontent (split text') ≡ true

module _ (system : Command → Files → Files) (shell : IsShell system) where
  pub replace-Left :
      (fuel : ℕ) (file flag content chkcontent : Text) (seek : Bool) (files : Files) (text : Text)
      → plain_name file ≡ true
      → files file ≡ some text
      → files (dst_file file) ≡ none
      → IsReadable fuel text
      → IsWithin room (split content)
      → any_line flag (split text) ≡ true
      → any_line chkcontent (split content) ≡ true
      → (r : Bool) × (files' : Files) × (text' : Text) × (replace system fuel file flag content
            chkcontent false seek files
          ≡ some (r, files'))
        × Left file flag content chkcontent seek text files files' text'
  unfolding updated
  replace-Left fuel file flag content chkcontent seek files text named e clear r fits flagged
        checks =
      elim (Bool-cases (any_line chkcontent (split text))) [
        | inl found ↦ (
          false,
          files,
          text,
          replace-found system shell fuel file flag content chkcontent false seek files text e r
              found,
          record {
            exact = rw (found, updated) refl;
            there = e;
            cleared = clear;
            others = λ f h k. refl;
            within = r.within;
            few = omega arith;
            kept = λ part h. h;
            has = found;
          },
        )
        | inr new ↦
            let (files', done, replaced) =
              replace-Replaced system shell fuel file flag content chkcontent false seek files text
                named e clear r new in
            let ls = with_content flag content false seek true (split text) in
            let lines : split (unlines ls) ≡ pieces ls ++ ([] ∷ []) = split-unlines ls in
            (
              true,
              files',
              unlines ls,
              done,
              record {
                exact = rw (new, updated) refl;
                there = replaced.new;
                cleared = replaced.cleared;
                others = replaced.others;
                within = rw lines (
                    IsWithin-append room (pieces ls) ([] ∷ [])
                      (with_content-IsWithin room flag content false seek true (split text) fits
                        (rw (pieces-split text) r.within))
                      (omega arith, tt));
                few = rw lines (
                    omega (
                      arith,
                      length-append (pieces ls) ([] ∷ []),
                      length-with_content flag content seek true (split text),
                      ap length (pieces-split text),
                    ));
                kept = λ part h. rw lines (
                    any_line-append part (pieces ls) ([] ∷ [])
                    ∙ rw
                        (any_line-keeps part flag content false seek true (split text)
                          (ap (any_line part) (pieces-split text) ∙ h))
                        refl);
                has = rw lines (
                    any_line-append chkcontent (pieces ls) ([] ∷ [])
                    ∙ rw
                        (any_line-new chkcontent flag content false seek (split text) flagged
                          checks)
                        refl);
              },
            )
      ]

-- A file, with a plain name, that two calls, with these two texts beside these two flags, can read and write: each flag is in
-- a line of it, all lines fit the buffer, no earlier run has left the file that replace writes, there is
-- fuel, and each text has a line with the text that is looked for.
pub record IsReady (fuel : ℕ) (file flag content chkcontent flag' content' chkcontent' : Text)
    (files : Files) (text : Text) : Type 0 where
  pub named : plain_name file ≡ true
  pub there : files file ≡ some text
  pub clear : files (dst_file file) ≡ none
  pub within : IsWithin room (split text)
  pub flagged : any_line flag (split text) ≡ true
  pub flagged' : any_line flag' (split text) ≡ true
  pub fits : IsWithin room (split content)
  pub fits' : IsWithin room (split content')
  pub checks : any_line chkcontent (split content) ≡ true
  pub checks' : any_line chkcontent' (split content') ≡ true
  pub fueled : length (split text) + length (split content) + length (split content') + 2 < fuel

-- The file holds the text that is expected, both texts that are looked for are in it, what is in a line of
-- the old text is in a line of the new, and no other file is changed.
pub record IsBuilt (file chkcontent chkcontent' expected text : Text) (files files' : Files)
    (text' : Text) : Type 0 where
  pub exact : text' ≡ expected
  pub there : files' file ≡ some text'
  pub cleared : files' (dst_file file) ≡ none
  pub within : IsWithin room (split text')
  pub kept : (part : Text) → any_line part (split text) ≡ true → any_line part (split text') ≡ true
  pub has : any_line chkcontent (split text') ≡ true
  pub has' : any_line chkcontent' (split text') ≡ true
  pub others :
      (f : Text) → text_eq file f ≡ false → text_eq (dst_file file) f ≡ false → files' f ≡ files f

-- Two calls, and both once more.
pub replace-twice :
    (system : Command → Files → Files) (shell : IsShell system) (fuel : ℕ)
    (file flag content chkcontent flag' content' chkcontent' : Text) (seek : Bool) (files : Files)
    (text : Text)
    → IsReady fuel file flag content chkcontent flag' content' chkcontent' files text
    → (r : Bool × Files) × (r' : Bool × Files) × (text' : Text) × (replace system fuel file flag
          content chkcontent false seek files
        ≡ some r)
      × (replace system fuel file flag' content' chkcontent' false seek r.1 ≡ some r')
      × (replace system fuel file flag content chkcontent false seek r'.1 ≡ some (false, r'.1))
      × (replace system fuel file flag' content' chkcontent' false seek r'.1 ≡ some (false, r'.1))
      × IsBuilt file chkcontent chkcontent'
          (updated flag' content' chkcontent' seek (updated flag content chkcontent seek text))
          text
          files
          r'.1
          text'
replace-twice system shell fuel file flag content chkcontent flag' content' chkcontent' seek files
      text h =
    let (r, files1, text1, run, left) =
      replace-Left system shell fuel file flag content chkcontent seek files text h.named h.there
        h.clear (record { within = h.within; fueled = omega (arith, h.fueled) }) h.fits h.flagged
        h.checks in
    let (r', files2, text2, run', left') =
      replace-Left system shell fuel file flag' content' chkcontent' seek files1 text1 h.named
        left.there left.cleared
        (record { within = left.within; fueled = omega (arith, h.fueled, left.few) }) h.fits'
        (left.kept flag' h.flagged') h.checks' in
    let readable : IsReadable fuel text2 = record {
      within = left'.within;
      fueled = omega (arith, h.fueled, left.few, left'.few);
    } in
    (
      (r, files1),
      (r', files2),
      text2,
      run,
      run',
      replace-found system shell fuel file flag content chkcontent false seek files2 text2
          left'.there readable (left'.kept chkcontent left.has),
      replace-found system shell fuel file flag' content' chkcontent' false seek files2 text2
          left'.there readable left'.has,
      record {
        exact = left'.exact ∙ ap (updated flag' content' chkcontent' seek) left.exact;
        there = left'.there;
        cleared = left'.cleared;
        within = left'.within;
        kept = λ part k. left'.kept part (left.kept part k);
        has = left'.kept chkcontent left.has;
        has' = left'.has;
        others = λ f k m. left'.others f k m ∙ left.others f k m;
      },
    )
