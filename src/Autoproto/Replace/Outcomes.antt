-- ===== src/Autoproto/Replace/Outcomes.antt =====
-- What replace of autoproto/autoprotocol.cc leaves, on a file that it can read to the end.
use ec_server.Base.{
  ◌++◌, ℕ, ◌<◌, ◌≡◌, ◌≢◌, refl, sym, ap, ◌∙◌, none, some, Bool, true, false, length, Text, codes,
  text_eq, text_eq-ne, text_eq_refl, arith, length-append,
}
use ec_server.Autoproto.Streams.{
  plain, plain_name, plain_name-append, plain_name-no_slash, Files, set_file, open_in, Command,
  rm_rf, mv, IsShell,
}
use ec_server.Autoproto.Lines.{split, unlines, IsWithin, any_line}
use ec_server.Autoproto.Replace.{
  room, checkcontent, replace, dst_file, append_file, write_dst, replace_loop,
}
use ec_server.Autoproto.Replace.Runs.{check_loop-lines, replace_loop-lines, with_content}

-- A file of lines that fit the buffer, for whose rounds there is fuel.
pub record IsReadable (fuel : ℕ) (text : Text) : Type 0 where
  pub within : IsWithin room (split text)
  pub fueled : length (split text) < fuel

pub checkcontent_lem :
    (fuel : ℕ) (file content : Text) (files : Files) (text : Text)
    → files file ≡ some text
    → IsReadable fuel text
    → checkcontent fuel file content files ≡ some (any_line content (split text))
unfolding checkcontent
checkcontent_lem fuel file content files text e r =
    rw e (check_loop-lines room fuel content text (split text) refl r.within r.fueled)

dst_file-ne : (file : Text) → file ≢ dst_file file
unfolding dst_file
dst_file-ne file e = absurd (omega (arith, ap length e, length-append file (codes ".tmp")))

-- The file is replaced, the file that replace writes is gone, and no other is changed.
pub record Replaced (file : Text) (written : Text) (files files' : Files) : Type 0 where
  pub new : files' file ≡ some written
  pub cleared : files' (dst_file file) ≡ none
  pub others :
      (f : Text) → text_eq file f ≡ false → text_eq (dst_file file) f ≡ false → files' f ≡ files f

module _ (system : Command → Files → Files) (shell : IsShell system) where
  pub replace-found :
      (fuel : ℕ) (file flag content chkcontent : Text) (iscontinue seek : Bool) (files : Files)
      (text : Text)
      → files file ≡ some text
      → IsReadable fuel text
      → any_line chkcontent (split text) ≡ true
      → replace system fuel file flag content chkcontent iscontinue seek files ≡ some (false, files)
  unfolding replace
  replace-found fuel file flag content chkcontent iscontinue seek files text e r found =
      rw (checkcontent_lem fuel file chkcontent files text e r, replace) (rw found refl)

  -- A file of the working directory whose name is of letters, digits, dots and underscores and begins with
  -- a letter, that is readable, and in whose lines the text that is looked for is not, while no earlier run
  -- has left .FILE.tmp: the new file is that of its lines with the content beside those with the flag,
  -- .FILE.tmp is gone, and no other file is changed.
  pub replace-Replaced :
      (fuel : ℕ) (file flag content chkcontent : Text) (iscontinue seek : Bool) (files : Files)
      (text : Text)
      → plain_name file ≡ true
      → files file ≡ some text
      → files (dst_file file) ≡ none
      → IsReadable fuel text
      → any_line chkcontent (split text) ≡ false
      → (files' : Files) × (replace system fuel file flag content chkcontent iscontinue seek files
          ≡ some (true, files'))
        × Replaced file
            (unlines (with_content flag content iscontinue seek true (split text)))
            files
            files'
  unfolding replace append_file set_file write_dst dst_file plain
  replace-Replaced fuel file flag content chkcontent iscontinue seek files text named e clear r
        new =
      let dst = dst_file file in
      let written = unlines (with_content flag content iscontinue seek true (split text)) in
      let files1 = set_file dst (some written) files in
      let files2 = system (rm_rf file) files1 in
      let loop : replace_loop room fuel flag content iscontinue seek true (open_in (files file))
          ≡ some written =
        rw e (
          replace_loop-lines room fuel flag content iscontinue seek true text (split text) refl
            r.within r.fueled) in
      let opened : write_dst file written files ≡ files1 =
        rw (plain_name-no_slash file named, write_dst) (rw (clear, append_file) refl) in
      let other : text_eq file dst ≡ false = text_eq-ne file dst (dst_file-ne file) in
      let back : text_eq dst file ≡ false = text_eq-ne dst file (λ h. dst_file-ne file (sym h)) in
      let at_dst : files2 dst ≡ some written =
        shell.removed file dst files1 named ∙ rw other (rw (text_eq_refl dst) refl) in
      let moved = λ (f : Text).
        shell.moved (file ++ codes ".tmp") file f written files2
          (plain_name-append file (codes ".tmp") named refl) named at_dst back in
      (
        system (mv dst file) files2,
        rw (checkcontent_lem fuel file chkcontent files text e r, replace)
            (rw new (
              rw loop
                (ap (λ fs. some (true, system (mv dst file) (system (rm_rf file) fs))) opened))),
        record {
          new = moved file ∙ rw (text_eq_refl file) refl;
          cleared = moved dst ∙ rw other (rw (text_eq_refl dst) refl);
          others =
              λ f h k. moved f ∙ rw (h, k) (shell.removed file f files1 named ∙ rw (h, k) refl);
        },
      )
