-- ===== src/Autoproto/Build/Protocols.antt =====
-- What autoBuildProtocol of autoproto/autoprotocol.cc leaves in protocol.h, and in a second run.
use ec_server.Base.{
  ℕ, ◌+◌, ◌≤◌, ◌<◌, ◌≡◌, refl, [], ◌∷◌, none, some, Bool, true, false, if◌then◌else◌, length, Text,
  codes, arith, contains_self,
}
use ec_server.Autoproto.Streams.{plain, plain_name, Files, Command, IsShell}
use ec_server.Autoproto.Lines.{split, IsWithin, any_line}
use ec_server.Autoproto.Replace.{room, dst_file}
use ec_server.Autoproto.Replace.Twice.{updated, IsReady, IsBuilt, replace-twice}
use ec_server.Autoproto.Build.{protocol_h, protocol_line, return_line, auto_build_protocol}

-- One line that the buffer has room for.
pub record IsLine (line : Text) : Type 0 where
  pub single : split line ≡ line ∷ []
  pub short : length line ≤ room

-- A header that the generator can read and write: it has a line with the text before which new lines
-- go, its lines fit the buffer, no earlier run has left the file that replace writes, and there is fuel.
pub record IsHeader (fuel : ℕ) (files : Files) (text : Text) : Type 0 where
  pub there : files protocol_h ≡ some text
  pub clear : files (dst_file protocol_h) ≡ none
  pub within : IsWithin room (split text)
  pub flagged : any_line (codes "};") (split text) ≡ true
  pub fueled : length (split text) + 4 < fuel

checks-IsLine : (line : Text) → IsLine line → any_line line (split line) ≡ true
checks-IsLine line h = rw h.single (unfold any_line in (rw (contains_self line) refl))

fits-IsLine : (line : Text) → IsLine line → IsWithin room (split line)
fits-IsLine line h = rw h.single (h.short, tt)

-- autoBuildProtocol ends on such a header, if each of its lines is one that fits the buffer: the header is
-- then its lines with the first of the two before the first line that has the text, unless it is there, and
-- with the second in the same way after that; other files stay, and a second run changes nothing.
pub auto_build_protocol-twice :
    (system : Command → Files → Files) (shell : IsShell system) (fuel : ℕ) (name number : Text)
    (return_protocol : Bool) (note : Text) (files : Files) (text : Text)
    → let line = protocol_line name number note in
      let line' = if return_protocol then return_line name else line in
      IsHeader fuel files text
      → IsLine line
      → IsLine line'
      → (files' : Files) × (text' : Text) × (auto_build_protocol system fuel name number
            return_protocol note files
          ≡ some files')
        × (auto_build_protocol system fuel name number return_protocol note files' ≡ some files')
        × IsBuilt protocol_h line line'
            (updated (codes "};") line' line' false (updated (codes "};") line line false text))
            text
            files
            files'
            text'
unfolding auto_build_protocol
auto_build_protocol-twice system shell fuel name number return_protocol note files text h one one' =
    let line = protocol_line name number note in
    let line' : Text = if return_protocol then return_line name else line in
    let flag = codes "};" in
    let size : length (split line) ≡ 1 = rw one.single refl in
    let size' : length (split line') ≡ 1 = rw one'.single refl in
    let ready : IsReady fuel protocol_h flag line line flag line' line' files text = record {
      named = unfold plain_name plain in refl;
      there = h.there;
      clear = h.clear;
      within = h.within;
      flagged = h.flagged;
      flagged' = h.flagged;
      fits = fits-IsLine line one;
      fits' = fits-IsLine line' one';
      checks = checks-IsLine line one;
      checks' = checks-IsLine line' one';
      fueled = omega (arith, h.fueled, size, size');
    } in
    let (r, r', text', run, run', again, again', built) =
      replace-twice system shell fuel protocol_h flag line line flag line' line' false files text
        ready in
    (r'.1, text', rw run (rw run' refl), rw again (rw again' refl), built)
