-- ===== src/Autoproto/Streams.antt =====
-- What autoproto/autoprotocol.cc uses of the C++ streams: a file that is read line by line through a
-- buffer of 1024 bytes. A file is its bytes, none of which is NUL.
use ec_server.Base.{
  ◌++◌, ◌&&◌, ltb, codes, contains, starts_with, arith, ℕ, zero, suc, ◌≡◌, [], ◌∷◌, Option, none,
  some, Bool, true, false, refl, ◌||◌, ◌==◌, if◌then◌else◌, Text, text_eq,
}

-- The files by name.
abbrev pub Files : Type 0
Files = Text → Option Text

unfoldable pub set_file : Text → Option Text → Files → Files
set_file name text files = λ f. if text_eq name f then text else files f

-- The state of a stream that is read: what is to come, eofbit and failbit.
pub record Input : Type 0 where
  pub rest : Text
  pub eof : Bool
  pub fail : Bool

-- A file that is not there sets failbit and not eofbit.
unfoldable pub open_in : Option Text → Input
open_in none = record { rest = []; eof = false; fail = true }
open_in (some text) = record { rest = text; eof = false; fail = false }

abbrev pub newline : ℕ
newline = 10

pub data Stop : Type 0 where
  at_end at_newline full : Stop

-- At most n bytes up to a newline, which is taken and not kept.
unfoldable pub scan : ℕ → Text → Text × Text × Stop
scan n [] = ([], [], at_end)
scan zero (c ∷ text) = if c == newline then ([], text, at_newline) else ([], c ∷ text, full)
scan (suc n) (c ∷ text) =
    let (line, rest, stop) = scan n text in
    if c == newline then ([], text, at_newline) else (c ∷ line, rest, stop)

unfoldable pub stop_state : Text × Text × Stop → Text × Input
stop_state ([], rest, at_end) = ([], record { rest = rest; eof = true; fail = true })
stop_state (c ∷ line, rest, at_end) = (c ∷ line, record { rest = rest; eof = true; fail = false })
stop_state (line, rest, at_newline) = (line, record { rest = rest; eof = false; fail = false })
stop_state (line, rest, full) = (line, record { rest = rest; eof = false; fail = true })

-- `getline (buffer, n + 1)`: n bytes and a NUL. A line that is longer sets failbit; on a stream that has
-- one of the bits, nothing is taken.
unfoldable pub getline : ℕ → Input → Text × Input
unfolding scan stop_state
getline n ifs =
    if ifs.eof || ifs.fail then ([], record ifs { fail = true }) else stop_state (scan n ifs.rest)

-- What std::system is asked to do: a line for the shell.
abbrev pub Command : Type 0
Command = Text

abbrev pub rm_rf : Text → Command
rm_rf p = codes "rm -rf " ++ p

abbrev pub mv : Text → Text → Command
mv p q = codes "mv " ++ (p ++ (codes " " ++ q))

-- Letters, digits, dots and underscores, which stand for themselves in such a line.
unfoldable pub plain : Text → Bool
plain [] = true
plain (c ∷ cs) =
    ((ltb 47 c && ltb c 58)
      || ((ltb 64 c && ltb c 91) || ((ltb 96 c && ltb c 123) || ((c == 46) || (c == 95)))))
    && plain cs

-- The name of a file of the working directory that begins with a letter.
unfoldable pub plain_name : Text → Bool
unfolding plain
plain_name [] = false
plain_name (c ∷ cs) = ((ltb 64 c && ltb c 91) || (ltb 96 c && ltb c 123)) && plain cs

-- What the commands `rm` and `mv` do to files with such names, and to those with a dot in front.
pub record IsShell (system : Command → Files → Files) : Type 0 where
  pub removed :
      (p f : Text) (files : Files)
      → plain_name p ≡ true
      → system (rm_rf p) files f ≡ (if text_eq p f then none else files f)
  pub moved :
      (p q f : Text) (text : Text) (files : Files)
      → plain_name p ≡ true
      → plain_name q ≡ true
      → files (codes "." ++ p) ≡ some text
      → text_eq (codes "." ++ p) q ≡ false
      → system (mv (codes "." ++ p) q) files f
        ≡ (if text_eq q f then some text else if text_eq (codes "." ++ p) f then none else files f)

pub plain-append : (p q : Text) → plain p ≡ true → plain q ≡ true → plain (p ++ q) ≡ true
unfolding plain
plain-append [] q h k = k
plain-append (c ∷ p) q h k = ground (arith, plain-append p q)

pub plain_name-append :
    (p q : Text) → plain_name p ≡ true → plain q ≡ true → plain_name (p ++ q) ≡ true
unfolding plain_name
plain_name-append [] q h k = cc
plain_name-append (c ∷ p) q h k = ground (arith, plain-append p q)

plain-no_slash : (p : Text) → plain p ≡ true → contains p (codes "/") ≡ false
unfolding plain contains starts_with
plain-no_slash [] h = refl
plain-no_slash (c ∷ p) h = ground (arith, plain-no_slash p)

pub plain_name-no_slash : (p : Text) → plain_name p ≡ true → contains p (codes "/") ≡ false
unfolding plain_name contains starts_with
plain_name-no_slash [] h = refl
plain_name-no_slash (c ∷ p) h = ground (arith, plain-no_slash p)
