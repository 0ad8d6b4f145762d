-- ===== src/Autoproto/Replace.antt =====
-- checkcontent and replace of autoproto/autoprotocol.cc. The loops that read a file take fuel, a round
-- for each call of `getline`, and `none` says that it has run out. Files of directories that are there
-- can be written.
pub mod Runs
pub mod Pieces
pub mod Outcomes
pub mod Endless
pub mod Twice
use ec_server.Base.{
  ℕ, zero, suc, ◌+◌, ◌≡◌, List, [], ◌∷◌, ◌++◌, Option, none, some, Bool, true, false, ◌&&◌, not,
  if◌then◌else◌, ◌>>=◌, Text, codes, contains,
}
use ec_server.Autoproto.Streams.{
  Files, set_file, Input, open_in, getline, newline, Command, rm_rf, mv,
}

-- The bytes that a buffer has room for.
abbrev pub room : ℕ
room = 1023

unfoldable pub check_loop : ℕ → ℕ → Text → Input → Option Bool
check_loop n zero content ifs = none
check_loop n (suc fuel) content ifs = elim ifs.eof [
  | true ↦ some false
  | false ↦ elim (contains (getline n ifs).0 content) [
    | true ↦ some true
    | false ↦ check_loop n fuel content (getline n ifs).1
  ]
]

unfoldable pub checkcontent : ℕ → Text → Text → Files → Option Bool
checkcontent fuel file content files = check_loop room fuel content (open_in (files file))

-- What one round writes, and the flag for the next.
unfoldable pub round : Text → Text → Bool → Bool → Bool → Text → Text × Bool
round flag content iscontinue seek flag_continue line =
    let whole = line ++ newline ∷ [] in
    let new = content ++ newline ∷ [] in
    if contains line flag && flag_continue
    then (if seek then whole ++ new else new ++ whole, iscontinue)
    else (whole, flag_continue)

-- What the loop writes into the other file.
unfoldable pub replace_loop : ℕ → ℕ → Text → Text → Bool → Bool → Bool → Input → Option Text
replace_loop n zero flag content iscontinue seek flag_continue ifs = none
replace_loop n (suc fuel) flag content iscontinue seek flag_continue ifs = elim ifs.eof [
  | true ↦ some []
  | false ↦
      let (written, next) = round flag content iscontinue seek flag_continue (getline n ifs).0 in
      replace_loop n fuel flag content iscontinue seek next (getline n ifs).1 >>= λ rest.
      some (written ++ rest)
]

-- "." + sFile + ".tmp"
unfoldable pub dst_file : Text → Text
dst_file file = codes "." ++ (file ++ codes ".tmp")

-- A file that is opened with `app` is written at its end.
unfoldable pub append_file : Text → Text → Files → Files
append_file file text files = elim (files file) [
  | none ↦ set_file file (some text) files
  | some old ↦ set_file file (some (old ++ text)) files
]

-- With a slash in its name the file would be in a directory that begins with a dot, and is not there: it
-- cannot be opened, and what is written is lost.
unfoldable pub write_dst : Text → Text → Files → Files
unfolding dst_file append_file contains
write_dst file text files =
    if contains file (codes "/") then files else append_file (dst_file file) text files

module _ (system : Command → Files → Files) where
  unfoldable pub replace :
      ℕ → Text → Text → Text → Text → Bool → Bool → Files → Option (Bool × Files)
  replace fuel file flag content chkcontent iscontinue seek files =
      elim (checkcontent fuel file chkcontent files) [
        | none ↦ none
        | some true ↦ some (false, files)
        | some false ↦
            replace_loop room fuel flag content iscontinue seek true (open_in (files file))
            >>= λ written. some (
              true,
              system (mv (dst_file file) file) (system (rm_rf file) (write_dst file written files)),
            )
      ]
