-- ===== src/Autoproto/Main.antt =====
-- autoBuild, autoBuildMakefile and main of autoproto/autoprotocol.cc. `none` is also an exception, such
-- as that of `replace` for the name of a file with fewer than four letters.
use ec_server.Base.{
  ℕ, zero, suc, ◌-◌, List, [], ◌∷◌, ◌++◌, Option, none, some, true, false, ltb, length, take,
  if◌then◌else◌, ◌>>=◌, Text, codes, text_eq, contains,
}
use ec_server.Autoproto.Streams.{Files, Input, open_in, getline, Command, rm_rf, mv}
use ec_server.Autoproto.Types.{CProtocol, CStructure}
use ec_server.Autoproto.Load.{Element, load_xml}
use ec_server.Autoproto.Replace.{room, replace, append_file}
use ec_server.Autoproto.Build.{protocol_h, auto_build_protocol, auto_build_handler, end_line}
use ec_server.Autoproto.Build.Structures.{is_y, enum_texts, struct_text, struct_head, end_struct}

abbrev pub makefile : Text
makefile = codes "Makefile"

abbrev pub tab3 : Text
tab3 = codes "            "

-- `tmpFile.replace (tmpFile.size () - 4, 4, "")`
unfoldable pub without_suffix : Text → Option Text
without_suffix file = if ltb (length file) 4 then none else some (take (length file - 4) file)

-- The line for the object file of the handler.
unfoldable pub object_line : Text → Text → Text → Text
object_line file handler base =
    tab3
    ++ (codes "handler/"
        ++ ((if text_eq file (codes "auto") then handler else base) ++ codes ".o \\"))

-- What autoBuildMakefile, which nothing calls, copies.
unfoldable pub makefile_loop : ℕ → Text → Input → Option Text
unfolding end_line
makefile_loop zero file ifs = none
makefile_loop (suc fuel) file ifs = elim ifs.eof [
  | true ↦ some []
  | false ↦
      let line = (getline room ifs).0 in
      makefile_loop fuel file (getline room ifs).1 >>= λ rest. some (
        end_line line
        ++ ((if contains line (codes "virtual.o")
              then end_line (tab3 ++ (codes "handler/" ++ (file ++ codes ".o \\")))
              else [])
            ++ rest))
]

module _ (system : Command → Files → Files) where
  unfoldable pub auto_build_makefile : ℕ → Text → Files → Option Files
  unfolding makefile_loop
  auto_build_makefile fuel file files =
      makefile_loop fuel file (open_in (files makefile)) >>= λ written. some (
        system (mv (codes ".Makefile.tmp") makefile)
          (system (rm_rf makefile) (append_file (codes ".Makefile.tmp") written files)))

  -- The structure and its enumeration in protocol.h.
  unfoldable pub build_structure : ℕ → CStructure → Files → Option Files
  unfolding struct_text enum_texts end_struct
  build_structure fuel s files = struct_text s >>= λ members.
      let enums = enum_texts s.vec_member ([], []) in
      replace system fuel protocol_h (codes "// structs") members (struct_head s ++ codes " {")
        false true files
      >>= λ r.
          replace system fuel protocol_h (codes "// enums") (enums.0 ++ end_struct) enums.1 false
            true r.1
          >>= λ r'. some r'.1

  unfoldable pub auto_build : ℕ → List CProtocol → Files → Option Files
  unfolding without_suffix object_line
  auto_build fuel [] files = some files
  auto_build fuel (p ∷ ps) files = without_suffix p.file >>= λ base.
      auto_build_protocol system fuel p.name p.number (is_y p.return_protocol) p.note files
      >>= λ files1. auto_build_handler fuel p.name p.file p.handler files1 >>= λ files2.
          let content = object_line p.file p.handler base in
          replace system fuel makefile (codes "virtual.o") content content false true files2
          >>= λ r. build_structure fuel p.structure r.1 >>= λ files3. auto_build fuel ps files3

  -- What main does with the tree of its file.
  unfoldable pub main : ℕ → Option Element → Files → Option Files
  unfolding load_xml
  main fuel document files = load_xml document [] >>= λ protocols.
      let structs = codes "// structs" in
      let enums = codes "// enums" in
      let string_h = codes "#include <string.h>" in
      replace system fuel protocol_h (codes "};") structs structs false true files >>= λ r1.
      replace system fuel protocol_h (codes "};") enums enums false true r1.1 >>= λ r2.
      replace system fuel protocol_h (codes "#pragma pack(1)") string_h string_h false false r2.1
      >>= λ r3. auto_build fuel protocols r3.1
