-- ===== src/Tests/Autoproto.antt =====
-- The protocol generator on a small header.
use ec_server.Base.{
  ◌≡◌, refl, [], ◌∷◌, ◌++◌, none, some, true, false, inl, if◌then◌else◌, Text, codes, text_eq,
  contains, starts_with, drop, ◌==◌, arith,
}
use ec_server.Autoproto.Streams.{Files, set_file, Command, plain, plain_name, IsShell}
use ec_server.Autoproto.Lines.{split, unlines, any_line}
use ec_server.Autoproto.Types.{CMember, CStructure, CProtocol}
use ec_server.Autoproto.Load.{element, load_xml}
use ec_server.Autoproto.Load.RoundTrip.{xml_protocols, AreProtocols, load_xml-xml_protocols}
use ec_server.Autoproto.Replace.{replace, dst_file}
use ec_server.Autoproto.Replace.Runs.{with_content}
use ec_server.Autoproto.Replace.Outcomes.{IsReadable, Replaced, replace-Replaced}
use ec_server.Autoproto.Replace.Endless.{replace-endless}
use ec_server.Autoproto.Replace.Twice.{updated, IsBuilt}
use ec_server.Autoproto.Build.{protocol_h, protocol_line, return_line, auto_build_protocol}
use ec_server.Autoproto.Build.Structures.{struct_text, struct_head, enum_texts, end_struct}
use ec_server.Autoproto.Build.Protocols.{IsLine, IsHeader, auto_build_protocol-twice}
use ec_server.Autoproto.Build.Rebuilt.{IsStructure, build_structure-twice}
use ec_server.Autoproto.Main.{build_structure}

-- What stands before the first space of a line, and what after it.
before : Text → Text
before [] = []
before (c ∷ cs) = if c == 32 then [] else c ∷ before cs

after : Text → Text
after [] = []
after (c ∷ cs) = if c == 32 then cs else after cs

plain-before : (p q : Text) → plain p ≡ true → before (p ++ 32 ∷ q) ≡ p
unfolding before plain
plain-before [] q h = refl
plain-before (c ∷ p) q h = ground (arith, plain-before p q)

plain-after : (p q : Text) → plain p ≡ true → after (p ++ 32 ∷ q) ≡ q
unfolding after plain
plain-after [] q h = refl
plain-after (c ∷ p) q h = ground (arith, plain-after p q)

move : Text → Text → Files → Files
unfolding set_file
move p q files = elim (files p) [
  | none ↦ files
  | some text ↦ set_file q (some text) (set_file p none files)
]

-- A shell that knows two commands.
run : Command → Files → Files
unfolding starts_with set_file before after move
run line files =
    if starts_with line (codes "rm -rf ")
    then set_file (drop 7 line) none files
    else move (before (drop 3 line)) (after (drop 3 line)) files

plain_name-plain : (p : Text) → plain_name p ≡ true → plain (codes "." ++ p) ≡ true
unfolding plain_name plain
plain_name-plain [] h = cc
plain_name-plain (c ∷ p) h = ground arith

run-IsShell : IsShell run
unfolding run set_file starts_with move
run-IsShell = record {
  removed = λ p f files h. refl;
  moved = λ p q f text files h k e other.
      rw
        (
          plain-before (codes "." ++ p) q (plain_name-plain p h),
          plain-after (codes "." ++ p) q (plain_name-plain p h),
        )
        (rw (e, move) refl);
}

abbrev header : Text
header = codes "enum {\n};\n// structs\n// enums\n"

abbrev files_with : Text → Files
files_with text = λ f. if text_eq protocol_h f then some text else none

header-IsHeader : IsHeader 10 (files_with header) header
unfolding split any_line contains text_eq dst_file
header-IsHeader = record {
  there = refl;
  clear = refl;
  within = omega arith;
  flagged = refl;
  fueled = omega arith;
}

abbrev line : Text
line = protocol_line (codes "CT_A") (codes "auto") (codes "n")

abbrev line' : Text
line' = return_line (codes "CT_A")

line-IsLine : IsLine line
unfolding protocol_line split text_eq
line-IsLine = record { single = refl; short = omega arith }

line'-IsLine : IsLine line'
unfolding return_line split
line'-IsLine = record { single = refl; short = omega arith }

auto_build_protocol-twice_example :
    (files' : Files) × (text' : Text) × (auto_build_protocol run 10
        (codes "CT_A")
        (codes "auto")
        true
        (codes "n")
        (files_with header)
      ≡ some files')
    × (auto_build_protocol run 10 (codes "CT_A") (codes "auto") true (codes "n") files'
        ≡ some files')
    × IsBuilt protocol_h line line'
        (updated (codes "};") line' line' false (updated (codes "};") line line false header))
        header
        (files_with header)
        files'
        text'
auto_build_protocol-twice_example =
    auto_build_protocol-twice run run-IsShell 10 (codes "CT_A") (codes "auto") true (codes "n")
      (files_with header) header header-IsHeader line-IsLine line'-IsLine

kinds : CMember
kinds = record {
  name = codes "m_kind";
  type = codes "enum";
  typen = codes "eKind";
  size = [];
  note = codes "k";
  vec_enum = record { name = codes "eA"; number = codes "auto"; note = codes "a" } ∷ [];
}

login : CStructure
login = record {
  name = codes "sLogin";
  ishas_cons = codes "Y";
  ishas_op = codes "Y";
  note = codes "s";
  vec_member = kinds ∷ [];
}

user : CMember
user = record {
  name = codes "m_username";
  type = codes "char";
  typen = [];
  size = codes "40";
  note = codes "u";
  vec_enum = [];
}

-- A structure as in the comment of autoproto/autoprotocol.h: an enumeration and an array.
protocol : CProtocol
unfolding login
protocol = record {
  name = codes "CT_A";
  number = codes "auto";
  handler = codes "handleA";
  return_protocol = codes "Y";
  file = codes "auto";
  note = codes "n";
  structure = record login { vec_member = record kinds { typen = [] } ∷ user ∷ [] };
}

members : Text
unfolding struct_text login kinds
members = elim (struct_text login) [ none ↦ [] | some text ↦ text ]

login-IsStructure : IsStructure 50 login members (files_with header) header
unfolding members login kinds split any_line contains text_eq dst_file enum_texts end_struct
login-IsStructure = record {
  made = refl;
  single = refl;
  enums = (refl, tt);
  there = refl;
  clear = refl;
  within = omega arith;
  flagged = refl;
  flagged' = refl;
  fits = omega arith;
  fits' = omega arith;
  fueled = omega arith;
}

build_structure-twice_example :
    (files' : Files) × (text' : Text) × (build_structure run 50 login (files_with header)
      ≡ some files')
    × (build_structure run 50 login files' ≡ some files')
    × IsBuilt protocol_h
        (struct_head login ++ codes " {")
        (enum_texts login.vec_member ([], [])).1
        (updated
          (codes "// enums")
          ((enum_texts login.vec_member ([], [])).0 ++ end_struct)
          (enum_texts login.vec_member ([], [])).1
          true
          (updated (codes "// structs") members (struct_head login ++ codes " {") true header))
        header
        (files_with header)
        files'
        text'
build_structure-twice_example =
    build_structure-twice run run-IsShell 50 login members (files_with header) header
      login-IsStructure

protocol-AreProtocols : AreProtocols (protocol ∷ [])
unfolding protocol login kinds user text_eq
protocol-AreProtocols = (
  (
    record { name = refl; typen = refl; size = refl; note = refl; enums = λ h. cc },
    (record { name = refl; typen = refl; size = refl; note = refl; enums = λ h. refl }, tt),
  ),
  tt,
)

load_xml-xml_protocols_example :
    load_xml (some (element [] (xml_protocols (protocol ∷ [])))) [] ≡ some (protocol ∷ [])
load_xml-xml_protocols_example = load_xml-xml_protocols [] [] (protocol ∷ []) protocol-AreProtocols

header-IsReadable : IsReadable 10 header
unfolding split
header-IsReadable = record { within = omega arith; fueled = omega arith }

named : plain_name protocol_h ≡ true
unfolding plain_name plain
named = refl

not_there : any_line line (split header) ≡ false
unfolding any_line contains split protocol_line text_eq
not_there = refl

replace-Replaced_example :
    (files' : Files) × (replace run 10 protocol_h
        (codes "};")
        line
        line
        false
        false
        (files_with header)
      ≡ some (true, files'))
    × Replaced protocol_h
        (unlines (with_content (codes "};") line false false true (split header)))
        (files_with header)
        files'
unfolding text_eq
replace-Replaced_example =
    replace-Replaced run run-IsShell 10 protocol_h (codes "};") line line false false
      (files_with header) header named refl (unfold dst_file in refl) header-IsReadable not_there

replace-endless_example :
    replace run 7 (codes "x.h") (codes "};") (codes "a") (codes "a") false false (files_with header)
    ≡ none
replace-endless_example =
    replace-endless run 7 (codes "x.h") (codes "};") (codes "a") (codes "a") false false
      (files_with header) (unfold contains in refl) (inl (unfold text_eq in refl))
