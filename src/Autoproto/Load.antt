-- ===== src/Autoproto/Load.antt =====
-- LoadXml of autoproto/autoprotocol.cc. The tree of the file is what the XML library hands over.
pub mod RoundTrip
use Prim.Native.String.{String}
use ec_server.Base.{
  List, [], ◌∷◌, ◌++◌, Option, none, some, Bool, true, false, if◌then◌else◌, Text, codes, text_eq,
}
use ec_server.Autoproto.Types.{
  CEnum, CMember, CStructure, CProtocol, empty_enum, empty_member, empty_protocol,
}

abbrev pub Attributes : Type 0
Attributes = List (Text × Text)

-- An element: its attributes and the elements in it, in the order of the file.
mutual
  pub data Element : Type 0 where
    element : Attributes → Elements → Element

  pub data Elements : Type 0 where
    leaf : Elements
    child : Element → Elements → Elements

abbrev pub is : Text × Text → String → Bool
is a name = text_eq a.0 (codes name)

unfoldable pub set_enum : Text × Text → CEnum → CEnum
set_enum a e =
    if is a "name"
    then record e { name = a.1 }
    else if is a "number"
    then record e { number = a.1 }
    else if is a "note"
    then record e { note = a.1 }
    else e

unfoldable pub read_enum : Attributes → CEnum → CEnum
unfolding set_enum
read_enum [] e = e
read_enum (a ∷ attrs) e = read_enum attrs (set_enum a e)

unfoldable pub read_enums : Elements → List CEnum
unfolding read_enum
read_enums leaf = []
read_enums (child (element attrs kids) more) = read_enum attrs empty_enum ∷ read_enums more

unfoldable pub set_member : Text × Text → CMember → CMember
set_member a m =
    if is a "name"
    then record m { name = a.1 }
    else if is a "type"
    then record m { type = a.1 }
    else if is a "typename"
    then record m { typen = a.1 }
    else if is a "note"
    then record m { note = a.1 }
    else if is a "size"
    then record m { size = a.1 }
    else m

-- The elements in it are read for each attribute with the value "enum", whatever its name.
unfoldable pub push_enums : Text → Elements → CMember → CMember
unfolding read_enums
push_enums value kids m =
    if text_eq value (codes "enum")
    then record m { vec_enum = m.vec_enum ++ read_enums kids }
    else m

unfoldable pub read_member : Attributes → Elements → CMember → CMember
unfolding set_member push_enums
read_member [] kids m = m
read_member (a ∷ attrs) kids m = read_member attrs kids (push_enums a.1 kids (set_member a m))

unfoldable pub read_members : Elements → List CMember
unfolding read_member
read_members leaf = []
read_members (child (element attrs kids) more) =
    read_member attrs kids empty_member ∷ read_members more

unfoldable pub set_structure : Text × Text → CStructure → CStructure
set_structure a s =
    if is a "name"
    then record s { name = a.1 }
    else if is a "constructor"
    then record s { ishas_cons = a.1 }
    else if is a "operator"
    then record s { ishas_op = a.1 }
    else if is a "note"
    then record s { note = a.1 }
    else s

unfoldable pub read_structure : Attributes → CStructure → CStructure
unfolding set_structure
read_structure [] s = s
read_structure (a ∷ attrs) s = read_structure attrs (set_structure a s)

-- A protocol has one structure, which all the elements in it change.
unfoldable pub read_structures : Elements → CStructure → CStructure
unfolding read_structure read_members
read_structures leaf s = s
read_structures (child (element attrs kids) more) s =
    let s' = read_structure attrs s in
    read_structures more (record s' { vec_member = s'.vec_member ++ read_members kids })

unfoldable pub set_protocol : Text × Text → CProtocol → CProtocol
set_protocol a p =
    if is a "name"
    then record p { name = a.1 }
    else if is a "number"
    then record p { number = a.1 }
    else if is a "handler"
    then record p { handler = a.1 }
    else if is a "return_protocol"
    then record p { return_protocol = a.1 }
    else if is a "file"
    then record p { file = a.1 }
    else if is a "note"
    then record p { note = a.1 }
    else p

unfoldable pub read_protocol : Attributes → CProtocol → CProtocol
unfolding set_protocol
read_protocol [] p = p
read_protocol (a ∷ attrs) p = read_protocol attrs (set_protocol a p)

unfoldable pub read_protocols : Elements → List CProtocol
unfolding read_protocol read_structures
read_protocols leaf = []
read_protocols (child (element attrs kids) more) =
    let p = read_protocol attrs empty_protocol in
    record p { structure = read_structures kids p.structure } ∷ read_protocols more

-- A file without a root element, also one that is not there, gives a null pointer, which is followed.
unfoldable pub load_xml : Option Element → List CProtocol → Option (List CProtocol)
unfolding read_protocols
load_xml none protocols = none
load_xml (some (element attrs kids)) protocols = some (protocols ++ read_protocols kids)
