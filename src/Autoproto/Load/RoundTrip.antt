-- ===== src/Autoproto/Load/RoundTrip.antt =====
-- A list of protocols, written with the elements and attributes of the comment at the beginning of
-- autoproto/autoprotocol.h and of rpc.xml, is what LoadXml reads.
use ec_server.Base.{
  Text, if◌then◌else◌, ◌∙◌, List, [], ◌∷◌, ◌++◌, some, false, codes, text_eq, ◌≡◌, refl, ap,
  Bool-cases, inl, inr,
}
use ec_server.Autoproto.Types.{CEnum, CMember, CStructure, CProtocol, empty_member, empty_structure}
use ec_server.Autoproto.Load.{
  Attributes, Elements, element, leaf, child, read_enums, read_member, read_members,
  read_structures, read_protocols, load_xml,
}

xml_enums : List CEnum → Elements
xml_enums [] = leaf
xml_enums (e ∷ es) =
    child
      (element
        ((codes "name", e.name) ∷ ((codes "number", e.number) ∷ ((codes "note", e.note) ∷ [])))
        leaf)
      (xml_enums es)

-- An attribute that is written only where it has a value.
optional : Text → Text → Attributes → Attributes
optional name [] attrs = attrs
optional name (c ∷ value) attrs = (name, c ∷ value) ∷ attrs

-- Not every member has a typename and a size.
member_attrs : Text → Text → Text → Text → Text → Attributes
unfolding optional
member_attrs name type typen size note =
    (codes "name", name)
    ∷ ((codes "type", type)
        ∷ optional (codes "typename") typen
            (optional (codes "size") size ((codes "note", note) ∷ [])))

xml_members : List CMember → Elements
unfolding xml_enums member_attrs
xml_members [] = leaf
xml_members (m ∷ ms) =
    child (element (member_attrs m.name m.type m.typen m.size m.note) (xml_enums m.vec_enum))
      (xml_members ms)

xml_structure : CStructure → Elements
unfolding xml_members
xml_structure s =
    child
      (element
        ((codes "name", s.name)
          ∷ ((codes "constructor", s.ishas_cons)
              ∷ ((codes "operator", s.ishas_op) ∷ ((codes "note", s.note) ∷ []))))
        (xml_members s.vec_member))
      leaf

pub xml_protocols : List CProtocol → Elements
unfolding xml_structure
xml_protocols [] = leaf
xml_protocols (p ∷ ps) =
    child
      (element
        ((codes "name", p.name)
          ∷ ((codes "number", p.number)
              ∷ ((codes "handler", p.handler)
                  ∷ ((codes "return_protocol", p.return_protocol)
                      ∷ ((codes "file", p.file) ∷ ((codes "note", p.note) ∷ []))))))
        (xml_structure p.structure))
      (xml_protocols ps)

-- Only a member of type enum has enumerations, and its other attributes are not "enum".
pub record IsMember (m : CMember) : Type 0 where
  pub name : text_eq m.name (codes "enum") ≡ false
  pub typen : text_eq m.typen (codes "enum") ≡ false
  pub size : text_eq m.size (codes "enum") ≡ false
  pub note : text_eq m.note (codes "enum") ≡ false
  pub enums : text_eq m.type (codes "enum") ≡ false → m.vec_enum ≡ []

abbrev AreMembers : List CMember → Type 0
AreMembers [] = Unit {0}
AreMembers (m ∷ ms) = IsMember m × AreMembers ms

abbrev pub AreProtocols : List CProtocol → Type 0
AreProtocols [] = Unit {0}
AreProtocols (p ∷ ps) = AreMembers p.structure.vec_member × AreProtocols ps

read_enums-xml : (es : List CEnum) → read_enums (xml_enums es) ≡ es
unfolding read_enums xml_enums text_eq
read_enums-xml [] = refl
read_enums-xml (e ∷ es) = ap (λ rest. e ∷ rest) (read_enums-xml es)

read_attrs :
    (name type typen size note : Text) (kids : Elements)
    → text_eq name (codes "enum") ≡ false
    → text_eq typen (codes "enum") ≡ false
    → text_eq size (codes "enum") ≡ false
    → text_eq note (codes "enum") ≡ false
    → read_member (member_attrs name type typen size note) kids empty_member ≡ record {
      name = name;
      type = type;
      typen = typen;
      size = size;
      note = note;
      vec_enum = if text_eq type (codes "enum") then read_enums kids else [];
    }
unfolding read_member member_attrs optional text_eq
read_attrs name type [] [] note kids hn ht hs ho = elim (Bool-cases (text_eq type (codes "enum"))) [
  | inl is_enum ↦ rw (hn, is_enum, ho) refl
  | inr other ↦ rw (hn, other, ho) refl
]
read_attrs name type [] (d ∷ size) note kids hn ht hs ho =
    elim (Bool-cases (text_eq type (codes "enum"))) [
      | inl is_enum ↦ rw (hn, is_enum, hs, ho) refl
      | inr other ↦ rw (hn, other, hs, ho) refl
    ]
read_attrs name type (c ∷ typen) [] note kids hn ht hs ho =
    elim (Bool-cases (text_eq type (codes "enum"))) [
      | inl is_enum ↦ rw (hn, is_enum, ht, ho) refl
      | inr other ↦ rw (hn, other, ht, ho) refl
    ]
read_attrs name type (c ∷ typen) (d ∷ size) note kids hn ht hs ho =
    elim (Bool-cases (text_eq type (codes "enum"))) [
      | inl is_enum ↦ rw (hn, is_enum, ht, hs, ho) refl
      | inr other ↦ rw (hn, other, ht, hs, ho) refl
    ]

read_member-xml :
    (m : CMember) (kids : Elements)
    → IsMember m
    → read_enums kids ≡ m.vec_enum
    → read_member (member_attrs m.name m.type m.typen m.size m.note) kids empty_member ≡ m
read_member-xml m kids h e =
    read_attrs m.name m.type m.typen m.size m.note kids h.name h.typen h.size h.note
    ∙ elim (Bool-cases (text_eq m.type (codes "enum"))) [
      | inl is_enum ↦ rw is_enum (rw e refl)
      | inr other ↦ rw other (rw (h.enums other) refl)
    ]

read_members-xml : (ms : List CMember) → AreMembers ms → read_members (xml_members ms) ≡ ms
unfolding read_members xml_members
read_members-xml [] h = refl
read_members-xml (m ∷ ms) h =
    let first = read_member-xml m (xml_enums m.vec_enum) h.0 (read_enums-xml m.vec_enum) in
    let rest = read_members-xml ms h.1 in λ i. first i ∷ rest i

read_structures-xml :
    (s : CStructure)
    → AreMembers s.vec_member
    → read_structures (xml_structure s) empty_structure ≡ s
unfolding read_structures xml_structure text_eq
read_structures-xml s h = ap (λ ms. record s { vec_member = ms }) (read_members-xml s.vec_member h)

read_protocols-xml :
    (ps : List CProtocol) → AreProtocols ps → read_protocols (xml_protocols ps) ≡ ps
unfolding read_protocols xml_protocols text_eq
read_protocols-xml [] h = refl
read_protocols-xml (p ∷ ps) h = λ i.
    record p { structure = read_structures-xml p.structure h.0 i } ∷ read_protocols-xml ps h.1 i

-- LoadXml puts the protocols of such a file, in which the elements have all attributes but those members
-- that have no typename or no size, after those that it is given, if only members of type enum have
-- enumerations and no other attribute of a member is "enum".
pub load_xml-xml_protocols :
    (attrs : Attributes) (old ps : List CProtocol)
    → AreProtocols ps
    → load_xml (some (element attrs (xml_protocols ps))) old ≡ some (old ++ ps)
unfolding load_xml
load_xml-xml_protocols attrs old ps h = rw (read_protocols-xml ps h) refl
