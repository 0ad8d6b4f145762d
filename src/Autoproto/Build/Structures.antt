-- ===== src/Autoproto/Build/Structures.antt =====
-- The C++ text that autoproto/autoprotocol.cc writes for a structure. `none` is the exception of
-- `substr` for a name without a letter.
use ec_server.Base.{
  List, [], ◌∷◌, ◌++◌, Option, none, some, Bool, ◌||◌, drop, if◌then◌else◌, ◌>>=◌, Text, codes,
  text_eq,
}
use ec_server.Autoproto.Streams.{newline}
use ec_server.Autoproto.Types.{CEnum, CMember, CStructure}

abbrev pub tab1 : Text
tab1 = codes "    "

abbrev pub tab2 : Text
tab2 = codes "        "

-- `name.substr (1)`
unfoldable pub substr1 : Text → Option Text
substr1 [] = none
substr1 (c ∷ name) = some name

unfoldable pub end_struct : Text
end_struct = codes "};" ++ newline ∷ []

-- What one parameter of the constructor is, without the comma.
unfoldable pub cons_param : CMember → Option Text
unfolding substr1
cons_param m = substr1 m.name >>= λ name. some (
    (if text_eq m.type (codes "enum")
      then m.type ++ (codes " " ++ m.typen)
      else if text_eq m.type (codes "char")
      then m.type ++ codes "*"
      else m.type)
    ++ (codes " " ++ name))

unfoldable pub cons_params : List CMember → Option Text
unfolding cons_param
cons_params [] = some []
cons_params (m ∷ []) = cons_param m
cons_params (m ∷ (m' ∷ ms)) =
    cons_param m >>= λ param. cons_params (m' ∷ ms) >>= λ rest. some (param ++ (codes ", " ++ rest))

-- The initialisers, which a member of type char ends with a comma too if it is the last, and the calls
-- of memcpy.
unfoldable pub cons_inits : List CMember → Option (Text × Text)
unfolding substr1
cons_inits [] = some ([], [])
cons_inits (m ∷ ms) = substr1 m.name >>= λ name. cons_inits ms >>= λ rest. some (
    if text_eq m.type (codes "char")
    then (
      rest.0,
      tab2
          ++ (codes "memcpy ("
              ++ (m.name
                  ++ (codes ", "
                      ++ (name
                          ++ (codes ", " ++ (m.size ++ (codes ");" ++ (newline ∷ rest.1)))))))),
    )
    else (
      m.name ++ (codes "(" ++ (name ++ ((elim ms [ [] ↦ codes ")" | _ ↦ codes "), " ]) ++ rest.0))),
      rest.1,
    ))

unfoldable pub auto_build_cons : Text → Text → List CMember → Option Text
unfolding cons_params cons_inits
auto_build_cons members structure_name vec_member = cons_params vec_member >>= λ params.
    cons_inits vec_member >>= λ inits. some (
      members
      ++ (tab1
          ++ (structure_name
              ++ (codes "("
                  ++ (params
                      ++ (codes ")"
                          ++ (newline
                              ∷ (tab2
                                  ++ (codes ":"
                                      ++ (inits.0
                                          ++ (newline
                                              ∷ (tab1
                                                  ++ (codes "{"
                                                      ++ (newline
                                                          ∷ (inits.1
                                                            ++ (newline
                                                            ∷ (tab1
                                                            ++ (codes "}"
                                                            ++ newline ∷ []))))))))))))))))))

-- The head of a set or get method, and its body.
unfoldable pub method : Text → Text → Text
method head body =
    tab1
    ++ (head
        ++ (newline
            ∷ (tab1
                ++ (codes "{"
                    ++ (newline
                        ∷ (tab2
                            ++ (body
                                ++ (codes ";"
                                    ++ (newline ∷ (tab1 ++ (codes "};" ++ newline ∷ [])))))))))))

unfoldable pub auto_build_method : Text → Text → Text → Text → Option Text
unfolding substr1 method
auto_build_method members name type typen =
    if text_eq type (codes "char")
    then some members
    else substr1 name >>= λ short.
        let is_enum = text_eq type (codes "enum") in
        let set_name = codes "set" ++ drop 1 name in
        let get_name = codes "get" ++ drop 1 name in
        let arg = if is_enum then codes "enum " ++ typen else type in
        let result = if is_enum then type ++ (codes " " ++ typen) else type in
        let set =
          method
            (codes "void "
              ++ (set_name ++ (codes " (" ++ (arg ++ (codes " " ++ (short ++ codes ")"))))))
            (name ++ (codes "=" ++ short)) in
        let get =
          method
            (result
              ++ (codes " " ++ (get_name ++ (if is_enum then codes "(void)" else codes " (void)"))))
            (codes "return(" ++ (name ++ codes ")")) in
        some (members ++ (set ++ get))

unfoldable pub auto_build_methods : Text → List CMember → Option Text
unfolding auto_build_method
auto_build_methods members [] = some members
auto_build_methods members (m ∷ ms) =
    auto_build_method members m.name m.type m.typen >>= λ members'. auto_build_methods members' ms

-- "\n//" + note + "\n" + head + " {\n"
unfoldable pub opening : Text → Text → Text
opening note head =
    newline ∷ (codes "//" ++ (note ++ (newline ∷ (head ++ (codes " {" ++ newline ∷ [])))))

unfoldable pub enum_line : CEnum → Text
enum_line e =
    tab1
    ++ (e.name
        ++ ((if text_eq e.number (codes "auto") then [] else codes "=" ++ e.number)
            ++ (codes ", //" ++ (e.note ++ newline ∷ []))))

unfoldable pub enum_lines : List CEnum → Text
unfolding enum_line
enum_lines [] = []
enum_lines (e ∷ es) = enum_line e ++ enum_lines es

-- The texts `enums` and `enumscontent`: a member of type enum starts both again.
unfoldable pub enum_step : CMember → Text × Text → Text × Text
unfolding enum_lines opening
enum_step m texts =
    if text_eq m.type (codes "enum")
    then (
      opening m.note (codes "enum " ++ m.typen) ++ enum_lines m.vec_enum,
      codes "enum " ++ (m.typen ++ codes " {"),
    )
    else texts

unfoldable pub enum_texts : List CMember → Text × Text → Text × Text
unfolding enum_step
enum_texts [] texts = texts
enum_texts (m ∷ ms) texts = enum_texts ms (enum_step m texts)

unfoldable pub member_line : CMember → Text
member_line m =
    let end = codes "; //" ++ (m.note ++ newline ∷ []) in
    tab1
    ++ (m.type
        ++ (codes " "
            ++ (if text_eq m.type (codes "enum")
                then m.typen ++ (codes " " ++ (m.name ++ end))
                else if text_eq m.type (codes "char")
                then m.name ++ (codes "[" ++ (m.size ++ (codes "]" ++ end)))
                else m.name ++ end)))

unfoldable pub member_lines : List CMember → Text
unfolding member_line
member_lines [] = []
member_lines (m ∷ ms) = member_line m ++ member_lines ms

abbrev pub is_y : Text → Bool
is_y text = text_eq text (codes "Y")

abbrev pub struct_head : CStructure → Text
struct_head s = codes "struct " ++ s.name

-- The text `members` before the calls that add methods.
unfoldable pub struct_start : CStructure → Text
unfolding opening member_lines
struct_start s =
    opening s.note (struct_head s)
    ++ ((if is_y s.ishas_cons || is_y s.ishas_op then codes "private:" ++ newline ∷ [] else [])
        ++ member_lines s.vec_member)

abbrev pub public_line : Text
public_line = codes "public:" ++ newline ∷ []

unfoldable pub struct_text : CStructure → Option Text
unfolding struct_start auto_build_cons auto_build_methods end_struct
struct_text s =
    (if is_y s.ishas_cons
      then auto_build_cons (struct_start s ++ public_line) s.name s.vec_member
      else some (struct_start s))
    >>= λ members.
        (if is_y s.ishas_op
          then auto_build_methods (members ++ public_line) s.vec_member
          else some members)
        >>= λ members'. some (members' ++ end_struct)
