-- ===== src/Autoproto/Build/Rebuilt.antt =====
-- What autoBuild of autoproto/autoprotocol.cc leaves of a structure in protocol.h, and in a second run.
use ec_server.Base.{
  ℕ, ◌+◌, ◌<◌, ◌≡◌, refl, sym, ap, ◌∙◌, List, [], ◌∷◌, ◌++◌, Option, none, some, Bool, true, false,
  if◌then◌else◌, ◌>>=◌, length, Text, text_eq, codes, arith, contains_self, contains-nil,
  append_assoc, append-nil, inl, inr, Bool-cases, subst,
}
use ec_server.Autoproto.Streams.{plain, plain_name, Files, Command, IsShell, newline}
use ec_server.Autoproto.Lines.{split, IsWithin, any_line, any_line-append, split-append, split-cons}
use ec_server.Autoproto.Replace.{room, dst_file}
use ec_server.Autoproto.Replace.Twice.{updated, IsReady, IsBuilt, replace-twice}
use ec_server.Autoproto.Types.{CMember, CStructure}
use ec_server.Autoproto.Build.{protocol_h}
use ec_server.Autoproto.Build.Structures.{
  opening, enum_texts, enum_step, enum_lines, struct_text, struct_head, struct_start, end_struct,
  auto_build_cons, auto_build_methods, cons_params, cons_inits, auto_build_method, substr1, is_y,
  public_line,
}
use ec_server.Autoproto.Main.{build_structure}

any_line-middle :
    (a part b : Text)
    → split part ≡ part ∷ []
    → any_line part (split (a ++ newline ∷ (part ++ newline ∷ b))) ≡ true
unfolding any_line
any_line-middle a part b one =
    ap (any_line part)
      (split-append a (part ++ newline ∷ b) ∙ ap (λ ls. split a ++ ls) (split-append part b))
    ∙ any_line-append part (split a) (split part ++ split b)
    ∙ rw one (rw (contains_self part) (ground arith))

-- The line that opens a structure or an enumeration is in the text.
any_line-opening :
    (note head rest : Text)
    → split (head ++ codes " {") ≡ (head ++ codes " {") ∷ []
    → any_line (head ++ codes " {") (split (opening note head ++ rest)) ≡ true
unfolding opening
any_line-opening note head rest one =
    ap (λ t. any_line (head ++ codes " {") (split t)) (simp append_assoc)
    ∙ any_line-middle (newline ∷ (codes "//" ++ note)) (head ++ codes " {") rest one

-- A result, if there is one, begins with the text.
abbrev Starts : Text → Option Text → Type 0
Starts a none = Unit {0}
Starts a (some t) = (rest : Text) × (t ≡ a ++ rest)

bind-Starts :
    {A : Type 0} (a : Text) (o : Option A) (f : A → Option Text)
    → ((b : A) → Starts a (f b))
    → Starts a (o >>= f)
bind-Starts a none f h = tt
bind-Starts a (some b) f h = h b

Starts-longer : (a t rest : Text) (o : Option Text) → t ≡ a ++ rest → Starts t o → Starts a o
Starts-longer a t rest none e h = tt
Starts-longer a t rest (some u) e (rest', e') =
    (rest ++ rest', e' ∙ rw e (append_assoc a rest rest'))

Starts-bind :
    (a : Text) (o : Option Text) (f : Text → Option Text)
    → Starts a o
    → ((t : Text) → Starts t (f t))
    → Starts a (o >>= f)
Starts-bind a none f s h = tt
Starts-bind a (some t) f (rest, e) h = Starts-longer a t rest (f t) e (h t)

auto_build_cons-Starts :
    (members name : Text) (ms : List CMember) → Starts members (auto_build_cons members name ms)
unfolding auto_build_cons
auto_build_cons-Starts members name ms =
    bind-Starts members (cons_params ms) _
      (λ params. bind-Starts members (cons_inits ms) _ (λ inits. (_, refl)))

auto_build_method-Starts :
    (members name type typen : Text) → Starts members (auto_build_method members name type typen)
unfolding auto_build_method
auto_build_method-Starts members name type typen = elim (Bool-cases (text_eq type (codes "char"))) [
  | inl e ↦ rw e ([], sym (append-nil members))
  | inr e ↦ rw e (bind-Starts members (substr1 name) _ (λ short. (_, refl)))
]

auto_build_methods-Starts :
    (members : Text) (ms : List CMember) → Starts members (auto_build_methods members ms)
unfolding auto_build_methods
auto_build_methods-Starts members [] = ([], sym (append-nil members))
auto_build_methods-Starts members (m ∷ ms) =
    Starts-bind members (auto_build_method members m.name m.type m.typen) _
      (auto_build_method-Starts members m.name m.type m.typen)
      (λ members'. auto_build_methods-Starts members' ms)

with_cons-Starts :
    (b : Bool) (a name : Text) (ms : List CMember)
    → Starts a (if b then auto_build_cons (a ++ public_line) name ms else some a)
with_cons-Starts true a name ms =
    Starts-longer a (a ++ public_line) public_line _ refl
      (auto_build_cons-Starts (a ++ public_line) name ms)
with_cons-Starts false a name ms = ([], sym (append-nil a))

with_methods-Starts :
    (b : Bool) (a : Text) (ms : List CMember)
    → Starts a (if b then auto_build_methods (a ++ public_line) ms else some a)
with_methods-Starts true a ms =
    Starts-longer a (a ++ public_line) public_line _ refl
      (auto_build_methods-Starts (a ++ public_line) ms)
with_methods-Starts false a ms = ([], sym (append-nil a))

struct_text-Starts : (s : CStructure) → Starts (struct_start s) (struct_text s)
unfolding struct_text
struct_text-Starts s =
    Starts-bind (struct_start s) _ _
      (with_cons-Starts (is_y s.ishas_cons) (struct_start s) s.name s.vec_member)
      (λ members.
        Starts-bind members _ _ (with_methods-Starts (is_y s.ishas_op) members s.vec_member)
          (λ members'. (end_struct, refl)))

-- The line that opens the structure is in its text.
struct_text-any_line :
    (s : CStructure) (members : Text)
    → struct_text s ≡ some members
    → split (struct_head s ++ codes " {") ≡ (struct_head s ++ codes " {") ∷ []
    → any_line (struct_head s ++ codes " {") (split members) ≡ true
unfolding struct_start
struct_text-any_line s members e one =
    let start = opening s.note (struct_head s) in
    let begins =
      Starts-longer start (struct_start s) _ (struct_text s) refl (struct_text-Starts s) in
    let (rest, at) = subst (Starts start) e begins in
    ap (λ t. any_line (struct_head s ++ codes " {") (split t)) at
    ∙ any_line-opening s.note (struct_head s) rest one

abbrev pub AreEnums : List CMember → Type 0
AreEnums [] = Unit {0}
AreEnums (m ∷ ms) =
    (split (codes "enum " ++ (m.typen ++ codes " {"))
      ≡ (codes "enum " ++ (m.typen ++ codes " {")) ∷ [])
    × AreEnums ms

any_line-nil : (text : Text) → any_line [] (split text) ≡ true
unfolding any_line
any_line-nil text = let (l, ls, e) = split-cons text in rw e (rw (contains-nil l) refl)

abbrev HasLine : Text × Text → Type 0
HasLine texts = any_line texts.1 (split (texts.0 ++ end_struct)) ≡ true

enum_step-eq :
    (m : CMember) (texts : Text × Text) (b : Bool)
    → text_eq m.type (codes "enum") ≡ b
    → (if b
        then (
          opening m.note (codes "enum " ++ m.typen) ++ enum_lines m.vec_enum,
          codes "enum " ++ (m.typen ++ codes " {"),
        )
        else texts)
      ≡ enum_step m texts
unfolding enum_step
enum_step-eq m texts b e = rw e refl

enum_step-HasLine :
    (m : CMember) (texts : Text × Text)
    → split (codes "enum " ++ (m.typen ++ codes " {"))
      ≡ (codes "enum " ++ (m.typen ++ codes " {")) ∷ []
    → HasLine texts
    → HasLine (enum_step m texts)
unfolding enum_step
enum_step-HasLine m texts one k = elim (Bool-cases (text_eq m.type (codes "enum"))) [
  | inl e ↦
      let line : Text = codes "enum " ++ (m.typen ++ codes " {") in
      let head : Text = codes "enum " ++ m.typen in
      subst HasLine (enum_step-eq m texts true e) (
        ap (λ t. any_line line (split t))
          (append_assoc (opening m.note head) (enum_lines m.vec_enum) end_struct)
        ∙ any_line-opening m.note head (enum_lines m.vec_enum ++ end_struct) one)
  | inr e ↦ subst HasLine (enum_step-eq m texts false e) k
]

-- The line that opens the last enumeration is in the text for it; without one, the empty text is.
enum_texts-HasLine :
    (ms : List CMember) (texts : Text × Text)
    → AreEnums ms
    → HasLine texts
    → HasLine (enum_texts ms texts)
unfolding enum_texts
enum_texts-HasLine [] texts h k = k
enum_texts-HasLine (m ∷ ms) texts h k =
    enum_texts-HasLine ms (enum_step m texts) h.1 (enum_step-HasLine m texts h.0 k)

-- A structure whose text the generator can write into protocol.h: the header has the lines after which
-- the texts go, the names have no newline, all lines fit the buffer, no earlier run has left the file
-- that replace writes, and there is fuel.
pub record IsStructure (fuel : ℕ) (s : CStructure) (members : Text) (files : Files) (text : Text)
    : Type 0 where
  pub made : struct_text s ≡ some members
  pub single : split (struct_head s ++ codes " {") ≡ (struct_head s ++ codes " {") ∷ []
  pub enums : AreEnums s.vec_member
  pub there : files protocol_h ≡ some text
  pub clear : files (dst_file protocol_h) ≡ none
  pub within : IsWithin room (split text)
  pub flagged : any_line (codes "// structs") (split text) ≡ true
  pub flagged' : any_line (codes "// enums") (split text) ≡ true
  pub fits : IsWithin room (split members)
  pub fits' : IsWithin room (split ((enum_texts s.vec_member ([], [])).0 ++ end_struct))
  pub fueled :
      length (split text)
        + length (split members)
        + length (split ((enum_texts s.vec_member ([], [])).0 ++ end_struct))
        + 2
      < fuel

-- autoBuild writes such a structure and its last enumeration: the header is then its lines with the text of
-- the structure after the first line that has "// structs", unless the line that opens the structure is
-- there, and with that of the enumeration after the first with "// enums" in the same way; the lines that
-- open the two are there, other files stay, and a second run changes nothing.
pub build_structure-twice :
    (system : Command → Files → Files) (shell : IsShell system) (fuel : ℕ) (s : CStructure)
    (members : Text) (files : Files) (text : Text)
    → IsStructure fuel s members files text
    → (files' : Files) × (text' : Text) × (build_structure system fuel s files ≡ some files')
      × (build_structure system fuel s files' ≡ some files')
      × IsBuilt protocol_h
          (struct_head s ++ codes " {")
          (enum_texts s.vec_member ([], [])).1
          (updated
            (codes "// enums")
            ((enum_texts s.vec_member ([], [])).0 ++ end_struct)
            (enum_texts s.vec_member ([], [])).1
            true
            (updated (codes "// structs") members (struct_head s ++ codes " {") true text))
          text
          files
          files'
          text'
unfolding build_structure
build_structure-twice system shell fuel s members files text h =
    let enums = enum_texts s.vec_member ([], []) in
    let ready : IsReady fuel protocol_h (codes "// structs") members (struct_head s ++ codes " {")
        (codes "// enums") (enums.0 ++ end_struct) enums.1 files text =
      record {
        named = unfold plain_name plain in refl;
        there = h.there;
        clear = h.clear;
        within = h.within;
        flagged = h.flagged;
        flagged' = h.flagged';
        fits = h.fits;
        fits' = h.fits';
        checks = struct_text-any_line s members h.made h.single;
        checks' = enum_texts-HasLine s.vec_member ([], []) h.enums (any_line-nil end_struct);
        fueled = h.fueled;
      } in
    let (r, r', text', run, run', again, again', built) =
      replace-twice system shell fuel protocol_h (codes "// structs") members
        (struct_head s ++ codes " {") (codes "// enums") (enums.0 ++ end_struct) enums.1 true files
        text ready in
    (
      r'.1,
      text',
      rw (h.made, build_structure) (rw run (rw run' refl)),
      rw (h.made, build_structure) (rw again (rw again' refl)),
      built,
    )
