-- ===== src/Autoproto/Build.antt =====
-- The functions of autoproto/autoprotocol.cc that write protocol.h, the handlers' files and
-- handler/MSGHANDLE for a protocol.
pub mod Protocols
pub mod Structures
pub mod Rebuilt
use ec_server.Base.{
  ℕ, zero, suc, ◌+◌, ◌≡◌, List, [], ◌∷◌, ◌++◌, Option, none, some, Bool, true, false, ◌&&◌, not,
  drop, if◌then◌else◌, ◌>>=◌, Text, codes, text_eq, contains,
}
use ec_server.Autoproto.Streams.{Files, set_file, newline, Command}
use ec_server.Autoproto.Replace.{checkcontent, replace, append_file}

abbrev pub protocol_h : Text
protocol_h = codes "protocol.h"

abbrev pub msghandle : Text
msghandle = codes "handler/MSGHANDLE"

-- "\t" + sName + ", //" + sNote, with "=" and a number if there is one.
unfoldable pub protocol_line : Text → Text → Text → Text
protocol_line name number note =
    if text_eq number (codes "auto")
    then 9 ∷ (name ++ (codes ", //" ++ note))
    else 9 ∷ (name ++ (codes "=" ++ (number ++ (codes ", //" ++ note))))

-- The same without a number, with S for the first letter of the name.
unfoldable pub return_line : Text → Text
return_line name = 9 ∷ (codes "S" ++ (drop 1 name ++ codes ","))

unfoldable pub handle_head : Text → Text
handle_head handler = codes "void CHandleMessage::" ++ (handler ++ codes "(Buf* p)")

unfoldable pub handler_file : Text → Text → Text
handler_file file handler =
    if text_eq file (codes "auto")
    then codes "handler/" ++ (handler ++ codes ".cpp")
    else codes "handler/" ++ file

unfoldable pub end_line : Text → Text
end_line text = text ++ newline ∷ []

-- What a new file of handlers begins with.
unfoldable pub includes : Text
unfolding end_line
includes =
    end_line (codes "#include \"HandleMessage.h\"")
    ++ (end_line (codes "#include \"protocol.h\"")
        ++ (end_line (codes "#include \"Buf.h\"") ++ newline ∷ []))

unfoldable pub empty_handler : Text → Text
unfolding end_line handle_head
empty_handler handler =
    newline
    ∷ (end_line (handle_head handler)
        ++ (end_line (codes "{") ++ (end_line (codes "    //TODO:") ++ end_line (codes "}"))))

unfoldable pub msg_line : Text → Text → Text
msg_line name handler = codes "    MSGNAME (" ++ (name ++ (codes ", " ++ (handler ++ codes ");")))

-- A file that is opened with `app` is there, and its length tells whether it is new.
unfoldable pub open_handlers : Text → Files → Files
unfolding includes
open_handlers file files = elim (files file) [
  | none ↦ set_file file (some includes) files
  | some [] ↦ set_file file (some includes) files
  | some (c ∷ text) ↦ files
]

unfoldable pub auto_build_handler : ℕ → Text → Text → Text → Files → Option Files
unfolding open_handlers empty_handler msg_line handle_head handler_file end_line
auto_build_handler fuel name file handler files =
    let cppfile = handler_file file handler in
    let opened = open_handlers cppfile files in
    checkcontent fuel cppfile (handle_head handler) opened >>= λ has_handler.
    let files' =
      if has_handler then opened else append_file cppfile (empty_handler handler) opened in
    checkcontent fuel msghandle (msg_line name handler) files' >>= λ has_msg.
    some
      (if has_msg then files' else append_file msghandle (end_line (msg_line name handler)) files')

module _ (system : Command → Files → Files) where
  unfoldable pub auto_build_protocol : ℕ → Text → Text → Bool → Text → Files → Option Files
  auto_build_protocol fuel name number return_protocol note files =
      let content = protocol_line name number note in
      let content' = if return_protocol then return_line name else content in
      replace system fuel protocol_h (codes "};") content content false false files >>= λ r.
      replace system fuel protocol_h (codes "};") content' content' false false r.1 >>= λ r'.
      some r'.1
