-- ===== src/Autoproto/Types.antt =====
-- The classes of autoproto/autoprotocol.h; a vector is a list.
use ec_server.Base.{List, [], Text}

pub record CEnum : Type 0 where
  pub name : Text
  pub number : Text
  pub note : Text

pub record CMember : Type 0 where
  pub name : Text
  pub type : Text
  pub typen : Text
  pub size : Text
  pub note : Text
  pub vec_enum : List CEnum

pub record CStructure : Type 0 where
  pub name : Text
  pub ishas_cons : Text
  pub ishas_op : Text
  pub note : Text
  pub vec_member : List CMember

pub record CProtocol : Type 0 where
  pub name : Text
  pub number : Text
  pub handler : Text
  pub return_protocol : Text
  pub file : Text
  pub note : Text
  pub structure : CStructure

-- As the constructors leave them.
abbrev pub empty_enum : CEnum
empty_enum = record { name = []; number = []; note = [] }

abbrev pub empty_member : CMember
empty_member = record { name = []; type = []; typen = []; size = []; note = []; vec_enum = [] }

abbrev pub empty_structure : CStructure
empty_structure = record { name = []; ishas_cons = []; ishas_op = []; note = []; vec_member = [] }

abbrev pub empty_protocol : CProtocol
empty_protocol = record {
  name = [];
  number = [];
  handler = [];
  return_protocol = [];
  file = [];
  note = [];
  structure = empty_structure;
}
