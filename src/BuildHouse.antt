-- ===== src/BuildHouse.antt =====
-- content/makehouse.cpp's CGroup::set_buf, which writes the pictures of a house into a message, and the
-- handlers of handler/HandleBuildHouse.cpp over the group that the class CHandleMessage keeps,
-- `test_group`. The compiled branch of each handler is the one of `#else`. A result is `none` where the
-- code has no defined one.
pub mod Publishing
pub mod Scaling
pub mod Saved
pub mod Pictures
use ec_server.Base.{
  ℕ, ◌+◌, ◌-◌, ◌/◌, ◌%◌, ◌^◌, List, [], ◌∷◌, ◌++◌, Option, none, some, leb, ◌==◌, if◌then◌else◌,
  ◌>>=◌, Map, length, drop,
}
use ec_server.Socket.{word}
use ec_server.Server.{Buf, Server, head_len, with_buf, memcpy}
use ec_server.Departure.{le_word}
use ec_server.Content.Picture.{Floats, Picture, set_data}
use ec_server.Content.House.Node.{CNode}
use ec_server.Content.House.{
  CMakeHouse, Order, get_node_id_by_layer, modify_scale, modify_angle, layer_up, layer_down,
}
use ec_server.Content.Group.{CGroup, is_positive}
use ec_server.GroupMessages.{send_to_other_student}

abbrev pub st_build_house_update : ℕ
st_build_house_update = 637

-- A long long as it is stored.
abbrev pub le_long : ℕ → List ℕ
le_long n = le_word n ++ le_word (n / 2 ^ 32)

-- The difference of two ints, as patterns of 32 bits; it has no defined result where it overflows.
unfoldable pub sub_int : ℕ → ℕ → Option ℕ
sub_int a b =
    let d = (a + 2 ^ 32 - b) % 2 ^ 32 in
    if leb (2 ^ 31) a
    then (if leb (2 ^ 31) b then some d else if leb (2 ^ 31) d then some d else none)
    else if leb (2 ^ 31) b
    then (if leb (2 ^ 31) d then none else some d)
    else some d

-- The rounds of `for (i = 0; i < count; i++)`.
abbrev pub rounds : ℕ → ℕ
rounds count = if is_positive count then count else 0

-- `layer_down` for a positive count and `layer_up` for a negative one, with the count as it is.
unfoldable pub change_layer :
    {Float : Type 0} → Order → ℕ → ℕ → CMakeHouse Float → Option (ℕ × CMakeHouse Float)
unfolding layer_down layer_up
change_layer order id count house =
    if is_positive count
    then layer_down order id (rounds count) house
    else layer_up order id (rounds count) house

module _ (floats : Floats) where
  open floats use {Float}

  -- The fields that `set_buf` copies into a struct Picture.
  abbrev pub picture_of : CNode Float → Picture Float
  picture_of node = record {
    x = node.m_position_x;
    y = node.m_position_y;
    angle = node.m_angle;
    scale = node.m_scale;
    name = node.m_sname;
    layer = node.m_layer;
    student_id = node.m_student_id;
  }

  -- The numbers of the nodes, in the order of their ids.
  unfoldable pub node_data : (ℕ → Option (CNode Float)) → Map ℕ → Option (List ℕ)
  unfolding set_data
  node_data nodes [] = some []
  node_data nodes ((node_id, p) ∷ m) =
      let rest = node_data nodes m in
      elim (nodes p) [
        | none ↦ none
        | some node ↦
            set_data floats (picture_of node) >>= λ ll. rest >>= λ bytes. some (le_long ll ++ bytes)
      ]

  unfoldable pub set_buf : ℕ → CGroup Float → Server → Option Server
  unfolding node_data memcpy with_buf
  set_buf p group s = do
    entries ← node_data group.m_make_house.nodes group.m_make_house.m_node_map
    let body = le_word (length group.m_make_house.m_node_map) ++ entries
    bytes ← memcpy (length body) body (s.bufs p).c_data
    let len = head_len + length body
    some (with_buf p (λ b. record b { c_len = len; c_data = bytes; used = len }) s)

  -- The end of the handlers: the pictures are written into the message, which goes to the students.
  unfoldable pub publish : ℕ → CGroup Float → Server → Option (CGroup Float × Server)
  unfolding set_buf send_to_other_student
  publish p group s = do
    packed ← set_buf p group s
    sent ← send_to_other_student (some p) st_build_house_update group.m_student_map packed
    some (group, sent)

  abbrev pub with_house : CMakeHouse Float → CGroup Float → CGroup Float
  with_house house group = record group { m_make_house = house }

  -- What a float of four bytes is, is the argument `of_bits`. The pointer to the message is not tested.
  unfoldable pub handle_build_house_scale :
      (ℕ → Float) → Option ℕ → CGroup Float → Server → Option (CGroup Float × Server)
  unfolding get_node_id_by_layer modify_scale publish
  handle_build_house_scale of_bits none group s = none
  handle_build_house_scale of_bits (some p) group s = do
    id ← get_node_id_by_layer (word (s.bufs p).c_data) group.m_make_house
    modified ← modify_scale id (of_bits (word (drop 4 (s.bufs p).c_data))) group.m_make_house
    publish p (with_house modified.1 group) s

  unfoldable pub handle_build_house_angle :
      (ℕ → Float) → Option ℕ → CGroup Float → Server → Option (CGroup Float × Server)
  unfolding get_node_id_by_layer modify_angle publish
  handle_build_house_angle of_bits none group s = none
  handle_build_house_angle of_bits (some p) group s = do
    id ← get_node_id_by_layer (word (s.bufs p).c_data) group.m_make_house
    modified ← modify_angle id (of_bits (word (drop 4 (s.bufs p).c_data))) group.m_make_house
    publish p (with_house modified.1 group) s

  -- Without a change of the layer the handler returns, and the buffer is not given back.
  unfoldable pub handle_build_house_change_layer :
      Order → Option ℕ → CGroup Float → Server → Option (CGroup Float × Server)
  unfolding get_node_id_by_layer sub_int change_layer publish
  handle_build_house_change_layer order none group s = none
  handle_build_house_change_layer order (some p) group s = do
    id ← get_node_id_by_layer (word (s.bufs p).c_data) group.m_make_house
    count ← sub_int (word (s.bufs p).c_data) (word (drop 4 (s.bufs p).c_data))
    if count == 0
        then some (group, s)
        else (change_layer order id count group.m_make_house >>= λ moved.
            publish p (with_house moved.1 group) s)
