-- ===== src/BuildHouse/Pictures.antt =====
-- The handlers of handler/HandleBuildHouse.cpp that move, add and delete a picture, in the group of the
-- room that the client is in or, while a house is shown, in the one that the class CHandleMessage keeps.
pub mod Adding
use ec_server.Base.{
  ℕ, ◌+◌, ◌*◌, ◌-◌, ◌%◌, ◌^◌, List, [], ◌∷◌, Option, none, some, ◌==◌, if◌then◌else◌, ◌>>=◌, drop,
}
use ec_server.Socket.{word}
use ec_server.Server.{Buf, Server, with_buf, memcpy}
use ec_server.Departure.{le_word}
use ec_server.Content.Picture.{Floats}
use ec_server.Content.Room.{CStudent, CRoom, get_room_by_fd}
use ec_server.Content.House.Node.{CNode}
use ec_server.Content.House.{
  CMakeHouse, set_node, get_node_id_by_layer, modify_move, add, del, set_current_layer,
}
use ec_server.Content.Group.{CGroup, get_auto_node_id, get_student_by_fd}
use ec_server.Content.Grouping.{Groups, set_group, get_group_by_fd}
use ec_server.GroupMessages.{send_to_other_student}
use ec_server.BuildHouse.{st_build_house_update, set_buf, publish, with_house}

abbrev pub ct_build_house_update : ℕ
ct_build_house_update = 636

-- The group of CHandleMessage, and the groups of the rooms by their ids.
pub record Houses (Float : Type 0) : Type 0 where
  pub shown : CGroup Float
  pub of_room : ℕ → Groups Float

-- A short, as it is stored.
unfoldable pub short : List ℕ → ℕ
short (a ∷ b ∷ bytes) = a + b * 256
short bytes = 0

-- A house without pictures is sent with the number 1000.
unfoldable pub mark_empty : ℕ → Server → Option Server
unfolding memcpy with_buf
mark_empty p s =
    if (s.bufs p).used == 12
    then (memcpy 4 (le_word 1000) (s.bufs p).c_data >>= λ bytes.
        some (with_buf p (λ b. record b { c_data = bytes }) s))
    else some s

module _ {Float : Type 0} where
  -- What a handler does in a group of the room, and in the group that is shown; the message's buffer is
  -- not given back where there is no such group.
  unfoldable pub in_group :
      ℕ
      → (CGroup Float → Server → Option (CGroup Float × Server))
      → (CGroup Float → Server → Option (CGroup Float × Server))
      → Houses Float
      → Server
      → Option (Houses Float × Server)
  unfolding get_room_by_fd get_group_by_fd set_group
  in_group fd in_room in_shown houses s = elim (get_room_by_fd fd s.rooms) [
    | none ↦ some (houses, s)
    | some room ↦
        let groups = houses.of_room room.m_room_id in
        if room.m_is_show == 0
        then (get_group_by_fd fd groups >>= λ found. elim found [
          | none ↦ some (houses, s)
          | some g ↦ groups.heap g >>= λ group. in_room group s >>= λ r. some (
            record houses {
              of_room = λ id.
                  if room.m_room_id == id
                  then record groups { heap = set_group g (some r.0) groups.heap }
                  else houses.of_room id;
            },
            r.1,
          )
        ])
        else if room.m_is_show == 1
        then (in_shown houses.shown s >>= λ r. some (record houses { shown = r.0 }, r.1))
        else some (houses, s)
  ]

module _ (floats : Floats) where
  open floats use {Float}

  unfoldable pub move_in : (ℕ → Float) → ℕ → CGroup Float → Server → Option (CGroup Float × Server)
  unfolding get_node_id_by_layer modify_move publish
  move_in of_bits p group s =
      let body = (s.bufs p).c_data in
      get_node_id_by_layer (word body) group.m_make_house >>= λ id.
      modify_move id (of_bits (word (drop 4 body))) (of_bits (word (drop 8 body)))
        group.m_make_house
      >>= λ moved. publish floats p (with_house floats moved.1 group) s

  unfoldable pub handle_build_house_move :
      (ℕ → Float) → Option ℕ → Houses Float → Server → Option (Houses Float × Server)
  unfolding in_group move_in
  handle_build_house_move of_bits none houses s = some (houses, s)
  handle_build_house_move of_bits (some p) houses s =
      in_group (s.bufs p).fd (move_in of_bits p) (move_in of_bits p) houses s

  -- The new picture. The address that `new` gives, and the floats 0.0f and 1.0f, are arguments.
  abbrev pub new_node : (ℕ → Float) → Float → Float → ℕ → Buf → CGroup Float → CNode Float
  new_node of_bits float0 float1 student b group = record {
    m_position_x = of_bits (word (drop 4 b.c_data));
    m_position_y = of_bits (word (drop 8 b.c_data));
    m_layer = group.m_make_house.m_current_layer;
    m_client_fd = b.fd;
    m_node_id = group.m_auto_nodeid;
    m_angle = float0;
    m_scale = float1;
    m_sname = short (drop 12 b.c_data);
    m_student_id = student;
  }

  unfoldable pub add_in :
      (ℕ → Float)
      → Float
      → Float
      → ℕ
      → ℕ
      → ℕ
      → CGroup Float
      → Server
      → Option (CGroup Float × Server)
  unfolding get_auto_node_id set_node set_current_layer add publish short
  add_in of_bits float0 float1 ptr student p group s =
      let node = new_node of_bits float0 float1 student (s.bufs p) group in
      let (node_id, counted) = get_auto_node_id group in
      let house = group.m_make_house in
      let placed = record house { nodes = set_node ptr (some node) house.nodes } in
      let layer = (house.m_current_layer + 1) % 2 ^ 32 in
      add node_id (some ptr) (set_current_layer layer placed).1 >>= λ added.
      publish floats p (with_house floats added.1 counted) s

  -- In a room's group the student is the one of the client; without one the code follows a null pointer.
  unfoldable pub handle_build_house_add_pic :
      (ℕ → Float)
      → Float
      → Float
      → ℕ
      → Option ℕ
      → Houses Float
      → Server
      → Option (Houses Float × Server)
  unfolding in_group get_student_by_fd add_in
  handle_build_house_add_pic of_bits float0 float1 ptr none houses s = some (houses, s)
  handle_build_house_add_pic of_bits float0 float1 ptr (some p) houses s =
      in_group (s.bufs p).fd
        (λ group s'. get_student_by_fd (s.bufs p).fd group >>= λ stu.
          s'.students stu >>= λ student. add_in of_bits float0 float1 ptr student.m_id p group s')
        (add_in of_bits float0 float1 ptr (word (s.bufs p).c_data) p) houses s

  -- Without a picture on the layer the handler returns, and the buffer is not given back.
  unfoldable pub delete_in : ℕ → ℕ → CGroup Float → Server → Option (CGroup Float × Server)
  unfolding get_node_id_by_layer del set_buf mark_empty send_to_other_student
  delete_in e_type p group s =
      get_node_id_by_layer (word (s.bufs p).c_data) group.m_make_house >>= λ id.
      del id group.m_make_house >>= λ deleted.
      if deleted.0 == 0
      then (let group' = with_house floats deleted.1 group in
          set_buf floats p group' s >>= λ packed. mark_empty p packed >>= λ marked.
          send_to_other_student (some p) e_type group'.m_student_map marked >>= λ sent.
          some (group', sent))
      else some (with_house floats deleted.1 group, s)

  -- In a room's group the students are sent the type of the clients' own messages.
  unfoldable pub handle_build_house_del_pic :
      Option ℕ → Houses Float → Server → Option (Houses Float × Server)
  unfolding in_group delete_in
  handle_build_house_del_pic none houses s = some (houses, s)
  handle_build_house_del_pic (some p) houses s =
      in_group (s.bufs p).fd (delete_in ct_build_house_update p) (delete_in st_build_house_update p)
        houses s
