-- ===== src/Tests/BuildHouse.antt =====
-- A group of two students with the house of three nodes.
use ec_server.Base.{ℕ, ◌+◌, ◌*◌, ◌≡◌, refl, List, [], ◌∷◌, ◌++◌, some, ◌>>=◌, find, arith}
use ec_server.Server.{Server}
use ec_server.Messages.Copies.{Ready}
use ec_server.Departure.{le_word}
use ec_server.Content.House.Node.{CNode}
use ec_server.Content.House.{CMakeHouse, right_first, get_node_id_by_layer, set_node}
use ec_server.Content.Group.{CGroup}
use ec_server.GroupMessages.{send_to_other_student}
use ec_server.GroupMessages.Copies.{Addressed}
use ec_server.BuildHouse.{
  st_build_house_update, le_long, sub_int, node_data, set_buf, with_house, change_layer,
  handle_build_house_scale, handle_build_house_change_layer,
}
use ec_server.BuildHouse.Publishing.{handle_build_house_change_layer-stale}
use ec_server.BuildHouse.Scaling.{handle_build_house_scale-Addressed}
use ec_server.BuildHouse.Saved.{Saved}
use ec_server.Tests.Picture.{tenths}
use ec_server.Tests.House.{house}
use ec_server.Tests.Messages.{bytes}
use ec_server.Tests.Room.{students, rooms}

abbrev pub group : CGroup ℕ
group = record {
  m_make_house = house;
  m_student_map = (7, 107) ∷ (8, 108) ∷ [];
  m_auto_nodeid = 4;
  m_auto_layer = 1;
}

-- A message with two ints.
abbrev pub server : ℕ → ℕ → Server
server a b = record {
  bufs = λ p. record {
    c_len = 16;
    c_type = 20;
    c_data = (le_word a ++ le_word b) ++ bytes 5104;
    used = 16;
    fd = 7;
  };
  bufpool = record { m_queue = 51 ∷ 52 ∷ 53 ∷ []; m_size = 4 };
  sendqueue = [];
  students = students;
  rooms = rooms;
}

-- The number of the node on a layer with a scale.
abbrev number : ℕ → ℕ → ℕ
number layer scale =
    2001 + scale * 1000000000 + 500000000000 + layer * 1000000000000000 + 800000000000000000

abbrev entries : List ℕ
entries = le_long (number 2 15) ++ (le_long (number 3 1) ++ le_long (number 4 1))

found_second : get_node_id_by_layer 2 house ≡ some 1
unfolding get_node_id_by_layer
found_second = refl

found_third : get_node_id_by_layer 3 house ≡ some 2
unfolding get_node_id_by_layer
found_third = refl

found_node : find 1 house.m_node_map ≡ some 101
unfolding find
found_node = refl

one_down : sub_int 3 2 ≡ some 1
unfolding sub_int
one_down = refl

abbrev lowered : CMakeHouse ℕ
lowered = record house { m_node_layer_list = 101 ∷ 103 ∷ 102 ∷ [] }

goes_down : change_layer right_first 2 1 house ≡ some (1, lowered)
unfolding change_layer
goes_down = refl

abbrev node : CNode ℕ
node = record {
  m_position_x = 10;
  m_position_y = 20;
  m_layer = 2;
  m_client_fd = 0;
  m_node_id = 1;
  m_angle = 0;
  m_scale = 1;
  m_sname = 5;
  m_student_id = 8;
}

abbrev rescaled : CMakeHouse ℕ
rescaled = record house { nodes = set_node 101 (some (record node { m_scale = 15 })) house.nodes }

numbers : node_data tenths rescaled.nodes rescaled.m_node_map ≡ some entries
unfolding node_data set_node
numbers = refl

pub ready : Ready 50 (server 2 15).bufs (51 ∷ 52 ∷ [])
ready = (omega arith, refl, (omega arith, tt), (omega arith, refl, tt, tt))

handle_build_house_change_layer-stale_example :
    handle_build_house_change_layer tenths right_first (some 50) group (server 3 2) ≡ (
      set_buf tenths 50 group (server 3 2) >>= λ packed.
      send_to_other_student (some 50) st_build_house_update group.m_student_map packed >>= λ sent.
      some (with_house tenths lowered group, sent))
handle_build_house_change_layer-stale_example =
    handle_build_house_change_layer-stale tenths right_first 50 2 1 1 group lowered (server 3 2)
      found_third one_down (omega arith) goes_down

handle_build_house_scale-Addressed_example :
    (r : Server) × (handle_build_house_scale tenths (λ n. n) (some 50) group (server 2 15)
      ≡ some (with_house tenths rescaled group, r))
    × (r.sendqueue ≡ 51 ∷ 52 ∷ [])
    × (r.bufpool.m_queue ≡ 53 ∷ 50 ∷ [])
    × Addressed (λ fd. fd) r.bufs (51 ∷ 52 ∷ []) group.m_student_map
handle_build_house_scale-Addressed_example =
    handle_build_house_scale-Addressed tenths 50 group entries (server 2 15) (λ n. n) 1 101 node
      (51 ∷ 52 ∷ []) (53 ∷ []) found_second found_node refl numbers (omega arith) refl refl refl
      ready

abbrev nothing : ℕ → Saved
nothing i = record { c_len = 0; c_type = 0; c_data = [] }
