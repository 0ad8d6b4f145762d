-- ===== src/BuildHouse/Pictures/Adding.antt =====
-- What handleBuildHouse_Add_Pic of handler/HandleBuildHouse.cpp adds and sends while a house is shown.
use ec_server.Base.{
  ℕ, ◌+◌, ◌%◌, ◌^◌, ◌≤◌, ◌<◌, ◌≡◌, refl, ◌∙◌, List, [], ◌∷◌, ◌++◌, Option, none, some, arith, Map,
  find, insert, length, insert-Above, find-insert, eq→==,
}
use ec_server.Socket.{word}
use ec_server.Server.{Server, head_len}
use ec_server.Messages.Copies.{data_len, Ready}
use ec_server.Content.Picture.{Floats}
use ec_server.Content.Room.{CRoom, get_room_by_fd}
use ec_server.Content.House.Node.{CNode}
use ec_server.Content.House.{CMakeHouse, set_node, add, set_current_layer}
use ec_server.Content.House.Nodes.{IsHouse, Live, Live-insert, print_nodes-Live, set_node_self}
use ec_server.Content.Group.{CGroup, get_auto_node_id}
use ec_server.GroupMessages.Copies.{Addressed}
use ec_server.BuildHouse.{node_data}
use ec_server.BuildHouse.Scaling.{pictures, publish-Addressed}
use ec_server.BuildHouse.Pictures.{Houses, in_group, new_node, add_in, handle_build_house_add_pic}

-- A node at an address that no entry points to.
Live-fresh :
    {Float : Type 0} (ptr : ℕ) (node : CNode Float) (nodes : ℕ → Option (CNode Float)) (m : Map ℕ)
    → nodes ptr ≡ none
    → Live nodes m
    → Live (set_node ptr (some node) nodes) m
unfolding set_node
Live-fresh ptr node nodes [] e l = tt
Live-fresh ptr node nodes ((k, p) ∷ m) e l =
    ((l.0.0, ground arith, l.0.2), Live-fresh ptr node nodes m e l.1)

module _ (floats : Floats) (of_bits : ℕ → floats.Float) (float0 float1 : floats.Float) (ptr p : ℕ)
    (group : CGroup floats.Float) (s : Server) where
  open floats use {Float}

  abbrev pub picture : CNode Float
  picture = new_node floats of_bits float0 float1 (word (s.bufs p).c_data) (s.bufs p) group

  -- The house with the picture on top.
  abbrev pub added_house : CMakeHouse Float
  added_house = record {
    nodes = set_node ptr (some picture) group.m_make_house.nodes;
    m_node_map = insert group.m_auto_nodeid ptr group.m_make_house.m_node_map;
    m_node_layer_list = group.m_make_house.m_node_layer_list ++ ptr ∷ [];
    m_current_layer = group.m_make_house.m_current_layer + 1;
  }

  abbrev pub added_group : CGroup Float
  added_group = record group {
    m_make_house = added_house;
    m_auto_nodeid = (group.m_auto_nodeid + 1) % 2 ^ 32;
  }

  placed : CMakeHouse Float
  placed = record group.m_make_house {
    nodes = set_node ptr (some picture) group.m_make_house.nodes;
    m_current_layer = group.m_make_house.m_current_layer + 1;
  }

  set_lem :
      group.m_make_house.m_current_layer + 1 < 2 ^ 32
      → (set_current_layer
          ((group.m_make_house.m_current_layer + 1) % 2 ^ 32)
          (record group.m_make_house {
            nodes = set_node ptr (some picture) group.m_make_house.nodes;
          })).1
        ≡ placed
  unfolding set_current_layer placed
  set_lem h = ground arith

  add_lem :
      IsHouse group.m_make_house
      → group.m_make_house.nodes ptr ≡ none
      → add group.m_auto_nodeid (some ptr) placed ≡ some (0, added_house)
  unfolding add placed
  add_lem h e =
      rw
        (print_nodes-Live (set_node ptr (some picture) group.m_make_house.nodes)
          group.m_make_house.m_node_map
          (Live-fresh ptr picture group.m_make_house.nodes group.m_make_house.m_node_map e h.live))
        refl

  -- A client adds a picture while his room shows a house. The shown house is well-formed, the new
  -- object's address and the next id are not used yet, the layers are not used up, and the pictures with
  -- the new one have numbers that fit the message; the pool has a buffer for each student of the group.
  -- Then the handler has a defined result: the house stays well-formed, the new id leads to the picture,
  -- which stands on top; each student is sent a message, and the message's own buffer is back in the pool.
  pub handle_build_house_add_pic-Addressed :
      (room : CRoom) (houses : Houses Float) (entries qs more : List ℕ)
      → get_room_by_fd (s.bufs p).fd s.rooms ≡ some room
      → room.m_is_show ≡ 1
      → houses.shown ≡ group
      → IsHouse group.m_make_house
      → group.m_make_house.nodes ptr ≡ none
      → find group.m_auto_nodeid group.m_make_house.m_node_map ≡ none
      → group.m_make_house.m_current_layer + 1 < 2 ^ 32
      → node_data floats added_house.nodes added_house.m_node_map ≡ some entries
      → head_len + length (pictures added_house.m_node_map entries) ≤ data_len
      → s.bufpool.m_queue ≡ qs ++ more
      → length qs ≡ length group.m_student_map
      → length (s.bufs p).c_data ≡ data_len
      → Ready p s.bufs qs
      → (r : Server) × (handle_build_house_add_pic floats of_bits float0 float1 ptr
            (some p)
            houses
            s
          ≡ some (record houses { shown = added_group }, r))
        × IsHouse added_house
        × (find group.m_auto_nodeid added_house.m_node_map ≡ some ptr)
        × (added_house.nodes ptr ≡ some picture)
        × (r.sendqueue ≡ s.sendqueue ++ qs)
        × (r.bufpool.m_queue ≡ more ++ p ∷ [])
        × Addressed (λ fd. fd) r.bufs qs group.m_student_map
  unfolding handle_build_house_add_pic in_group add_in get_auto_node_id
  handle_build_house_add_pic-Addressed room houses entries qs more found show shown house free
        unused room_left numbers fits pool count full ready =
      let (r, e, queue, pool', addressed) =
        publish-Addressed floats p added_group entries s qs more numbers fits pool count full
          ready in
      let ran : add_in floats of_bits float0 float1 ptr (word (s.bufs p).c_data) p group s
          ≡ some (added_group, r) =
        rw (set_lem room_left, add_in) (rw (add_lem house free) e) in
      (
        r,
        rw (found, in_group) (rw show (rw (shown, add_in) (rw ran refl))),
        record {
          sorted =
              insert-Above 0 group.m_auto_nodeid ptr group.m_make_house.m_node_map (omega arith)
                house.sorted;
          live =
              Live-insert group.m_auto_nodeid ptr added_house.nodes group.m_make_house.m_node_map
                picture (set_node_self ptr (some picture) group.m_make_house.nodes) refl
                (Live-fresh ptr picture group.m_make_house.nodes group.m_make_house.m_node_map free
                  house.live);
        },
        find-insert 0 group.m_auto_nodeid group.m_auto_nodeid ptr group.m_make_house.m_node_map
              house.sorted
            ∙ rw (eq→== group.m_auto_nodeid group.m_auto_nodeid refl, unused) refl,
        set_node_self ptr (some picture) group.m_make_house.nodes,
        queue,
        pool',
        addressed,
      )
