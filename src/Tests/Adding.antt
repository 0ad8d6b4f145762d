-- ===== src/Tests/Adding.antt =====
-- A picture that is added while a room shows a house.
use ec_server.Base.{ℕ, ◌%◌, ◌≡◌, refl, List, [], ◌∷◌, none, some, find, insert, arith}
use ec_server.Server.{Server}
use ec_server.Content.Room.{CRoom, get_room_by_fd}
use ec_server.Content.House.Nodes.{IsHouse}
use ec_server.Content.House.{set_node}
use ec_server.GroupMessages.Copies.{Addressed}
use ec_server.BuildHouse.{node_data}
use ec_server.BuildHouse.Pictures.{Houses, handle_build_house_add_pic, short}
use ec_server.BuildHouse.Pictures.Adding.{
  picture, added_house, added_group, handle_build_house_add_pic-Addressed,
}
use ec_server.Tests.Picture.{tenths}
use ec_server.Tests.House.{house, house-IsHouse}
use ec_server.Tests.Room.{room}
use ec_server.Tests.BuildHouse.{group, server, ready}

abbrev showing : CRoom
showing = record room { m_is_show = 1 }

abbrev before : Server
before = record (server 5 30) { rooms = (1, showing) ∷ [] }

abbrev of_bits : ℕ → ℕ
of_bits n = n % 1000

abbrev houses : Houses ℕ
houses = record {
  shown = group;
  of_room = λ id. record { heap = λ p. none; next = 1; m_buildhouse_groups = [] };
}

entries : List ℕ
unfolding node_data set_node short
entries =
    elim (node_data tenths (added_house tenths of_bits 0 10 105 50 group before).nodes
      (added_house tenths of_bits 0 10 105 50 group before).m_node_map) [
        | none ↦ []
        | some bytes ↦ bytes
      ]

shows : get_room_by_fd 7 ((1, showing) ∷ []) ≡ some showing
unfolding get_room_by_fd
shows = refl

unused : find 4 house.m_node_map ≡ none
unfolding find
unused = refl

numbers :
    node_data tenths
      (added_house tenths of_bits 0 10 105 50 group before).nodes
      (added_house tenths of_bits 0 10 105 50 group before).m_node_map
    ≡ some entries
unfolding entries insert
numbers = refl

handle_build_house_add_pic-Addressed_example :
    (r : Server) × (handle_build_house_add_pic tenths of_bits 0 10 105 (some 50) houses before
      ≡ some (record houses { shown = added_group tenths of_bits 0 10 105 50 group before }, r))
    × IsHouse (added_house tenths of_bits 0 10 105 50 group before)
    × (find 4 (added_house tenths of_bits 0 10 105 50 group before).m_node_map ≡ some 105)
    × ((added_house tenths of_bits 0 10 105 50 group before).nodes 105
        ≡ some (picture tenths of_bits 0 10 105 50 group before))
    × (r.sendqueue ≡ 51 ∷ 52 ∷ [])
    × (r.bufpool.m_queue ≡ 53 ∷ 50 ∷ [])
    × Addressed (λ fd. fd) r.bufs (51 ∷ 52 ∷ []) group.m_student_map
unfolding entries insert
handle_build_house_add_pic-Addressed_example =
    handle_build_house_add_pic-Addressed tenths of_bits 0 10 105 50 group before showing houses
      entries (51 ∷ 52 ∷ []) (53 ∷ []) shows refl refl house-IsHouse refl unused (omega arith)
      numbers (omega arith) refl refl refl ready
