-- ===== src/Tests/House.antt =====
-- A house of content/makehouse.cpp with three nodes.
use ec_server.Base.{
  ℕ, ◌+◌, ◌≡◌, ◌⊎◌, inr, refl, [], ◌∷◌, Option, none, some, arith, ◌==◌, if◌then◌else◌, ◌>>=◌, find,
  or_else,
}
use ec_server.Content.House.Node.{CNode}
use ec_server.Content.House.{CMakeHouse, right_first, layer_up, layer_down, set_node, add, del}
use ec_server.Content.House.Layers.{Skips, layer_up-right_first, layer_down-layer_up}
use ec_server.Content.House.Nodes.{IsHouse}
use ec_server.Content.House.Operations.{del-IsHouse, add-IsHouse}

abbrev node : ℕ → CNode ℕ
node id = record {
  m_position_x = 10;
  m_position_y = 20;
  m_layer = id + 1;
  m_client_fd = 0;
  m_node_id = id;
  m_angle = 0;
  m_scale = 1;
  m_sname = 5;
  m_student_id = 8;
}

-- The nodes 1 to 4, at 101 to 104; the house has the first three.
abbrev heap : ℕ → Option (CNode ℕ)
heap p =
    if p == 101
    then some (node 1)
    else if p == 102
    then some (node 2)
    else if p == 103
    then some (node 3)
    else if p == 104
    then some (node 4)
    else none

abbrev pub house : CMakeHouse ℕ
house = record {
  nodes = heap;
  m_node_map = (1, 101) ∷ (2, 102) ∷ (3, 103) ∷ [];
  m_node_layer_list = 101 ∷ 102 ∷ 103 ∷ [];
  m_current_layer = 1;
}

pub house-IsHouse : IsHouse house
house-IsHouse = record {
  sorted = ground arith;
  live = ((node 1, refl, refl), ((node 2, refl, refl), ((node 3, refl, refl), tt)));
}

skips : Skips 3 heap (101 ∷ 102 ∷ [])
skips = ((node 1, refl, omega arith), ((node 2, refl, omega arith), tt))

layer_up-right_first_example :
    layer_up right_first 3 9 house
    ≡ some (2, record house { m_node_layer_list = 103 ∷ 101 ∷ 102 ∷ [] })
layer_up-right_first_example =
    layer_up-right_first house 3 103 (node 3) [] (101 ∷ 102 ∷ []) [] 9 refl skips refl refl
      (inr (refl, omega arith))

layer_down-layer_up_example :
    (layer_up right_first 3 1 house >>= λ up. layer_down right_first 3 1 up.1) ≡ some (1, house)
layer_down-layer_up_example =
    layer_down-layer_up house 3 103 (node 3) (101 ∷ []) (102 ∷ []) [] refl skips refl refl

del-IsHouse_example :
    (code : ℕ) × (after : CMakeHouse ℕ) × (del 2 house ≡ some (code, after))
    × IsHouse after
    × (after.m_node_layer_list ≡ house.m_node_layer_list)
    × ((j : ℕ) → find j after.m_node_map ≡ (if 2 == j then none else find j house.m_node_map))
    × (((p : ℕ) × (find 2 house.m_node_map ≡ some p) × (code ≡ 0) × (after.nodes p ≡ none))
        ⊎ ((find 2 house.m_node_map ≡ none) × (code ≡ 1) × (after ≡ house)))
del-IsHouse_example = del-IsHouse 2 house house-IsHouse

add-IsHouse_example :
    (after : CMakeHouse ℕ) × (add 4 (some 104) house ≡ some (0, after))
    × IsHouse after
    × (after.m_node_layer_list ≡ 101 ∷ 102 ∷ 103 ∷ 104 ∷ [])
    × ((j : ℕ)
        → find j after.m_node_map
          ≡ (if 4 == j then or_else (find 4 house.m_node_map) 104 else find j house.m_node_map))
add-IsHouse_example = add-IsHouse 4 104 (node 4) house refl refl house-IsHouse

Skips-deleted : Skips 3 (set_node 102 none heap) (101 ∷ [])
unfolding set_node
Skips-deleted = ((node 1, refl, omega arith), tt)

found_two : find 2 house.m_node_map ≡ some 102
unfolding find
found_two = refl
