-- ===== src/Content/House/Operations.antt =====
-- What the operations on the node map of a house do: content/makehouse.cpp's add, del, cleanall and
-- the modify functions.
use ec_server.Base.{
  ℕ, ◌≡◌, ◌⊎◌, inl, inr, refl, [], ◌∷◌, ◌++◌, Option, none, some, arith, ◌==◌, if◌then◌else◌, ◌>>=◌,
  find, insert, erase, insert-Above, erase-Above, find-insert, find-erase, Option-cases, or_else,
}
use ec_server.Content.House.Node.{CNode}
use ec_server.Content.House.{CMakeHouse, set_node, modify, add, delete_node, del, cleanall}
use ec_server.Content.House.Nodes.{
  IsHouse, set_node_self, Live-find, Live-set, Live-erase, Live-insert, delete_all-Live,
  print_nodes-Live,
}

module _ {Float : Type 0} where
  -- `modify_scale`, `modify_angle` and `modify_move` have a defined result on a well-formed house and
  -- keep it well-formed. For an id that the house has, they return 0 and change that node alone; for
  -- any other they return 1 and change nothing.
  modify-IsHouse :
      (k : ℕ) (f : CNode Float → CNode Float) (house : CMakeHouse Float)
      → ((node : CNode Float) → (f node).m_node_id ≡ node.m_node_id)
      → IsHouse house
      → (code : ℕ) × (after : CMakeHouse Float) × (modify k f house ≡ some (code, after))
        × IsHouse after
        × (((p : ℕ) × (node : CNode Float) × (find k house.m_node_map ≡ some p)
              × (house.nodes p ≡ some node)
              × (code ≡ 0)
              × (after ≡ record house { nodes = set_node p (some (f node)) house.nodes }))
            ⊎ ((find k house.m_node_map ≡ none) × (code ≡ 1) × (after ≡ house)))
  unfolding modify
  modify-IsHouse k f house same h = elim (Option-cases (find k house.m_node_map)) [
    | inl gone ↦ (1, house, rw (gone, modify), h, inr (gone, refl, refl))
    | inr (p, found) ↦
        let (node, alive, i) = Live-find k p house.nodes house.m_node_map found h.live in
        (
          0,
          record house { nodes = set_node p (some (f node)) house.nodes },
          rw (found, modify) (rw alive),
          record {
            sorted = h.sorted;
            live = Live-set 0 p (f node) house.nodes house.m_node_map node alive (same node) h.live;
          },
          inl (p, node, found, alive, refl, refl),
        )
  ]

  -- In a house whose map of nodes is in the order of the ids and leads to nodes that are there and have
  -- these ids, `del` has a defined result and keeps the map so. For an id that the map has, it returns 0,
  -- and the map is left without the id and the node is gone; for any other it returns 1 and changes
  -- nothing. The other ids keep their nodes' addresses. The list of layers is left as it was, with the
  -- address of the deleted node if it had it.
  pub del-IsHouse :
      (k : ℕ) (house : CMakeHouse Float)
      → IsHouse house
      → (code : ℕ) × (after : CMakeHouse Float) × (del k house ≡ some (code, after))
        × IsHouse after
        × (after.m_node_layer_list ≡ house.m_node_layer_list)
        × ((j : ℕ) → find j after.m_node_map ≡ (if k == j then none else find j house.m_node_map))
        × (((p : ℕ) × (find k house.m_node_map ≡ some p) × (code ≡ 0) × (after.nodes p ≡ none))
            ⊎ ((find k house.m_node_map ≡ none) × (code ≡ 1) × (after ≡ house)))
  unfolding del delete_node
  del-IsHouse k house h = elim (Option-cases (find k house.m_node_map)) [
    | inl gone ↦ (1, house, rw (gone, del), h, refl, λ j. unfound j gone, inr (gone, refl, refl))
    | inr (p, found) ↦
        let (node, alive, i) = Live-find k p house.nodes house.m_node_map found h.live in
        (
          0,
          record house {
            nodes = set_node p none house.nodes;
            m_node_map = erase k house.m_node_map;
          },
          rw (found, del) (rw (alive, delete_node)),
          record {
            sorted = erase-Above 0 k house.m_node_map h.sorted;
            live = Live-erase 0 k p house.nodes house.m_node_map h.sorted found h.live;
          },
          refl,
          λ j. find-erase 0 k j house.m_node_map h.sorted,
          inl (p, found, refl, set_node_self p none house.nodes),
        )
  ]
    where
      unfound :
          (j : ℕ)
          → find k house.m_node_map ≡ none
          → find j house.m_node_map ≡ (if k == j then none else find j house.m_node_map)
      unfound j gone = ground arith

  -- `cleanall` has a defined result on a well-formed house: it deletes each node of the map once,
  -- returns 0 and leaves a well-formed house with no node.
  cleanall-IsHouse :
      (house : CMakeHouse Float)
      → IsHouse house
      → (after : CMakeHouse Float) × (cleanall house ≡ some (0, after))
        × IsHouse after
        × (after.m_node_map ≡ [])
        × ((k : ℕ) → (find k house.m_node_map >>= after.nodes) ≡ none)
  unfolding cleanall
  cleanall-IsHouse house h =
      let (nodes, e, _, gone) = delete_all-Live 0 house.nodes house.m_node_map h.sorted h.live in
      (
        record house { nodes = nodes; m_node_map = [] },
        rw e,
        record { sorted = tt; live = tt },
        refl,
        λ k. each k nodes gone,
      )
    where
      each :
          (k : ℕ) (nodes : ℕ → Option (CNode Float))
          → ((k p : ℕ) → find k house.m_node_map ≡ some p → nodes p ≡ none)
          → (find k house.m_node_map >>= nodes) ≡ none
      each k nodes gone = elim (Option-cases (find k house.m_node_map)) [
        | inl e ↦ rw e refl
        | inr (p, e) ↦ rw e (gone k p e)
      ]

  -- `add` of a node that is there, under its own id, to a well-formed house: it returns 0, the house
  -- stays well-formed and the node stands on top of the layers. The id leads to the new node if the
  -- house did not have it, and to the old one if it had; the other ids are as they were.
  pub add-IsHouse :
      (k p : ℕ) (node : CNode Float) (house : CMakeHouse Float)
      → house.nodes p ≡ some node
      → node.m_node_id ≡ k
      → IsHouse house
      → (after : CMakeHouse Float) × (add k (some p) house ≡ some (0, after))
        × IsHouse after
        × (after.m_node_layer_list ≡ house.m_node_layer_list ++ p ∷ [])
        × ((j : ℕ)
            → find j after.m_node_map
              ≡ (if k == j then or_else (find k house.m_node_map) p else find j house.m_node_map))
  unfolding add
  add-IsHouse k p node house e i h = (
    record house {
      m_node_layer_list = house.m_node_layer_list ++ p ∷ [];
      m_node_map = insert k p house.m_node_map;
    },
    rw (print_nodes-Live house.nodes house.m_node_map h.live),
    record {
      sorted = insert-Above 0 k p house.m_node_map (omega arith) h.sorted;
      live = Live-insert k p house.nodes house.m_node_map node e i h.live;
    },
    refl,
    λ j. find-insert 0 k j p house.m_node_map h.sorted,
  )
