-- ===== src/Content/House/Dangling.antt =====
-- The list of layers of a house (content/makehouse.cpp) after a node is deleted.
use ec_server.Base.{ℕ, ◌≡◌, refl, List, [], ◌∷◌, ◌++◌, Option, none, some, arith, ◌>>=◌, find}
use ec_server.Content.House.Node.{CNode}
use ec_server.Content.House.{
  CMakeHouse, Order, seek, layer_up, layer_down, set_node, delete_node, del,
}
use ec_server.Content.House.Layers.{Skips}
use ec_server.Content.House.Nodes.{IsHouse, set_node_self, Live-find}

module _ {Float : Type 0} where
  seek-dangling :
      (j p : ℕ) (nodes : ℕ → Option (CNode Float)) (before front back : List ℕ)
      → Skips j nodes front
      → nodes p ≡ none
      → seek j nodes before (front ++ p ∷ back) ≡ none
  unfolding seek
  seek-dangling j p nodes before [] back s e = rw (seek, e)
  seek-dangling j p nodes before (q ∷ front) back s e =
      let rest = seek-dangling j p nodes (q ∷ before) front back s.1 e in
      rw (seek, s.0.1) (ground (arith, rest, s.0.2))

  -- Once a node of the map is deleted by `del`, the list of layers still holds its address: `layer_up`
  -- and `layer_down` of a node that does not stand before it in the list follow a pointer to a deleted
  -- node, which has no defined result.
  layer_up-del :
      (order : Order) (k p j n : ℕ) (house : CMakeHouse Float) (front back : List ℕ)
      → IsHouse house
      → find k house.m_node_map ≡ some p
      → house.m_node_layer_list ≡ front ++ p ∷ back
      → Skips j (set_node p none house.nodes) front
      → ((del k house >>= λ r. layer_up order j n r.1) ≡ none)
        × ((del k house >>= λ r. layer_down order j n r.1) ≡ none)
  unfolding del layer_up layer_down
  layer_up-del order k p j n house front back h found l s =
      let (node, alive, _) = Live-find k p house.nodes house.m_node_map found h.live in
      let stuck =
        seek-dangling j p (set_node p none house.nodes) [] front back s
          (set_node_self p none house.nodes) in
      rw (found, del) (rw (alive, delete_node) (rw l (rw stuck (refl, refl))))
