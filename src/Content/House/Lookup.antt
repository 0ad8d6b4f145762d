-- ===== src/Content/House/Lookup.antt =====
-- The node of a layer: content/makehouse.cpp's get_node_id_by_layer.
use ec_server.Base.{
  ℕ, ◌≡◌, ◌≢◌, ◌⊎◌, inl, inr, refl, [], ◌∷◌, Option, none, some, arith, ◌==◌, if◌then◌else◌, ◌>>=◌,
  Map, find, Option-cases, Bool-cases, ne→==,
}
use ec_server.Content.House.Node.{CNode}
use ec_server.Content.House.{CMakeHouse, error_node_id, first_on_layer, get_node_id_by_layer}
use ec_server.Content.House.Nodes.{Live, IsHouse, Live-find}

module _ {Float : Type 0} where
  first_on_layer-Live :
      (layer : ℕ) (nodes : ℕ → Option (CNode Float)) (m : Map ℕ)
      → Live nodes m
      → ((first_on_layer layer nodes m ≡ some error_node_id)
          × ((k p : ℕ) (node : CNode Float)
              → find k m ≡ some p
              → nodes p ≡ some node
              → node.m_layer ≢ layer))
        ⊎ ((k : ℕ) × (p : ℕ) × (node : CNode Float) × (first_on_layer layer nodes m ≡ some k)
            × (nodes p ≡ some node)
            × (node.m_node_id ≡ k)
            × (node.m_layer ≡ layer))
  unfolding first_on_layer find
  first_on_layer-Live layer nodes [] l = inl (refl, λ k p node e _. absurd (cc))
  first_on_layer-Live layer nodes ((j, q) ∷ m) l =
      let (node, alive, i) = l.0 in
      let rest = first_on_layer-Live layer nodes m l.1 in
      elim (Bool-cases (node.m_layer == layer)) [
        | inl here ↦ inr (j, q, node, rw (alive, first_on_layer) (rw here), alive, i, ground arith)
        | inr other ↦ elim rest [
          | inr (k, p, n, e, a, b, c) ↦
              inr (k, p, n, rw (alive, first_on_layer) (rw other e), a, b, c)
          | inl (e, none_there) ↦ inl (
            rw (alive, first_on_layer) (rw other e),
            λ k p n found at_p. elim (Bool-cases (j == k)) [
              | inl hit ↦
                  let same : q ≡ p = ground arith in
                  let same_node : n ≡ node = ground arith in ground arith
              | inr miss ↦ none_there k p n (ground arith) at_p
            ],
          )
        ]
      ]

  -- The id, if it leads to a node on the layer.
  abbrev pub on_layer : ℕ → CMakeHouse Float → ℕ → Option ℕ
  on_layer layer house k = do
    p ← find k house.m_node_map
    node ← house.nodes p
    if node.m_layer == layer then some k else none

  -- On a well-formed house `get_node_id_by_layer` has a defined result: the id of a node on the
  -- layer, or -1 if no node of the house is on it.
  get_node_id_by_layer-IsHouse :
      (layer : ℕ) (house : CMakeHouse Float)
      → IsHouse house
      → ((get_node_id_by_layer layer house ≡ some error_node_id)
          × ((k : ℕ) → on_layer layer house k ≡ none))
        ⊎ ((k : ℕ) × (p : ℕ) × (node : CNode Float) × (get_node_id_by_layer layer house ≡ some k)
            × (house.nodes p ≡ some node)
            × (node.m_node_id ≡ k)
            × (node.m_layer ≡ layer))
  unfolding get_node_id_by_layer
  get_node_id_by_layer-IsHouse layer house h =
      elim (first_on_layer-Live layer house.nodes house.m_node_map h.live) [
        | inl (e, empty) ↦ inl (e, λ k. nowhere k empty)
        | inr found ↦ inr found
      ]
    where
      nowhere :
          (k : ℕ)
          → ((k p : ℕ) (node : CNode Float)
              → find k house.m_node_map ≡ some p
              → house.nodes p ≡ some node
              → node.m_layer ≢ layer)
          → on_layer layer house k ≡ none
      nowhere k empty = elim (Option-cases (find k house.m_node_map)) [
        | inl e ↦ rw e refl
        | inr (p, e) ↦
            let (node, alive, _) = Live-find k p house.nodes house.m_node_map e h.live in
            rw (e, alive, ne→== node.m_layer layer (empty k p node e alive)) refl
      ]
