-- ===== src/Content/House.antt =====
-- content/makehouse.h and makehouse.cpp: class CMakeHouse, the pictures of one house. The nodes that
-- a house has made are its heap, since no other house points to them.
pub mod Node
pub mod Layers
pub mod Nodes
pub mod Operations
pub mod Lookup
pub mod Dangling
use ec_server.Base.{
  ℕ, zero, suc, ◌+◌, List, [], ◌∷◌, ◌++◌, Option, none, some, ltb, ◌==◌, if◌then◌else◌, ◌>>=◌, Map,
  find, insert, erase, Bool, true, false, ◌>>◌,
}
use mathlib.Core.List.{reverse}
use Node.{CNode}

-- `nodes p` is the node at the address p, if it has been made and not deleted. The iterators of the
-- maps and lists follow these addresses.
pub record CMakeHouse (Float : Type 0) : Type 0 where
  pub nodes : ℕ → Option (CNode Float)
  pub m_node_map : Map ℕ
  pub m_node_layer_list : List ℕ
  pub m_current_layer : ℕ

-- How the compiler orders the two arguments of `std::swap (*iter, *(iter--))`.
pub data Order : Type 0 where
  left_first right_first : Order

-- A bidirectional iterator: what lies before it, nearest first, and what it points to and beyond.
pub record Iterator : Type 0 where
  pub before : List ℕ
  pub rest : List ℕ

abbrev pub at : List ℕ → List ℕ → Iterator
at bs rs = record { before = bs; rest = rs }

-- The list that an iterator moves over.
abbrev pub whole : Iterator → List ℕ
whole i = reverse i.before ++ i.rest

abbrev pub is_end : Iterator → Bool
is_end i = elim i.rest [ [] ↦ true | _ ↦ false ]

-- -1 as the pattern of an int, and so ERRORNODEID and ERRORLAYER.
abbrev pub minus_one : ℕ
minus_one = 0xffffffff

abbrev pub error_node_id : ℕ
error_node_id = minus_one

abbrev pub error_layer : ℕ
error_layer = minus_one

-- The loop of `layer_up`, from an iterator that is not at the end, with the rounds left and those made.
-- It stops at `begin ()`. In `std::swap (*iter, *(iter--))` the right argument is the element that
-- `iter` was at; if it is evaluated first, the left one is the element before, otherwise the same.
unfoldable pub up_loop : Order → ℕ → List ℕ → List ℕ → ℕ → ℕ × Iterator
up_loop order zero before rest i = (i, at before rest)
up_loop order (suc n) [] rest i = (i, at [] rest)
up_loop order (suc n) (prev ∷ before) [] i = (i, at (prev ∷ before) [])
up_loop right_first (suc n) (prev ∷ before) (cur ∷ rest) i =
    up_loop right_first n before (cur ∷ prev ∷ rest) (suc i)
up_loop left_first (suc n) (prev ∷ before) (cur ∷ rest) i =
    up_loop left_first n before (prev ∷ cur ∷ rest) (suc i)

-- `std::swap (*iter, *(iter++))` before the end. With the right argument first, the element after the
-- last one is read, which has no defined result.
unfoldable pub down_loop : Order → ℕ → List ℕ → List ℕ → ℕ → Option (ℕ × Iterator)
down_loop order zero before rest i = some (i, at before rest)
down_loop order (suc n) before [] i = some (i, at before [])
down_loop right_first (suc n) before (cur ∷ []) i = none
down_loop right_first (suc n) before (cur ∷ next ∷ rest) i =
    down_loop right_first n (next ∷ before) (cur ∷ rest) (suc i)
down_loop left_first (suc n) before (cur ∷ rest) i =
    down_loop left_first n (cur ∷ before) rest (suc i)

module _ {Float : Type 0} where
  unfoldable pub set_node :
      ℕ → Option (CNode Float) → (ℕ → Option (CNode Float)) → ℕ → Option (CNode Float)
  set_node p c nodes q = if p == q then c else nodes q

  -- `find` on the node map, and the node behind the pointer that it gives; a pointer to a node that
  -- is no more has no defined result.
  unfoldable pub modify :
      ℕ → (CNode Float → CNode Float) → CMakeHouse Float → Option (ℕ × CMakeHouse Float)
  unfolding find set_node
  modify node_id f house = elim (find node_id house.m_node_map) [
    | none ↦ some (1, house)
    | some p ↦ elim (house.nodes p) [
      | none ↦ none
      | some node ↦ some (0, record house { nodes = set_node p (some (f node)) house.nodes })
    ]
  ]

  unfoldable pub modify_scale : ℕ → Float → CMakeHouse Float → Option (ℕ × CMakeHouse Float)
  unfolding modify
  modify_scale node_id scale = modify node_id (λ node. record node { m_scale = scale })

  unfoldable pub modify_angle : ℕ → Float → CMakeHouse Float → Option (ℕ × CMakeHouse Float)
  unfolding modify
  modify_angle node_id angle = modify node_id (λ node. record node { m_angle = angle })

  unfoldable pub modify_move : ℕ → Float → Float → CMakeHouse Float → Option (ℕ × CMakeHouse Float)
  unfolding modify
  modify_move node_id x y =
      modify node_id (λ node. record node { m_position_x = x; m_position_y = y })

  -- The first node of the map, by its id, on the layer.
  unfoldable pub first_on_layer : ℕ → (ℕ → Option (CNode Float)) → Map ℕ → Option ℕ
  first_on_layer layer nodes [] = some error_node_id
  first_on_layer layer nodes ((node_id, p) ∷ m) =
      let rest = first_on_layer layer nodes m in
      elim (nodes p) [
        | none ↦ none
        | some node ↦ if node.m_layer == layer then some node_id else rest
      ]

  unfoldable pub get_node_id_by_layer : ℕ → CMakeHouse Float → Option ℕ
  unfolding first_on_layer
  get_node_id_by_layer layer house = first_on_layer layer house.nodes house.m_node_map

  unfoldable pub get_layer_by_node_id : ℕ → CMakeHouse Float → Option ℕ
  unfolding find
  get_layer_by_node_id node_id house = elim (find node_id house.m_node_map) [
    | none ↦ some error_layer
    | some p ↦ elim (house.nodes p) [ none ↦ none | some node ↦ some node.m_layer ]
  ]

  -- The output of every node's layer: a walk over the map.
  unfoldable pub print_nodes : (ℕ → Option (CNode Float)) → Map ℕ → Option (Unit {0})
  print_nodes nodes [] = some tt
  print_nodes nodes ((node_id, p) ∷ m) =
      let rest = print_nodes nodes m in elim (nodes p) [ none ↦ none | some node ↦ rest ]

  -- `p = none` is a null pointer. The node joins the list of layers also where the map has the id.
  unfoldable pub add : ℕ → Option ℕ → CMakeHouse Float → Option (ℕ × CMakeHouse Float)
  unfolding print_nodes insert
  add node_id none house = some (1, house)
  add node_id (some p) house = do
    print_nodes house.nodes house.m_node_map
    some (
      0,
      record house {
        m_node_layer_list = house.m_node_layer_list ++ p ∷ [];
        m_node_map = insert node_id p house.m_node_map;
      },
    )

  -- `delete` of a node that is no more has no defined result.
  unfoldable pub delete_node : ℕ → (ℕ → Option (CNode Float)) → Option (ℕ → Option (CNode Float))
  unfolding set_node
  delete_node p nodes = elim (nodes p) [ none ↦ none | some node ↦ some (set_node p none nodes) ]

  -- The node leaves the map, and not the list of layers.
  unfoldable pub del : ℕ → CMakeHouse Float → Option (ℕ × CMakeHouse Float)
  unfolding find erase delete_node
  del node_id house = elim (find node_id house.m_node_map) [
    | none ↦ some (1, house)
    | some p ↦ do
      nodes ← delete_node p house.nodes
      some (0, record house { nodes = nodes; m_node_map = erase node_id house.m_node_map })
  ]

  unfoldable pub delete_all : Map ℕ → (ℕ → Option (CNode Float)) → Option (ℕ → Option (CNode Float))
  unfolding delete_node
  delete_all [] nodes = some nodes
  delete_all ((node_id, p) ∷ m) nodes = elim (delete_node p nodes) [
    | none ↦ none
    | some nodes' ↦ delete_all m nodes'
  ]

  unfoldable pub cleanall : CMakeHouse Float → Option (ℕ × CMakeHouse Float)
  unfolding delete_all
  cleanall house = do
    nodes ← delete_all house.m_node_map house.nodes
    some (0, record house { nodes = nodes; m_node_map = [] })

  -- The walk of `get_iterator_by_node_id`, from an iterator on; it ends at `end ()` if there is no
  -- such node.
  unfoldable pub seek : ℕ → (ℕ → Option (CNode Float)) → List ℕ → List ℕ → Option Iterator
  seek node_id nodes before [] = some (at before [])
  seek node_id nodes before (p ∷ rest) =
      let further = seek node_id nodes (p ∷ before) rest in
      elim (nodes p) [
        | none ↦ none
        | some node ↦ if node.m_node_id == node_id then some (at before (p ∷ rest)) else further
      ]

  unfoldable pub layer_up : Order → ℕ → ℕ → CMakeHouse Float → Option (ℕ × CMakeHouse Float)
  unfolding seek up_loop
  layer_up order node_id count house = do
    iter ← seek node_id house.nodes [] house.m_node_layer_list
    if is_end iter
        then some (minus_one, house)
        else let (i, iter') = up_loop order count iter.before iter.rest 0 in
          some (i, record house { m_node_layer_list = whole iter' })

  unfoldable pub layer_down : Order → ℕ → ℕ → CMakeHouse Float → Option (ℕ × CMakeHouse Float)
  unfolding seek down_loop
  layer_down order node_id count house = do
    iter ← seek node_id house.nodes [] house.m_node_layer_list
    if is_end iter then some (minus_one, house) else do
      (i, iter') ← down_loop order count iter.before iter.rest 0
      some (i, record house { m_node_layer_list = whole iter' })

  unfoldable pub set_current_layer : ℕ → CMakeHouse Float → ℕ × CMakeHouse Float
  set_current_layer layer house =
      if ltb layer 1 then (1, house) else (0, record house { m_current_layer = layer })
