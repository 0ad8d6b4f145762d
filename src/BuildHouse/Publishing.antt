-- ===== src/BuildHouse/Publishing.antt =====
-- What the handlers of handler/HandleBuildHouse.cpp change in a house, and what they tell its students.
use mathlib.Core.List.{reverse_aux, reverse_aux-eq}
use ec_server.Base.{
  ℕ, ◌+◌, ◌-◌, ◌<◌, ◌^◌, ◌≡◌, ◌≢◌, refl, sym, ap, ◌∙◌, List, [], ◌∷◌, ◌++◌, Option, some, false,
  ◌==◌, ◌>>=◌, drop, arith, Bool-cases, Option-cases, inl, inr, ne→==,
}
use ec_server.Socket.{word}
use ec_server.Server.{Server}
use ec_server.Content.Picture.{Floats}
use ec_server.Content.House.Node.{CNode}
use ec_server.Content.House.{
  CMakeHouse, Order, Iterator, at, seek, is_end, minus_one, up_loop, down_loop,
  get_node_id_by_layer, layer_up, layer_down,
}
use ec_server.Content.Group.{CGroup, is_positive}
use ec_server.GroupMessages.{send_to_other_student}
use ec_server.BuildHouse.{
  st_build_house_update, sub_int, set_buf, publish, with_house, change_layer,
  handle_build_house_change_layer,
}

module _ {Float : Type 0} where
  -- Every node of the list is there.
  abbrev pub Alive : (ℕ → Option (CNode Float)) → List ℕ → Type 0
  Alive nodes [] = Unit {0}
  Alive nodes (p ∷ ps) = ((node : CNode Float) × (nodes p ≡ some node)) × Alive nodes ps

  seek-Alive :
      (k : ℕ) (nodes : ℕ → Option (CNode Float)) (before rest : List ℕ)
      → Alive nodes rest
      → (iter : Iterator) × (seek k nodes before rest ≡ some iter)
        × (reverse_aux iter.before iter.rest ≡ reverse_aux before rest)
  unfolding seek
  seek-Alive k nodes before [] l = (at before [], refl, refl)
  seek-Alive k nodes before (p ∷ rest) l = elim (Bool-cases (l.0.0.m_node_id == k)) [
    | inl hit ↦ (at before (p ∷ rest), rw (seek, l.0.1) (rw hit refl), refl)
    | inr miss ↦
        let (iter, e, same) = seek-Alive k nodes (p ∷ before) rest l.1 in
        (iter, rw (seek, l.0.1) (rw miss e), same)
  ]

  -- `layer_up` of no rounds leaves the house as it is.
  layer_up-zero :
      (order : Order) (k : ℕ) (house : CMakeHouse Float)
      → Alive house.nodes house.m_node_layer_list
      → (i : ℕ) × (layer_up order k 0 house ≡ some (i, house))
  unfolding layer_up up_loop
  layer_up-zero order k house l =
      let (iter, e, same) = seek-Alive k house.nodes [] house.m_node_layer_list l in
      let whole : reverse_aux iter.before [] ++ iter.rest ≡ house.m_node_layer_list =
        sym (reverse_aux-eq iter.before iter.rest) ∙ same in
      elim (Bool-cases (is_end iter)) [
        | inl end ↦ (minus_one, rw (layer_up, e) (rw end refl))
        | inr more ↦ (
          0,
          rw (layer_up, e)
              (rw more (ap (λ ps. some (0, record house { m_node_layer_list = ps })) whole)),
        )
      ]

  layer_up-keeps :
      (order : Order) (k n i : ℕ) (house after : CMakeHouse Float)
      → layer_up order k n house ≡ some (i, after)
      → (after.nodes ≡ house.nodes) × (after.m_node_map ≡ house.m_node_map)
  unfolding layer_up
  layer_up-keeps order k n i house after e =
      elim (Option-cases (seek k house.nodes [] house.m_node_layer_list)) [
        | inl none_there ↦ absurd (ground (arith, e, none_there))
        | inr (iter, s) ↦ elim (Bool-cases (is_end iter)) [
          | inl end ↦ ground (arith, e, s, end)
          | inr more ↦ ground (arith, e, s, more)
        ]
      ]

  layer_down-keeps :
      (order : Order) (k n i : ℕ) (house after : CMakeHouse Float)
      → layer_down order k n house ≡ some (i, after)
      → (after.nodes ≡ house.nodes) × (after.m_node_map ≡ house.m_node_map)
  unfolding layer_down
  layer_down-keeps order k n i house after e =
      elim (Option-cases (seek k house.nodes [] house.m_node_layer_list)) [
        | inl none_there ↦ absurd (ground (arith, e, none_there))
        | inr (iter, s) ↦ elim (Bool-cases (is_end iter)) [
          | inl end ↦ ground (arith, e, s, end)
          | inr more ↦ elim (Option-cases (down_loop order n iter.before iter.rest 0)) [
            | inl falls ↦ absurd (ground (arith, e, s, more, falls))
            | inr (r, d) ↦ ground (arith, e, s, more, d)
          ]
        ]
      ]

  -- Neither way of changing a layer touches the nodes and their map.
  change_layer-keeps :
      (order : Order) (k count i : ℕ) (house after : CMakeHouse Float)
      → change_layer order k count house ≡ some (i, after)
      → (after.nodes ≡ house.nodes) × (after.m_node_map ≡ house.m_node_map)
  unfolding change_layer
  change_layer-keeps order k count i house after e = elim (Bool-cases (is_positive count)) [
    | inl down ↦ layer_down-keeps order k count i house after (rw (change_layer, down) at e)
    | inr up ↦ layer_up-keeps order k 0 i house after (rw (change_layer, up) at e)
  ]

sub_int-raise :
    (a b : ℕ)
    → a < b
    → b < 2 ^ 31
    → (c : ℕ) × (sub_int a b ≡ some c) × (is_positive c ≡ false) × (c ≢ 0)
unfolding sub_int
sub_int-raise a b h l = (a + 2 ^ 32 - b, ground arith, ground arith, omega (arith, h, l))

module _ (floats : Floats) (order : Order) (p id : ℕ) where
  open floats use {Float}

  -- The layer is changed in the house, but what the students are sent is what the house held before:
  -- the message is written from the nodes and their map, which a change of the layer leaves alone.
  pub handle_build_house_change_layer-stale :
      (count i : ℕ) (group : CGroup Float) (after : CMakeHouse Float) (s : Server)
      → get_node_id_by_layer (word (s.bufs p).c_data) group.m_make_house ≡ some id
      → sub_int (word (s.bufs p).c_data) (word (drop 4 (s.bufs p).c_data)) ≡ some count
      → count ≢ 0
      → change_layer order id count group.m_make_house ≡ some (i, after)
      → handle_build_house_change_layer floats order (some p) group s ≡ (
          set_buf floats p group s >>= λ packed.
          send_to_other_student (some p) st_build_house_update group.m_student_map packed
          >>= λ sent. some (with_house floats after group, sent))
  unfolding handle_build_house_change_layer publish set_buf
  handle_build_house_change_layer-stale count i group after s found difference moves changed =
      let (nodes, map) = change_layer-keeps order id count i group.m_make_house after changed in
      rw (handle_build_house_change_layer, found)
        (rw difference (rw (ne→== count 0 moves) (rw changed (rw (nodes, map) refl))))

  -- A picture is to be raised: its new layer is above its own. `layer_up` gets the difference, which is
  -- negative, and makes no round; the house is as it was, and the students are sent it once more.
  handle_build_house_change_layer-stays :
      (group : CGroup Float) (s : Server)
      → get_node_id_by_layer (word (s.bufs p).c_data) group.m_make_house ≡ some id
      → word (s.bufs p).c_data < word (drop 4 (s.bufs p).c_data)
      → word (drop 4 (s.bufs p).c_data) < 2 ^ 31
      → Alive group.m_make_house.nodes group.m_make_house.m_node_layer_list
      → handle_build_house_change_layer floats order (some p) group s ≡ publish floats p group s
  unfolding handle_build_house_change_layer change_layer
  handle_build_house_change_layer-stays group s found raise int alive =
      let (c, difference, up, moves) =
        sub_int-raise (word (s.bufs p).c_data) (word (drop 4 (s.bufs p).c_data)) raise int in
      let (i, same) = layer_up-zero order id group.m_make_house alive in
      rw (handle_build_house_change_layer, found)
        (rw difference (rw (ne→== c 0 moves) (rw (change_layer, up) (rw same refl))))
