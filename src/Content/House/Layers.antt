-- ===== src/Content/House/Layers.antt =====
-- The order of the layers of a house: layer_up and layer_down of content/makehouse.cpp.
use mathlib.Core.List.{reverse, reverse_aux, reverse-reverse, reverse_aux-eq, reverse_aux-append}
use native.Mathlib.Nat.{zero-add}
use ec_server.Base.{
  ℕ, zero, suc, ◌+◌, ◌≤◌, ◌<◌, ◌≡◌, ◌≢◌, ◌⊎◌, inl, inr, refl, sym, ap, ◌∙◌, List, [], ◌∷◌, ◌++◌,
  Option, none, some, arith, length, append_assoc, length-reverse, ◌>>=◌,
}
use ec_server.Content.House.Node.{CNode}
use ec_server.Content.House.{
  CMakeHouse, at, left_first, right_first, up_loop, down_loop, seek, layer_up, layer_down,
}

module _ {Float : Type 0} where
  -- The nodes of a list are there, and have other ids.
  abbrev pub Skips : ℕ → (ℕ → Option (CNode Float)) → List ℕ → Type 0
  Skips k nodes [] = Unit {0}
  Skips k nodes (p ∷ ps) =
      ((node : CNode Float) × (nodes p ≡ some node) × (node.m_node_id ≢ k)) × Skips k nodes ps

  seek-Skips :
      (k : ℕ) (nodes : ℕ → Option (CNode Float)) (before ps : List ℕ) (x : ℕ) (node : CNode Float)
      (back : List ℕ)
      → Skips k nodes ps
      → nodes x ≡ some node
      → node.m_node_id ≡ k
      → seek k nodes before (ps ++ x ∷ back) ≡ some (at (reverse_aux ps before) (x ∷ back))
  unfolding seek
  seek-Skips k nodes before [] x node back s e i = rw e (ground arith)
  seek-Skips k nodes before (p ∷ ps) x node back s e i =
      rw s.0.1 (ground (arith, seek-Skips k nodes (p ∷ before) ps x node back s.1 e i))

-- The rounds end with the elements of `m`, or at the beginning of the list.
abbrev pub Ends : ℕ → List ℕ → List ℕ → Type 0
Ends n m b = (n ≡ length m) ⊎ ((b ≡ []) × (length m ≤ n))

Ends-suc : {n : ℕ} (p : ℕ) (m b : List ℕ) → Ends (suc n) (p ∷ m) b → Ends n m b
Ends-suc p m b (inl e) = inl (omega arith)
Ends-suc p m b (inr (e, h)) = inr (e, omega arith)

up_loop-right_first :
    (m b : List ℕ) (cur : ℕ) (rest : List ℕ) (n i : ℕ)
    → Ends n m b
    → up_loop right_first n (m ++ b) (cur ∷ rest) i
      ≡ (i + length m, at b (cur ∷ reverse_aux m rest))
unfolding up_loop
up_loop-right_first [] b cur rest zero i h = ground arith
up_loop-right_first [] [] cur rest (suc n) i h = ground arith
up_loop-right_first [] (p ∷ b) cur rest (suc n) i h = absurd (ground arith)
up_loop-right_first (p ∷ m) b cur rest zero i h = absurd (ground arith)
up_loop-right_first (p ∷ m) b cur rest (suc n) i h =
    ground (arith, up_loop-right_first m b cur (p ∷ rest) n (suc i) (Ends-suc p m b h))

up_loop-left_first :
    (m b : List ℕ) (cur : ℕ) (rest : List ℕ) (n i : ℕ)
    → Ends n m b
    → up_loop left_first n (m ++ b) (cur ∷ rest) i
      ≡ (i + length m, at b (reverse_aux m (cur ∷ rest)))
unfolding up_loop
up_loop-left_first [] b cur rest zero i h = ground arith
up_loop-left_first [] [] cur rest (suc n) i h = ground arith
up_loop-left_first [] (p ∷ b) cur rest (suc n) i h = absurd (ground arith)
up_loop-left_first (p ∷ m) b cur rest zero i h = absurd (ground arith)
up_loop-left_first (p ∷ m) b cur rest (suc n) i h =
    ground (arith, up_loop-left_first m b p (cur ∷ rest) n (suc i) (Ends-suc p m b h))

down_loop-right_first :
    (m : List ℕ) (b : List ℕ) (cur : ℕ) (rest : List ℕ) (i : ℕ)
    → down_loop right_first (length m) b (cur ∷ (m ++ rest)) i
      ≡ some (i + length m, at (reverse_aux m b) (cur ∷ rest))
unfolding down_loop
down_loop-right_first [] b cur rest i = ground arith
down_loop-right_first (p ∷ m) b cur rest i =
    ground (arith, down_loop-right_first m (p ∷ b) cur rest (suc i))

down_loop-falls :
    (m : List ℕ) (b : List ℕ) (cur n i : ℕ)
    → length m < n
    → down_loop right_first n b (cur ∷ m) i ≡ none
unfolding down_loop
down_loop-falls m b cur zero i h = elim h [ ]
down_loop-falls [] b cur (suc n) i h = refl
down_loop-falls (p ∷ m) b cur (suc n) i h = down_loop-falls m (p ∷ b) cur n (suc i) (omega arith)

-- Both lists of the loop, from the two parts of the list before the node.
start-eq : (front mid : List ℕ) → reverse_aux (front ++ mid) [] ≡ reverse mid ++ reverse front
start-eq front mid = rw (reverse_aux-append front mid []) (reverse_aux-eq mid (reverse front))

back-eq : (mid back : List ℕ) → reverse_aux (reverse mid) back ≡ mid ++ back
back-eq mid back = rw (reverse_aux-eq (reverse mid) back, reverse-reverse mid)

Ends-reverse :
    {n : ℕ} (front mid : List ℕ)
    → (n ≡ length mid) ⊎ ((front ≡ []) × (length mid ≤ n))
    → Ends n (reverse mid) (reverse front)
Ends-reverse front mid (inl e) = inl (omega (arith, length-reverse mid))
Ends-reverse front mid (inr (e, h)) = inr (ap reverse e, omega (arith, length-reverse mid))

turn : (front mid : List ℕ) → reverse (reverse_aux mid (reverse_aux front [])) ≡ front ++ mid
turn front mid = rw (← reverse_aux-append front mid []) (reverse-reverse (front ++ mid))

up_loop-parts :
    (front mid : List ℕ) (x : ℕ) (back : List ℕ) (n : ℕ)
    → (n ≡ length mid) ⊎ ((front ≡ []) × (length mid ≤ n))
    → up_loop right_first n (reverse_aux (front ++ mid) []) (x ∷ back) 0
      ≡ (length mid, at (reverse front) (x ∷ (mid ++ back)))
up_loop-parts front mid x back n h = rw (
  start-eq front mid,
  up_loop-right_first (reverse mid) (reverse front) x back n 0 (Ends-reverse front mid h),
  back-eq mid back,
  zero-add,
  length-reverse mid,
)

up_loop-parts_left :
    (front mid : List ℕ) (x : ℕ) (back : List ℕ) (n : ℕ)
    → (n ≡ length mid) ⊎ ((front ≡ []) × (length mid ≤ n))
    → up_loop left_first n (reverse_aux (front ++ mid) []) (x ∷ back) 0
      ≡ (length mid, at (reverse front) (mid ++ x ∷ back))
up_loop-parts_left front mid x back n h = rw (
  start-eq front mid,
  up_loop-left_first (reverse mid) (reverse front) x back n 0 (Ends-reverse front mid h),
  back-eq mid (x ∷ back),
  zero-add,
  length-reverse mid,
)

module _ {Float : Type 0} (house : CMakeHouse Float) (k x : ℕ) (node : CNode Float) where
  -- With the right argument evaluated first, `layer_up` moves the node by the count before the nodes
  -- that stood just before it, or to the beginning of the list if these are fewer; it returns how far
  -- the node has moved, and changes nothing else. The first node with the id is meant, and the nodes
  -- before it must not be deleted ones.
  pub layer_up-right_first :
      (front mid back : List ℕ) (n : ℕ)
      → house.m_node_layer_list ≡ front ++ (mid ++ x ∷ back)
      → Skips k house.nodes (front ++ mid)
      → house.nodes x ≡ some node
      → node.m_node_id ≡ k
      → (n ≡ length mid) ⊎ ((front ≡ []) × (length mid ≤ n))
      → layer_up right_first k n house
        ≡ some (length mid, record house { m_node_layer_list = front ++ x ∷ (mid ++ back) })
  unfolding layer_up
  layer_up-right_first front mid back n l s e i h =
      rw (l, ← append_assoc, seek-Skips k house.nodes [] (front ++ mid) x node back s e i)
        (rw (up_loop-parts front mid x back n h, reverse-reverse front))

  -- With the left argument evaluated first, each swap is of an element with itself: `layer_up`
  -- returns as if it had moved the node and leaves the house as it was.
  layer_up-left_first :
      (front mid back : List ℕ) (n : ℕ)
      → house.m_node_layer_list ≡ front ++ (mid ++ x ∷ back)
      → Skips k house.nodes (front ++ mid)
      → house.nodes x ≡ some node
      → node.m_node_id ≡ k
      → (n ≡ length mid) ⊎ ((front ≡ []) × (length mid ≤ n))
      → layer_up left_first k n house ≡ some (length mid, house)
  unfolding layer_up
  layer_up-left_first front mid back n l s e i h =
      rw (l, ← append_assoc, seek-Skips k house.nodes [] (front ++ mid) x node back s e i)
        (rw (up_loop-parts_left front mid x back n h, reverse-reverse front, append_assoc))

  -- With the right argument evaluated first, `layer_down` moves the node by the count behind the
  -- nodes that stood just after it, if there are so many; it returns the count, and changes nothing
  -- else.
  layer_down-right_first :
      (front mid back : List ℕ)
      → house.m_node_layer_list ≡ front ++ x ∷ (mid ++ back)
      → Skips k house.nodes front
      → house.nodes x ≡ some node
      → node.m_node_id ≡ k
      → layer_down right_first k (length mid) house
        ≡ some (length mid, record house { m_node_layer_list = front ++ (mid ++ x ∷ back) })
  unfolding layer_down
  layer_down-right_first front mid back l s e i =
      rw (l, seek-Skips k house.nodes [] front x node (mid ++ back) s e i)
        (rw (down_loop-right_first mid (reverse_aux front []) x back 0, turn front mid, zero-add)
          (rw append_assoc))

  -- With the right argument evaluated first, `layer_down` by more than the number of nodes behind the
  -- node swaps with the end of the list, which has no defined result.
  layer_down-falls :
      (front back : List ℕ) (n : ℕ)
      → house.m_node_layer_list ≡ front ++ x ∷ back
      → Skips k house.nodes front
      → house.nodes x ≡ some node
      → node.m_node_id ≡ k
      → length back < n
      → layer_down right_first k n house ≡ none
  unfolding layer_down
  layer_down-falls front back n l s e i h =
      rw (l, seek-Skips k house.nodes [] front x node back s e i)
        (rw (down_loop-falls back (reverse_aux front []) x n 0 h))

module _ {Float : Type 0} where
  Skips-front :
      (k : ℕ) (nodes : ℕ → Option (CNode Float)) (front mid : List ℕ)
      → Skips k nodes (front ++ mid)
      → Skips k nodes front
  Skips-front k nodes [] mid s = tt
  Skips-front k nodes (p ∷ front) mid s = (s.0, Skips-front k nodes front mid s.1)

  -- With the right argument evaluated first, moving a node up and then down by the same count, as far
  -- as the list reaches, leaves the house as it was.
  pub layer_down-layer_up :
      (house : CMakeHouse Float) (k x : ℕ) (node : CNode Float) (front mid back : List ℕ)
      → house.m_node_layer_list ≡ front ++ (mid ++ x ∷ back)
      → Skips k house.nodes (front ++ mid)
      → house.nodes x ≡ some node
      → node.m_node_id ≡ k
      → (layer_up right_first k (length mid) house >>= λ up.
          layer_down right_first k (length mid) up.1)
        ≡ some (length mid, house)
  layer_down-layer_up house k x node front mid back l s e i =
      rw (layer_up-right_first house k x node front mid back (length mid) l s e i (inl refl)) (
        layer_down-right_first (record house { m_node_layer_list = front ++ x ∷ (mid ++ back) }) k x
          node front mid back refl (Skips-front k house.nodes front mid s) e i
        ∙ ap (λ (xs : List ℕ). some (length mid, record house { m_node_layer_list = xs })) (sym l))
