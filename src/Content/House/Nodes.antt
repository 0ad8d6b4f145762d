-- ===== src/Content/House/Nodes.antt =====
-- The node map of a house: content/makehouse.cpp's add, del, cleanall and modify functions.
use ec_server.Base.{
  ℕ, suc, ◌<◌, ◌≡◌, ◌≢◌, inl, inr, refl, ◌∙◌, [], ◌∷◌, Option, none, some, arith, ◌==◌, Map, find,
  insert, erase, Above, IsSorted, Bool-cases, false, ltb,
}
use ec_server.Content.House.Node.{CNode}
use ec_server.Content.House.{CMakeHouse, set_node, print_nodes, delete_node, delete_all}

module _ {Float : Type 0} where
  -- Each entry points to a node that is there, and that has the entry's id.
  abbrev pub Live : (ℕ → Option (CNode Float)) → Map ℕ → Type 0
  Live nodes [] = Unit {0}
  Live nodes ((k, p) ∷ m) =
      ((node : CNode Float) × (nodes p ≡ some node) × (node.m_node_id ≡ k)) × Live nodes m

  pub record IsHouse (house : CMakeHouse Float) : Type 0 where
    pub sorted : IsSorted house.m_node_map
    pub live : Live house.nodes house.m_node_map

  pub set_node_ne :
      (p q : ℕ) (c : Option (CNode Float)) (nodes : ℕ → Option (CNode Float))
      → p ≢ q
      → set_node p c nodes q ≡ nodes q
  unfolding set_node
  set_node_ne p q c nodes h = ground arith

  pub set_node_self :
      (p : ℕ) (c : Option (CNode Float)) (nodes : ℕ → Option (CNode Float))
      → set_node p c nodes p ≡ c
  unfolding set_node
  set_node_self p c nodes = ground arith

  pub set_node-none :
      (p q : ℕ) (nodes : ℕ → Option (CNode Float)) → nodes q ≡ none → set_node p none nodes q ≡ none
  unfolding set_node
  set_node-none p q nodes h = ground arith

  -- A change of one node that no entry of the map points to.
  pub Live-other :
      (b p : ℕ) (c : Option (CNode Float)) (nodes : ℕ → Option (CNode Float)) (m : Map ℕ)
      (node : CNode Float)
      → Above b m
      → nodes p ≡ some node
      → node.m_node_id < b
      → Live nodes m
      → Live (set_node p c nodes) m
  unfolding set_node
  Live-other b p c nodes [] node a e i l = tt
  Live-other b p c nodes ((k, q) ∷ m) node a e i l =
      ((l.0.0, ground arith, l.0.2), Live-other (suc k) p c nodes m node a.1 e (omega arith) l.1)

  pub Live-set :
      (b p : ℕ) (n' : CNode Float) (nodes : ℕ → Option (CNode Float)) (m : Map ℕ)
      (node : CNode Float)
      → nodes p ≡ some node
      → n'.m_node_id ≡ node.m_node_id
      → Live nodes m
      → Live (set_node p (some n') nodes) m
  unfolding set_node
  Live-set b p n' nodes [] node e i l = tt
  Live-set b p n' nodes ((k, q) ∷ m) node e i l = elim (Bool-cases (p == q)) [
    | inl same ↦ ((n', ground arith, ground arith), Live-set b p n' nodes m node e i l.1)
    | inr other ↦ ((l.0.0, ground arith, l.0.2), Live-set b p n' nodes m node e i l.1)
  ]

  pub Live-find :
      (k p : ℕ) (nodes : ℕ → Option (CNode Float)) (m : Map ℕ)
      → find k m ≡ some p
      → Live nodes m
      → (node : CNode Float) × (nodes p ≡ some node) × (node.m_node_id ≡ k)
  unfolding find
  Live-find k p nodes [] e l = cc
  Live-find k p nodes ((j, q) ∷ m) e l = elim (Bool-cases (j == k)) [
    | inl here ↦ (l.0.0, ground arith, ground arith)
    | inr there ↦ Live-find k p nodes m (ground arith) l.1
  ]

  -- A node leaves the heap with its entry.
  pub Live-erase :
      (b k p : ℕ) (nodes : ℕ → Option (CNode Float)) (m : Map ℕ)
      → Above b m
      → find k m ≡ some p
      → Live nodes m
      → Live (set_node p none nodes) (erase k m)
  unfolding find erase
  Live-erase b k p nodes [] a e l = cc
  Live-erase b k p nodes ((j, q) ∷ m) a e l = elim (Bool-cases (j == k)) [
    | inl here ↦
        let e' : q ≡ p = ground arith in
        rw here
          (Live-other (suc j) p none nodes m l.0.0 a.1 (ground arith) (omega (arith, l.0.2)) l.1)
    | inr there ↦
        let found : find k m ≡ some p = ground arith in
        rw there (
          (l.0.0, set_node_ne p q none nodes (apart there found) ∙ l.0.1, l.0.2),
          Live-erase (suc j) k p nodes m a.1 found l.1,
        )
  ]
    where
      apart : (j == k) ≡ false → find k m ≡ some p → p ≢ q
      apart there found s =
          let (node, alive, i) = Live-find k p nodes m found l.1 in
          let e' : l.0.0 ≡ node = ground arith in ground arith

  pub delete_all-Live :
      (b : ℕ) (nodes : ℕ → Option (CNode Float)) (m : Map ℕ)
      → Above b m
      → Live nodes m
      → (after : ℕ → Option (CNode Float)) × (delete_all m nodes ≡ some after)
        × ((q : ℕ) → nodes q ≡ none → after q ≡ none)
        × ((k p : ℕ) → find k m ≡ some p → after p ≡ none)
  unfolding delete_all delete_node find
  delete_all-Live b nodes [] a l = (nodes, refl, λ q e. e, λ k p e. cc)
  delete_all-Live b nodes ((j, q) ∷ m) a l =
      let rest = Live-other (suc j) q none nodes m l.0.0 a.1 l.0.1 (omega (arith, l.0.2)) l.1 in
      let (after, e, keep, gone) = delete_all-Live (suc j) (set_node q none nodes) m a.1 rest in
      (
        after,
        rw (delete_all, l.0.1) e,
        λ r dead. keep r (set_node-none q r nodes dead),
        λ k p found. elim (Bool-cases (j == k)) [
          | inl here ↦
              let same : q ≡ p = ground arith in rw (← same) (keep q (set_node_self q none nodes))
          | inr there ↦ gone k p (ground arith)
        ],
      )

  pub print_nodes-Live :
      (nodes : ℕ → Option (CNode Float)) (m : Map ℕ) → Live nodes m → print_nodes nodes m ≡ some tt
  unfolding print_nodes
  print_nodes-Live nodes [] l = refl
  print_nodes-Live nodes ((j, q) ∷ m) l = rw (print_nodes, l.0.1) (print_nodes-Live nodes m l.1)

  pub Live-insert :
      (k p : ℕ) (nodes : ℕ → Option (CNode Float)) (m : Map ℕ) (node : CNode Float)
      → nodes p ≡ some node
      → node.m_node_id ≡ k
      → Live nodes m
      → Live nodes (insert k p m)
  unfolding insert
  Live-insert k p nodes [] node e i l = ((node, e, i), tt)
  Live-insert k p nodes ((j, q) ∷ m) node e i l =
      let rest = Live-insert k p nodes m node e i l.1 in
      elim (Bool-cases (k == j)) [
        | inl here ↦ rw here l
        | inr other ↦ elim (Bool-cases (ltb k j)) [
          | inl less ↦ rw (other, less) ((node, e, i), l)
          | inr more ↦ rw (other, more) (l.0, rest)
        ]
      ]
