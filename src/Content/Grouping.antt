-- ===== src/Content/Grouping.antt =====
-- content/room.cpp: how a room divides its students into groups (init_buildhouse_group,
-- build_house_start), finds a client's group (get_group_by_fd, add_group) and deletes the groups
-- (clean_buildhouse_group, build_house_end). A group is an object on the heap, since the room's map
-- can point to one group twice.
pub mod Loop
pub mod Outcomes
use ec_server.Base.{
  ℕ, zero, suc, ◌+◌, List, [], ◌∷◌, Option, none, some, Bool, true, false, ◌&&◌, ltb, ◌==◌,
  if◌then◌else◌, ◌>>=◌, Map, find, insert, erase,
}
use ec_server.Content.House.{CMakeHouse, cleanall}
use ec_server.Content.Group.{CGroup, new_group, add_student_to_group, has_fd}

-- The groups that have been made, and the room's map from a number to a group.
pub record Groups (Float : Type 0) : Type 0 where
  pub heap : ℕ → Option (CGroup Float)
  pub next : ℕ
  pub m_buildhouse_groups : Map ℕ

-- The variables of the loop of init_buildhouse_group.
pub record Init (Float : Type 0) : Type 0 where
  pub icnt : ℕ
  pub i_group : ℕ
  pub p_group : ℕ
  pub groups : Groups Float

-- NUMS_STU_OF_GROUP
abbrev pub nums_stu_of_group : ℕ
nums_stu_of_group = 5

module _ {Float : Type 0} where
  unfoldable pub set_group :
      ℕ → Option (CGroup Float) → (ℕ → Option (CGroup Float)) → ℕ → Option (CGroup Float)
  set_group p g heap q = if p == q then g else heap q

  -- `new CGroup`, with what the new object finds in the memory that its constructor does not write.
  unfoldable pub make_group : (ℕ → ℕ) → Groups Float → ℕ × Groups Float
  unfolding set_group new_group
  make_group found groups = (
    groups.next,
    record groups {
      heap = set_group groups.next (some (new_group (found groups.next))) groups.heap;
      next = suc groups.next;
    },
  )

  -- `p_group->add_student_to_group (fd, stu)`; a group that is not there has no defined result.
  unfoldable pub join : ℕ → ℕ → ℕ → Groups Float → Option (Groups Float)
  unfolding set_group add_student_to_group
  join p fd stu groups = elim (groups.heap p) [
    | none ↦ none
    | some g ↦ some (record groups {
      heap = set_group p (some (add_student_to_group fd (some stu) g).1) groups.heap;
    })
  ]

  -- The next group of the loop: it is made and entered in the map.
  unfoldable pub next_group : (ℕ → ℕ) → Init Float → Init Float
  unfolding make_group insert
  next_group found s =
      let (q, groups) = make_group found s.groups in
      record {
        icnt = 0;
        i_group = suc s.i_group;
        p_group = q;
        groups = record groups {
          m_buildhouse_groups = insert s.i_group q groups.m_buildhouse_groups;
        };
      }

  unfoldable pub init_loop : (ℕ → ℕ) → ℕ → Map ℕ → Init Float → Option (Init Float)
  unfolding join next_group
  init_loop found n [] s = some s
  init_loop found n ((fd, stu) ∷ students) s = elim (join s.p_group fd stu s.groups) [
    | none ↦ none
    | some groups ↦ init_loop found n students (
        if s.icnt == n
        then next_group found (record s { groups = groups })
        else record s { groups = groups; icnt = suc s.icnt })
  ]

  -- "added tail member"
  unfoldable pub add_tail : ℕ → Init Float → Groups Float
  unfolding insert
  add_tail n s =
      if ltb 0 s.icnt && ltb s.icnt n
      then record s.groups {
        m_buildhouse_groups = insert s.i_group s.p_group s.groups.m_buildhouse_groups;
      }
      else s.groups

  unfoldable pub init_buildhouse_group : (ℕ → ℕ) → ℕ → Map ℕ → Groups Float → Option (Groups Float)
  unfolding make_group init_loop add_tail
  init_buildhouse_group found n students groups = if ltb n 1 then some groups else do
    let (p, made) = make_group found groups
    s ← init_loop found n students (record { icnt = 0; i_group = 2; p_group = p; groups = made })
    some (add_tail n s)

  unfoldable pub build_house_start : (ℕ → ℕ) → Map ℕ → Groups Float → Option (Groups Float)
  unfolding init_buildhouse_group
  build_house_start found students groups =
      init_buildhouse_group found nums_stu_of_group students groups

  -- The walk of `get_group_by_fd` over the map: the first group with the client, or a null pointer.
  unfoldable pub group_by_fd : ℕ → (ℕ → Option (CGroup Float)) → Map ℕ → Option (Option ℕ)
  unfolding has_fd
  group_by_fd fd heap [] = some none
  group_by_fd fd heap ((k, p) ∷ m) =
      let rest = group_by_fd fd heap m in
      elim (heap p) [
        | none ↦ none
        | some g ↦ if has_fd fd g.m_student_map then some (some p) else rest
      ]

  unfoldable pub get_group_by_fd : ℕ → Groups Float → Option (Option ℕ)
  unfolding group_by_fd
  get_group_by_fd fd groups = group_by_fd fd groups.heap groups.m_buildhouse_groups

  unfoldable pub add_group : ℕ → Option ℕ → Groups Float → Bool × Groups Float
  unfolding insert
  add_group id none groups = (false, groups)
  add_group id (some cg) groups =
      (true, record groups { m_buildhouse_groups = insert id cg groups.m_buildhouse_groups })

  -- Each entry's house is emptied and its group deleted; a group that is not there has no defined
  -- result.
  unfoldable pub delete_groups :
      Map ℕ → (ℕ → Option (CGroup Float)) → Option (ℕ → Option (CGroup Float))
  unfolding cleanall set_group
  delete_groups [] heap = some heap
  delete_groups ((k, p) ∷ m) heap = elim (heap p) [
    | none ↦ none
    | some g ↦ elim (cleanall g.m_make_house) [
      | none ↦ none
      | some r ↦ delete_groups m (set_group p none heap)
    ]
  ]

  unfoldable pub clean_buildhouse_group : Groups Float → Option (Groups Float)
  unfolding delete_groups
  clean_buildhouse_group groups = do
    heap ← delete_groups groups.m_buildhouse_groups groups.heap
    some (record groups { heap = heap; m_buildhouse_groups = [] })

  unfoldable pub build_house_end : Groups Float → Option (Groups Float)
  unfolding clean_buildhouse_group
  build_house_end groups = clean_buildhouse_group groups
