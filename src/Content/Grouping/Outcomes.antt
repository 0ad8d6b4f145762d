-- ===== src/Content/Grouping/Outcomes.antt =====
-- The groups that content/room.cpp's init_buildhouse_group leaves in the room's map, by how many
-- students there are.
use ec_server.Base.{
  ℕ, suc, ◌+◌, ◌≤◌, ◌<◌, ◌≡◌, refl, sym, ap, ◌∙◌, [], ◌∷◌, ◌++◌, append-nil, Option, none, some,
  if◌then◌else◌, Map, insert, length, arith, lt→ltb, le→ltb,
}
use ec_server.Content.Group.{CGroup, new_group, has_fd}
use ec_server.Content.Grouping.{
  Groups, Init, set_group, make_group, next_group, init_loop, add_tail, init_buildhouse_group,
  group_by_fd, get_group_by_fd, delete_groups, clean_buildhouse_group,
}
use ec_server.Content.Grouping.Loop.{
  Positive, insert_all, has_fd-insert_all, Joined, set_group_self, init_loop-fill, init_loop-next,
}

has_fd-alone : (fd : ℕ) (xs : Map ℕ) → has_fd fd (insert_all xs []) ≡ has_fd fd xs
unfolding has_fd
has_fd-alone fd xs = ground (arith, has_fd-insert_all fd xs [])

module _ {Float : Type 0} (fd p : ℕ) (g : CGroup Float) (heap : ℕ → Option (CGroup Float)) where
  group_by_fd-one :
      (k : ℕ)
      → heap p ≡ some g
      → group_by_fd fd heap ((k, p) ∷ [])
        ≡ some (if has_fd fd g.m_student_map then some p else none)
  unfolding group_by_fd
  group_by_fd-one k e = ground arith

  group_by_fd-two :
      (k j : ℕ)
      → heap p ≡ some g
      → group_by_fd fd heap ((k, p) ∷ (j, p) ∷ [])
        ≡ some (if has_fd fd g.m_student_map then some p else none)
  unfolding group_by_fd
  group_by_fd-two k j e = ground arith

  -- A group that two entries point to cannot be deleted by both.
  delete_groups-two : (k j : ℕ) → heap p ≡ some g → delete_groups ((k, p) ∷ (j, p) ∷ []) heap ≡ none
  unfolding delete_groups
  delete_groups-two k j e = ground (arith, e, set_group_self p none heap)

module _ {Float : Type 0} (found : ℕ → ℕ) (n : ℕ) where
  -- The loop's variables before the first student.
  abbrev first : Groups Float → Init Float
  first groups = record {
    icnt = 0;
    i_group = 2;
    p_group = groups.next;
    groups = record groups {
      heap = set_group groups.next (some (new_group (found groups.next))) groups.heap;
      next = suc groups.next;
    };
  }

  init_buildhouse_group_lem :
      (students : Map ℕ) (groups : Groups Float) (s : Init Float)
      → 0 < n
      → init_loop found n students (first groups) ≡ some s
      → init_buildhouse_group found n students groups ≡ some (add_tail n s)
  unfolding init_buildhouse_group make_group
  init_buildhouse_group_lem students groups s pos e = rw (le→ltb n 1 (omega arith), e)

  init_loop-all :
      (xs : Map ℕ) (s : Init Float) (g : CGroup Float) (c : ℕ)
      → s.groups.heap s.p_group ≡ some g
      → Positive xs
      → s.icnt + length xs ≡ c
      → c ≤ n
      → (heap : ℕ → Option (CGroup Float)) × Joined s.p_group g xs s.groups.heap heap
        × (init_loop found n xs s
            ≡ some (record s { icnt = c; groups = record s.groups { heap = heap } }))
  unfolding init_loop
  init_loop-all xs s g c e p l h =
      let (heap, joined, e') = init_loop-fill found n xs [] s g c e p l h in
      (heap, joined, sym (ap (λ zs. init_loop found n zs s) (append-nil xs)) ∙ e')

  -- Fewer students than the size of a group, and at least one: they make one group, which each of
  -- them and nobody else is found in. The map is empty before.
  pub init_buildhouse_group-one :
      (xs : Map ℕ) (groups : Groups Float)
      → Positive xs
      → 0 < length xs
      → length xs < n
      → groups.m_buildhouse_groups ≡ []
      → (r : Groups Float) × (init_buildhouse_group found n xs groups ≡ some r)
        × ((fd : ℕ) → get_group_by_fd fd r ≡ some (if has_fd fd xs then some groups.next else none))
  unfolding add_tail insert get_group_by_fd new_group
  init_buildhouse_group-one xs groups p some_one few empty =
      let (heap, joined, e) =
        init_loop-all xs (first groups) (new_group (found groups.next)) (length xs)
          (set_group_self groups.next (some (new_group (found groups.next))) groups.heap) p
          (omega arith) (omega (arith, few)) in
      let r : Groups Float = record {
        heap = heap;
        next = suc groups.next;
        m_buildhouse_groups = (2, groups.next) ∷ [];
      } in
      (
        r,
        init_buildhouse_group_lem xs groups _ (omega (arith, few)) e
            ∙ rw (lt→ltb 0 (length xs) some_one, lt→ltb (length xs) n few, empty),
        λ fd. group_by_fd-one fd groups.next _ heap 2 joined.group ∙ rw (has_fd-alone fd xs),
      )

  -- As many students as the size of a group: the room's map stays empty, and no student is found in
  -- a group.
  init_buildhouse_group-lost :
      (xs : Map ℕ) (groups : Groups Float)
      → Positive xs
      → 0 < n
      → length xs ≡ n
      → groups.m_buildhouse_groups ≡ []
      → (r : Groups Float) × (init_buildhouse_group found n xs groups ≡ some r)
        × ((fd : ℕ) → get_group_by_fd fd r ≡ some none)
  unfolding add_tail insert get_group_by_fd group_by_fd new_group
  init_buildhouse_group-lost xs groups p pos all empty =
      let (heap, joined, e) =
        init_loop-all xs (first groups) (new_group (found groups.next)) (length xs)
          (set_group_self groups.next (some (new_group (found groups.next))) groups.heap) p
          (omega arith) (omega (arith, all)) in
      let r : Groups Float = record {
        heap = heap;
        next = suc groups.next;
        m_buildhouse_groups = [];
      } in
      (
        r,
        init_buildhouse_group_lem xs groups _ pos e
            ∙ rw (
              lt→ltb 0 (length xs) (omega (arith, all)),
              le→ltb (length xs) n (omega (arith, all)),
              empty,
            ),
        λ fd. refl,
      )

  -- n + 1 students, who join the first group, and then between 1 and n - 1 more, who join the second.
  -- The map has the second group only, and has it twice: nobody but its students is found in a group,
  -- and the groups cannot be cleaned up without deleting one twice.
  init_buildhouse_group-twice :
      (xs ys : Map ℕ) (fd stu : ℕ) (groups : Groups Float)
      → Positive xs
      → Positive ((fd, stu) ∷ ys)
      → length xs ≡ n
      → 0 < length ys
      → length ys < n
      → groups.m_buildhouse_groups ≡ []
      → (r : Groups Float) × (init_buildhouse_group found n (xs ++ (fd, stu) ∷ ys) groups ≡ some r)
        × ((k : ℕ)
            → get_group_by_fd k r ≡ some (if has_fd k ys then some (suc groups.next) else none))
        × (clean_buildhouse_group r ≡ none)
  unfolding add_tail insert get_group_by_fd new_group clean_buildhouse_group next_group make_group
  init_buildhouse_group-twice xs ys fd stu groups p p' full some_one few empty =
      let (heap, joined, e) =
        init_loop-fill found n xs ((fd, stu) ∷ ys) (first groups) (new_group (found groups.next)) n
          (set_group_self groups.next (some (new_group (found groups.next))) groups.heap) p
          (omega (arith, full)) (omega arith) in
      let e' =
        init_loop-next found n fd stu ys
          (record (first groups) {
            icnt = n;
            groups = record (first groups).groups { heap = heap };
          })
          _ joined.group p'.0 p'.1 refl in
      let (heap2, joined2, e2) =
        init_loop-all ys
          (next_group found (record (first groups) {
            icnt = n;
            groups = record (first groups).groups {
              heap =
                  set_group groups.next
                    (some (record (new_group (found groups.next)) {
                      m_student_map = insert fd stu (insert_all xs []);
                    }))
                    heap;
            };
          }))
          (new_group (found (suc groups.next))) (length ys)
          (set_group_self (suc groups.next) (some (new_group (found (suc groups.next)))) (
            set_group groups.next
              (some (record (new_group (found groups.next)) {
                m_student_map = insert fd stu (insert_all xs []);
              }))
              heap))
          p'.2 (omega arith) (omega (arith, few)) in
      let q = suc groups.next in
      let r : Groups Float = record {
        heap = heap2;
        next = suc q;
        m_buildhouse_groups = (2, q) ∷ (3, q) ∷ [];
      } in
      (
        r,
        init_buildhouse_group_lem (xs ++ (fd, stu) ∷ ys) groups _ (omega (arith, few)) (e ∙ e' ∙ e2)
            ∙ rw (lt→ltb 0 (length ys) some_one, lt→ltb (length ys) n few, empty),
        λ k. group_by_fd-two k q _ heap2 2 3 joined2.group ∙ rw (has_fd-alone k ys),
        rw (clean_buildhouse_group, delete_groups-two 0 q _ heap2 2 3 joined2.group),
      )
