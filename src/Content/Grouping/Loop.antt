-- ===== src/Content/Grouping/Loop.antt =====
-- The loop of content/room.cpp's init_buildhouse_group: how it fills a group, and goes on to the next.
use ec_server.Base.{
  ℕ, suc, ◌+◌, ◌^◌, ◌≤◌, ◌<◌, ◌≡◌, ◌≢◌, refl, ap, ◌∙◌, [], ◌∷◌, ◌++◌, Option, some, true, ◌||◌,
  ◌==◌, Map, insert, length, arith, lt→ltb, eq→==, ne→==,
}
use ec_server.Content.Group.{CGroup, has_fd, is_positive}
use ec_server.Content.Grouping.{Groups, Init, set_group, join, next_group, init_loop}

-- Descriptors of clients: positive ints.
abbrev pub Positive : Map ℕ → Type 0
Positive [] = Unit {0}
Positive ((fd, stu) ∷ m) = (0 < fd) × (fd < 2 ^ 31) × Positive m

-- The students of a list, put into a map one by one.
abbrev pub insert_all : Map ℕ → Map ℕ → Map ℕ
insert_all [] m = m
insert_all ((fd, stu) ∷ students) m = insert_all students (insert fd stu m)

has_fd-insert : (fd k stu : ℕ) (m : Map ℕ) → has_fd fd (insert k stu m) ≡ ((k == fd) || has_fd fd m)
unfolding has_fd insert
has_fd-insert fd k stu [] = ground arith
has_fd-insert fd k stu ((j, w) ∷ m) = ground (arith, has_fd-insert fd k stu m)

pub has_fd-insert_all :
    (fd : ℕ) (students m : Map ℕ)
    → has_fd fd (insert_all students m) ≡ (has_fd fd students || has_fd fd m)
unfolding has_fd
has_fd-insert_all fd [] m = refl
has_fd-insert_all fd ((k, stu) ∷ students) m =
    ground (arith, has_fd-insert_all fd students (insert k stu m), has_fd-insert fd k stu m)

is_positive_lem : (fd : ℕ) → 0 < fd → fd < 2 ^ 31 → is_positive fd ≡ true
is_positive_lem fd a b = rw (lt→ltb 0 fd a, lt→ltb fd (2 ^ 31) b)

module _ {Float : Type 0} where
  -- What a heap is after the students have joined the group at p.
  pub record Joined (p : ℕ) (g : CGroup Float) (students : Map ℕ)
      (before after : ℕ → Option (CGroup Float)) : Type 0 where
    pub group : after p ≡ some (record g { m_student_map = insert_all students g.m_student_map })
    pub others : (q : ℕ) → p ≢ q → after q ≡ before q

  join-lem :
      (p fd stu : ℕ) (g : CGroup Float) (groups : Groups Float)
      → groups.heap p ≡ some g
      → 0 < fd
      → fd < 2 ^ 31
      → join p fd stu groups
        ≡ some (record groups {
          heap =
              set_group p
                (some (record g { m_student_map = insert fd stu g.m_student_map }))
                groups.heap;
        })
  unfolding join
  join-lem p fd stu g groups e a b = rw (join, e) (rw (is_positive_lem fd a b))

  pub set_group_self :
      (p : ℕ) (g : Option (CGroup Float)) (heap : ℕ → Option (CGroup Float))
      → set_group p g heap p ≡ g
  unfolding set_group
  set_group_self p g heap = ground arith

  pub set_group_ne :
      (p q : ℕ) (g : Option (CGroup Float)) (heap : ℕ → Option (CGroup Float))
      → p ≢ q
      → set_group p g heap q ≡ heap q
  unfolding set_group
  set_group_ne p q g heap h = ground arith

  Joined-cons :
      (p fd stu : ℕ) (g : CGroup Float) (ys : Map ℕ) (before after : ℕ → Option (CGroup Float))
      → Joined p
          (record g { m_student_map = insert fd stu g.m_student_map })
          ys
          (set_group p (some (record g { m_student_map = insert fd stu g.m_student_map })) before)
          after
      → Joined p g ((fd, stu) ∷ ys) before after
  Joined-cons p fd stu g ys before after j = record {
    group = j.group;
    others = λ q h. j.others q h ∙ set_group_ne p q _ before h;
  }

module _ {Float : Type 0} (found : ℕ → ℕ) (n : ℕ) where
  init_loop-more :
      (fd stu : ℕ) (zs : Map ℕ) (s : Init Float) (g : CGroup Float)
      → s.groups.heap s.p_group ≡ some g
      → 0 < fd
      → fd < 2 ^ 31
      → s.icnt < n
      → init_loop found n ((fd, stu) ∷ zs) s
        ≡ init_loop found n zs (record s {
          icnt = suc s.icnt;
          groups = record s.groups {
            heap =
                set_group s.p_group
                  (some (record g { m_student_map = insert fd stu g.m_student_map }))
                  s.groups.heap;
          };
        })
  unfolding init_loop
  init_loop-more fd stu zs s g e a b less =
      rw (
        init_loop,
        join-lem s.p_group fd stu g s.groups e a b,
        ne→== s.icnt n (omega (arith, less)),
      )

  -- While the group has room, the students join it.
  pub init_loop-fill :
      (ys zs : Map ℕ) (s : Init Float) (g : CGroup Float) (c : ℕ)
      → s.groups.heap s.p_group ≡ some g
      → Positive ys
      → s.icnt + length ys ≡ c
      → c ≤ n
      → (heap : ℕ → Option (CGroup Float)) × Joined s.p_group g ys s.groups.heap heap
        × (init_loop found n (ys ++ zs) s
            ≡ init_loop found n zs
                (record s { icnt = c; groups = record s.groups { heap = heap } }))
  init_loop-fill [] zs s g c e p l h =
      let same : s.icnt ≡ c = omega arith in
      (
        s.groups.heap,
        record { group = e; others = λ q _. refl },
        ap (λ (i : ℕ). init_loop found n zs (record s { icnt = i })) same,
      )
  init_loop-fill ((fd, stu) ∷ ys) zs s g c e p l h =
      let g' : CGroup Float = record g { m_student_map = insert fd stu g.m_student_map } in
      let heap' : ℕ → Option (CGroup Float) = set_group s.p_group (some g') s.groups.heap in
      let s' : Init Float = record s {
        icnt = suc s.icnt;
        groups = record s.groups { heap = heap' };
      } in
      let (heap, joined, e') =
        init_loop-fill ys zs s' g' c (set_group_self s.p_group (some g') s.groups.heap) p.2
          (omega (arith, l)) h in
      (
        heap,
        Joined-cons s.p_group fd stu g ys s.groups.heap heap joined,
        init_loop-more fd stu (ys ++ zs) s g e p.0 p.1 (omega (arith, l)) ∙ e',
      )

  -- With the group full, the student joins it all the same, and the next group is entered in the map.
  pub init_loop-next :
      (fd stu : ℕ) (zs : Map ℕ) (s : Init Float) (g : CGroup Float)
      → s.groups.heap s.p_group ≡ some g
      → 0 < fd
      → fd < 2 ^ 31
      → s.icnt ≡ n
      → init_loop found n ((fd, stu) ∷ zs) s
        ≡ init_loop found n zs (
            next_group found (record s {
              groups = record s.groups {
                heap =
                    set_group s.p_group
                      (some (record g { m_student_map = insert fd stu g.m_student_map }))
                      s.groups.heap;
              };
            }))
  unfolding init_loop
  init_loop-next fd stu zs s g e a b full =
      rw (init_loop, join-lem s.p_group fd stu g s.groups e a b, eq→== s.icnt n full)
