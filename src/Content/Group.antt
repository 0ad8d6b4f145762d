-- ===== src/Content/Group.antt =====
-- content/makehouse.h and makehouse.cpp: class CGroup, the students who build one house together.
-- A pointer to a student is a number. The group's name, which nothing reads, is left out.
use ec_server.Base.{
  ℕ, ◌+◌, ◌%◌, ◌^◌, [], ◌∷◌, Option, none, some, Bool, true, false, ◌&&◌, ltb, ◌==◌, if◌then◌else◌,
  Map, find, insert,
}
use ec_server.Content.House.{CMakeHouse}

pub record CGroup (Float : Type 0) : Type 0 where
  pub m_make_house : CMakeHouse Float
  pub m_student_map : Map ℕ
  pub m_auto_nodeid : ℕ
  pub m_auto_layer : ℕ

-- An int is its pattern of 32 bits.
abbrev pub is_positive : ℕ → Bool
is_positive n = ltb 0 n && ltb n (2 ^ 31)

-- Whether the group is the one of the client.
unfoldable pub has_fd : ℕ → Map ℕ → Bool
has_fd fd [] = false
has_fd fd ((k, stu) ∷ m) = if k == fd then true else has_fd fd m

module _ {Float : Type 0} where
  unfoldable pub new_house : CMakeHouse Float
  new_house = record {
    nodes = λ _. none;
    m_node_map = [];
    m_node_layer_list = [];
    m_current_layer = 1;
  }

  -- The constructor leaves `m_auto_layer` as it finds it.
  unfoldable pub new_group : ℕ → CGroup Float
  unfolding new_house
  new_group found = record {
    m_make_house = new_house;
    m_student_map = [];
    m_auto_nodeid = 1;
    m_auto_layer = found;
  }

  -- `none` is a null pointer.
  unfoldable pub add_student_to_group : ℕ → Option ℕ → CGroup Float → Bool × CGroup Float
  unfolding insert
  add_student_to_group fd none group = (false, group)
  add_student_to_group fd (some stu) group =
      if is_positive fd
      then (true, record group { m_student_map = insert fd stu group.m_student_map })
      else (false, group)

  unfoldable pub get_student_by_fd : ℕ → CGroup Float → Option ℕ
  unfolding find
  get_student_by_fd fd group = find fd group.m_student_map

  unfoldable pub get_auto_node_id : CGroup Float → ℕ × CGroup Float
  get_auto_node_id group =
      (group.m_auto_nodeid, record group { m_auto_nodeid = (group.m_auto_nodeid + 1) % 2 ^ 32 })

  unfoldable pub get_auto_layer : CGroup Float → ℕ × CGroup Float
  get_auto_layer group =
      (group.m_auto_layer, record group { m_auto_layer = (group.m_auto_layer + 1) % 2 ^ 32 })

  unfoldable pub reset_auto_node_id : ℕ → CGroup Float → CGroup Float
  reset_auto_node_id value group = record group { m_auto_nodeid = value }

  unfoldable pub reset_auto_layer : ℕ → CGroup Float → CGroup Float
  reset_auto_layer value group = record group { m_auto_layer = value }
