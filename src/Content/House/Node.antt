-- ===== src/Content/House/Node.antt =====
-- content/makehouse.h and makehouse.cpp: class CNode, one picture of a house.
use ec_server.Base.{ℕ, ◌==◌, if◌then◌else◌, Bool, true, false}

pub record CNode (Float : Type 0) : Type 0 where
  pub m_position_x : Float
  pub m_position_y : Float
  pub m_layer : ℕ
  pub m_client_fd : ℕ
  pub m_node_id : ℕ
  pub m_angle : Float
  pub m_scale : Float
  pub m_sname : ℕ
  pub m_student_id : ℕ

module _ {Float : Type 0} where
  -- A node is locked by a client while it holds the client's descriptor.
  unfoldable pub lock : ℕ → CNode Float → Bool × CNode Float
  lock client_fd node =
      if node.m_client_fd == 0
      then (true, record node { m_client_fd = client_fd })
      else (false, node)

  unfoldable pub unlock : ℕ → CNode Float → Bool × CNode Float
  unlock client_fd node =
      if node.m_client_fd == 0 then (false, node) else (true, record node { m_client_fd = 0 })
