-- ===== src/BuildHouse/Scaling.antt =====
-- handler/HandleBuildHouse.cpp's handleBuildHouse_Scale, from the message to the students' copies.
use ec_server.Base.{
  ℕ, ◌+◌, ◌≤◌, ◌≡◌, refl, List, [], ◌∷◌, ◌++◌, some, Map, find, length, drop, arith, eq→==,
  length-append, length-drop,
}
use ec_server.Socket.{word}
use ec_server.Server.{Buf, Server, head_len, with_buf}
use ec_server.Messages.Copies.{data_len, Ready, Ready-with_buf, Ready-Fresh}
use ec_server.Departure.{le_word}
use ec_server.Departure.Sending.{memcpy-all}
use ec_server.Content.Picture.{Floats}
use ec_server.Content.House.Node.{CNode}
use ec_server.Content.House.{set_node, modify, modify_scale, get_node_id_by_layer}
use ec_server.Content.Group.{CGroup}
use ec_server.GroupMessages.Copies.{Addressed, Copied-Addressed, group-Addressed}
use ec_server.BuildHouse.{
  st_build_house_update, node_data, set_buf, publish, with_house, handle_build_house_scale,
}

-- The count and the numbers of the pictures.
abbrev pub pictures : Map ℕ → List ℕ → List ℕ
pictures m entries = le_word (length m) ++ entries

-- The message that `set_buf` writes, over what the buffer held.
abbrev pub packed : Map ℕ → List ℕ → List ℕ → Buf → Buf
packed m entries old b = record b {
  c_len = head_len + length (pictures m entries);
  c_data = pictures m entries ++ drop (length (pictures m entries)) old;
  used = head_len + length (pictures m entries);
}

module _ (floats : Floats) (p : ℕ) (group : CGroup floats.Float) (entries : List ℕ)
    (s : Server) where
  open floats use {Float}

  abbrev map_of : Map ℕ
  map_of = group.m_make_house.m_node_map

  set_buf_lem :
      node_data floats group.m_make_house.nodes map_of ≡ some entries
      → length (pictures map_of entries) ≤ length (s.bufs p).c_data
      → set_buf floats p group s ≡ some (with_buf p (packed map_of entries (s.bufs p).c_data) s)
  unfolding set_buf
  set_buf_lem numbers fits =
      rw (set_buf, numbers) (rw (memcpy-all (pictures map_of entries) (s.bufs p).c_data fits) refl)

  -- If the pictures have numbers, and the numbers fit the message's buffer, then each student of the
  -- group gets a copy of the message.
  pub publish-Addressed :
      (qs more : List ℕ)
      → node_data floats group.m_make_house.nodes map_of ≡ some entries
      → head_len + length (pictures map_of entries) ≤ data_len
      → s.bufpool.m_queue ≡ qs ++ more
      → length qs ≡ length group.m_student_map
      → length (s.bufs p).c_data ≡ data_len
      → Ready p s.bufs qs
      → (r : Server) × (publish floats p group s ≡ some (group, r))
        × (r.sendqueue ≡ s.sendqueue ++ qs)
        × (r.bufpool.m_queue ≡ more ++ p ∷ [])
        × Addressed (λ fd. fd) r.bufs qs group.m_student_map
  unfolding publish with_buf
  publish-Addressed qs more numbers fits pool count full ready =
      let body = pictures map_of entries in
      let write = packed map_of entries (s.bufs p).c_data in
      let s' : Server = with_buf p write s in
      let at_p : s'.bufs p ≡ write (s.bufs p) = rw (eq→== p p refl) refl in
      let full' : length (s'.bufs p).c_data ≡ data_len = rw at_p (
        omega (
          arith,
          length-append body (drop (length body) (s.bufs p).c_data),
          length-drop (length body) (s.bufs p).c_data,
          full,
          fits,
        )) in
      let ((r, e, queue, pool', addressed), _) =
        group-Addressed p s' group.m_student_map st_build_house_update qs more pool count
          (rw at_p fits) full'
          (Ready-with_buf p p write s qs (Ready-Fresh p s.bufs qs ready) ready) in
      (
        r,
        rw (publish, set_buf_lem numbers (omega (arith, fits, full))) (rw e refl),
        queue,
        pool',
        Copied-Addressed (λ fd. fd) r.bufs _ _ _ qs group.m_student_map addressed,
      )

module _ (floats : Floats) (p : ℕ) (group : CGroup floats.Float) (entries : List ℕ)
    (s : Server) where
  open floats use {Float}

  abbrev pub scaled : Float → CNode Float → CNode Float
  scaled scale node = record node { m_scale = scale }

  -- A picture of the house is scaled: its layer leads to a node of the house. If the pictures with the
  -- new scale have numbers that fit the message, and the pool has a buffer for each student of the group,
  -- then the handler has a defined result: that node alone has the new scale, each student is sent a
  -- message, and the message's own buffer is back in the pool.
  pub handle_build_house_scale-Addressed :
      (of_bits : ℕ → Float) (k ptr : ℕ) (node : CNode Float) (qs more : List ℕ)
      → get_node_id_by_layer (word (s.bufs p).c_data) group.m_make_house ≡ some k
      → find k group.m_make_house.m_node_map ≡ some ptr
      → group.m_make_house.nodes ptr ≡ some node
      → node_data floats
          (set_node ptr
            (some (scaled (of_bits (word (drop 4 (s.bufs p).c_data))) node))
            group.m_make_house.nodes)
          group.m_make_house.m_node_map
        ≡ some entries
      → head_len + length (pictures group.m_make_house.m_node_map entries) ≤ data_len
      → s.bufpool.m_queue ≡ qs ++ more
      → length qs ≡ length group.m_student_map
      → length (s.bufs p).c_data ≡ data_len
      → Ready p s.bufs qs
      → (r : Server) × (handle_build_house_scale floats of_bits (some p) group s
          ≡ some (
            with_house floats
                (record group.m_make_house {
                  nodes =
                      set_node ptr
                        (some (scaled (of_bits (word (drop 4 (s.bufs p).c_data))) node))
                        group.m_make_house.nodes;
                })
                group,
            r,
          ))
        × (r.sendqueue ≡ s.sendqueue ++ qs)
        × (r.bufpool.m_queue ≡ more ++ p ∷ [])
        × Addressed (λ fd. fd) r.bufs qs group.m_student_map
  unfolding handle_build_house_scale modify_scale modify
  handle_build_house_scale-Addressed of_bits k ptr node qs more found here there numbers fits pool
        count full ready =
      let group' : CGroup Float =
        with_house floats
          (record group.m_make_house {
            nodes =
                set_node ptr (some (scaled (of_bits (word (drop 4 (s.bufs p).c_data))) node))
                  group.m_make_house.nodes;
          })
          group in
      let (r, e, queue, pool', addressed) =
        publish-Addressed floats p group' entries s qs more numbers fits pool count full ready in
      (
        r,
        rw (handle_build_house_scale, found) (rw (modify, here) (rw there e)),
        queue,
        pool',
        addressed,
      )
