-- ===== src/ClassRoom/Scenes.antt =====
-- handler/HandleClassRoom.cpp's handleControlChangeScene: a teacher changes the scene.
use ec_server.Base.{
  ℕ, ◌+◌, ◌≡◌, ◌⊎◌, refl, Option, none, some, ◌==◌, if◌then◌else◌, ◌>>=◌, Option-cases, inl, inr,
}
use ec_server.Socket.{word}
use ec_server.Content.Room.{CStudent, CRoom, get_room_by_fd}
use ec_server.Content.Group.{CGroup, add_student_to_group}
use ec_server.Server.{Server, head_len, with_buf, memcpy, malloc_buf, free_buf, enqueue_buf}
use ec_server.Messages.{post_teacher_to_all_student}
use ec_server.ClassRoom.{st_control_change_scene, with_room}

-- The message for the whiteboard, which is sent only for the room's teacher.
unfoldable pub show_scene : ℕ → ℕ → ℕ → Option CRoom → Server → Server
unfolding free_buf with_room with_buf enqueue_buf
show_scene q fd scene none s = free_buf q s
show_scene q fd scene (some room) s =
    if room.m_teacher_fd == fd
    then enqueue_buf q (
        with_buf q (λ b. record b { fd = room.m_white_fd; used = b.c_len })
          (with_room room (λ r. record r { m_current_scene = scene }) s))
    else free_buf q s

module _ {Float : Type 0} where
  -- The scene 15 shows how a house is built, with a new student 50 at the address `fresh`, whose other
  -- fields are what the memory holds; the scene 16 ends that. The room's pointer is not tested.
  unfoldable pub show_building :
      ℕ → CStudent → ℕ → Option CRoom → CGroup Float → Server → Option (CGroup Float × Server)
  unfolding with_room add_student_to_group
  show_building fresh memory scene none group s =
      if scene == 15 then none else if scene == 16 then none else some (group, s)
  show_building fresh memory scene (some room) group s =
      if scene == 15
      then (if room.m_is_show == 0
          then some (
            (add_student_to_group room.m_white_fd (some fresh) group).1,
            with_room room (λ r. record r { m_is_show = 1 })
                (record s {
                  students =
                      λ q. if fresh == q then some (record memory { m_id = 50 }) else s.students q;
                }),
          )
          else some (group, s))
      else if scene == 16
      then (if room.m_is_show == 1
          then some (group, with_room room (λ r. record r { m_is_show = 0 }) s)
          else some (group, s))
      else some (group, s)

  unfoldable pub handle_control_change_scene :
      ℕ → CStudent → Option ℕ → CGroup Float → Server → Option (CGroup Float × Server)
  unfolding malloc_buf memcpy with_buf get_room_by_fd show_scene show_building
      post_teacher_to_all_student
  handle_control_change_scene fresh memory none group s = none
  handle_control_change_scene fresh memory (some p) group s = do
    let fd = (s.bufs p).fd
    let scene = word (s.bufs p).c_data
    let pc = get_room_by_fd fd s.rooms
    q ← (malloc_buf s).0
    bytes ← memcpy 4 (s.bufs p).c_data (s.bufs q).c_data
    let filled =
        with_buf q
          (λ b. record b {
            c_len = head_len + 4;
            c_type = st_control_change_scene;
            c_data = bytes;
            used = head_len + 4;
            fd = fd;
          })
          (malloc_buf s).1
    shown ← show_building fresh memory scene pc group (show_scene q fd scene pc filled)
    told ← post_teacher_to_all_student (some p) st_control_change_scene shown.1
    some (shown.0, told.1)

  -- A client of no room asks for the scene 15 or 16: whatever the pool holds, the handler has no defined
  -- result, since it follows the null pointer of the room that it has found missing before.
  handle_control_change_scene-null :
      (fresh p : ℕ) (memory : CStudent) (group : CGroup Float) (s : Server)
      → get_room_by_fd (s.bufs p).fd s.rooms ≡ none
      → (word (s.bufs p).c_data ≡ 15) ⊎ (word (s.bufs p).c_data ≡ 16)
      → handle_control_change_scene fresh memory (some p) group s ≡ none
  unfolding handle_control_change_scene show_building
  handle_control_change_scene-null fresh p memory group s nowhere scene =
      elim (Option-cases (malloc_buf s).0) [
        | inl e ↦ rw (handle_control_change_scene, e) refl
        | inr (q, e) ↦ elim (Option-cases (memcpy 4 (s.bufs p).c_data (s.bufs q).c_data)) [
          | inl short ↦ rw (handle_control_change_scene, e) (rw short refl)
          | inr (bytes, copied) ↦ elim scene [
            | inl begins ↦
                rw (handle_control_change_scene, e) (rw copied (rw nowhere (rw begins refl)))
            | inr ends ↦ rw (handle_control_change_scene, e) (rw copied (rw nowhere (rw ends refl)))
          ]
        ]
      ]
