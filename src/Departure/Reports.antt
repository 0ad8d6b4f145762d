-- ===== src/Departure/Reports.antt =====
-- content/room.cpp's update_all_student_status, from what it has reported to teacher and whiteboard on.
use ec_server.Base.{
  ℕ, ◌+◌, ◌≤◌, ◌≡◌, refl, ap, ◌∙◌, List, [], ◌∷◌, ◌++◌, Option, some, Map, find, length, drop,
  arith, eq→==, length-append, length-drop, length-drop,
}
use ec_server.Sync.Pool.{PoolT, malloc, free}
use ec_server.Content.Room.{CStudent, CRoom}
use ec_server.Server.{Buf, Server, head_len, with_buf, reset, free_buf}
use ec_server.Messages.Copies.{data_len}
use ec_server.Departure.{
  st_send_student_status, le_word, mark_student, student_statuses, report_student,
  update_all_student_status,
}
use ec_server.Departure.Letters.{
  Distinct, Sized, Posted, to_all, Kept, Posts, Fresh-append, Distinct-append, Sized-append,
  Posts-append, Posts-Sized, Sized-with_buf, Posted-with_buf,
}
use ec_server.Departure.Sending.{memcpy-all, send_copies-Posts}

pub malloc-first :
    (p : ℕ) (rest : List ℕ) (pool : PoolT)
    → pool.m_queue ≡ p ∷ rest
    → malloc pool ≡ (some p, record pool { m_queue = rest })
unfolding malloc
malloc-first p rest pool e = rw (malloc, e) refl

-- The count and the statuses.
abbrev pub status_list : Map ℕ → List ℕ → List ℕ
status_list m entries = le_word (length m) ++ entries

abbrev pub listing : Map ℕ → List ℕ → List ℕ → Buf → Buf
listing m entries old b = record b {
  c_len = head_len + length (status_list m entries);
  c_type = st_send_student_status;
  c_data = status_list m entries ++ drop (length (status_list m entries)) old;
}

-- The server with the list of the statuses in the buffer p.
abbrev pub listed : ℕ → List ℕ → Map ℕ → List ℕ → (ℕ → Option CStudent) → Server → Server
listed p rest m entries students s =
    with_buf p (listing m entries (s.bufs p).c_data)
      (record s { bufpool = record s.bufpool { m_queue = rest }; students = students })

module _ (fd flag id p : ℕ) (told qs more : List ℕ) (letters : List (ℕ × List ℕ))
    (room left : CRoom) (students : ℕ → Option CStudent) (entries : List ℕ)
    (s reported : Server) where
  abbrev start : Server
  start = listed p (told ++ (qs ++ more)) room.m_student_map entries students s

  pub update_all_student_status-reported :
      find id s.rooms ≡ some room
      → s.bufpool.m_queue ≡ p ∷ (told ++ (qs ++ more))
      → mark_student fd flag room.m_student_map s.students ≡ some students
      → student_statuses students room.m_student_map ≡ some entries
      → length (status_list room.m_student_map entries) ≤ data_len
      → Distinct (p ∷ (told ++ qs))
      → Sized s.bufs (p ∷ (told ++ qs))
      → report_student fd flag id room start ≡ some reported
      → Posts st_send_student_status told (qs ++ more) letters start reported
      → find id reported.rooms ≡ some left
      → length qs ≡ length left.m_student_map
      → (r : Server) × (update_all_student_status fd flag id s ≡ some r)
        × (r.sendqueue ≡ s.sendqueue ++ (told ++ qs))
        × (r.bufpool.m_queue ≡ more ++ p ∷ [])
        × Posted r.bufs st_send_student_status
            (told ++ qs)
            (letters ++ to_all (status_list room.m_student_map entries) left.m_student_map)
        × Kept reported r
  unfolding update_all_student_status free_buf free with_buf
  update_all_student_status-reported found pool marked collected fits d sized report posts here
        count =
      let body = status_list room.m_student_map entries in
      let rest = drop (length body) (s.bufs p).c_data in
      let kept : reported.bufs p ≡ start.bufs p = posts.others p (Fresh-append p told qs d.0).0 in
      let holds : (reported.bufs p).c_data ≡ body ++ rest =
        ap (λ (b : Buf). b.c_data) kept ∙ rw (eq→== p p refl) refl in
      let full : length (reported.bufs p).c_data ≡ data_len = rw holds (
        omega (
          arith,
          length-append body rest,
          length-drop (length body) (s.bufs p).c_data,
          sized.0,
          fits,
        )) in
      let sized' : Sized reported.bufs qs =
        Posts-Sized st_send_student_status told qs (qs ++ more) letters start reported d.1
          (Sized-with_buf p (listing room.m_student_map entries (s.bufs p).c_data) s qs
            (Fresh-append p told qs d.0).1 (Sized-append s.bufs told qs sized.1).1)
          posts in
      let (sent, e1, h, kept') =
        send_copies-Posts p st_send_student_status body rest qs more left.m_student_map reported
          posts.pool count ((Fresh-append p told qs d.0).1, (Distinct-append told qs d.1).1)
          (full, sized') holds fits in
      let all =
        Posts-append st_send_student_status told qs more letters (to_all body left.m_student_map)
          start reported sent d.1 posts h in
      (
        free_buf p (with_buf p reset sent),
        rw (update_all_student_status, found)
            (rw (malloc-first p (told ++ (qs ++ more)) s.bufpool pool) (
              rw marked (
                rw collected (
                  rw (memcpy-all body (s.bufs p).c_data (omega (arith, fits, sized.0)))
                    (rw report (rw here (rw e1 refl))))))),
        all.queue,
        ap (λ xs. xs ++ p ∷ []) all.pool,
        Posted-with_buf p reset sent st_send_student_status (told ++ qs)
            (letters ++ to_all body left.m_student_map) d.0 all.posted,
        kept',
      )
