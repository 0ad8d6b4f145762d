-- ===== src/Departure/Students.antt =====
-- A student who leaves a room, or leaves early: content/room.cpp's update_all_student_status.
use ec_server.Base.{
  ℕ, ◌+◌, ◌*◌, ◌≤◌, ◌≡◌, refl, ap, ◌∙◌, List, [], ◌∷◌, ◌++◌, Option, none, some, ◌==◌,
  if◌then◌else◌, Map, find, erase, update, find-update, length, arith, Bool-cases, inl, inr, eq→==,
}
use ec_server.Content.Room.{CStudent, CRoom}
use ec_server.Content.Room.Lookup.{Living}
use ec_server.Server.{Server, with_buf}
use ec_server.Messages.Copies.{data_len}
use ec_server.Departure.{
  st_send_student_status, le_word, status_req, set_student, went_offline, mark_student,
  student_statuses, remove_student, report_student, update_all_student_status,
}
use ec_server.Departure.Letters.{
  Distinct, Sized, Posted, to_all, Posts, Posts-append, Posts-Sized, Sized-with_buf,
}
use ec_server.Departure.Reports.{status_list, listing, listed, update_all_student_status-reported}
use ec_server.Departure.Sending.{send_new-Posts}

-- The students once one of them is changed.
abbrev pub with_student :
    ℕ → (CStudent → CStudent) → CStudent → (ℕ → Option CStudent) → ℕ → Option CStudent
with_student p f student students q = if p == q then some (f student) else students q

pub set_student_lem :
    (p : ℕ) (f : CStudent → CStudent) (student : CStudent) (students : ℕ → Option CStudent)
    → students p ≡ some student
    → set_student p f students ≡ some (with_student p f student students)
unfolding set_student
set_student_lem p f student students e = rw (set_student, e) refl

pub Living-with_student :
    (p : ℕ) (f : CStudent → CStudent) (student : CStudent) (students : ℕ → Option CStudent)
    (m : Map ℕ)
    → Living students m
    → Living (with_student p f student students) m
Living-with_student p f student students [] l = tt
Living-with_student p f student students ((fd, q) ∷ m) l = (
  elim (Bool-cases (p == q)) [
    | inl hit ↦ (f student, rw hit refl)
    | inr miss ↦ (l.0.0, rw miss l.0.1)
  ],
  Living-with_student p f student students m l.1,
)

pub student_statuses-length :
    (students : ℕ → Option CStudent) (m : Map ℕ)
    → Living students m
    → (entries : List ℕ) × (student_statuses students m ≡ some entries)
      × (length entries ≡ 8 * length m)
unfolding student_statuses
student_statuses-length students [] l = ([], refl, refl)
student_statuses-length students ((fd, p) ∷ m) l =
    let (entries, e, h) = student_statuses-length students m l.1 in
    (status_req l.0.0 ++ entries, rw (student_statuses, l.0.1) (rw e refl), omega (arith, h))

pub find-update_here {ℓ} :
    {V : Type ℓ} (k : ℕ) (f : V → V) (m : Map V) (v : V)
    → find k m ≡ some v
    → find k (update k f m) ≡ some (f v)
find-update_here k f m v e = find-update k k f m ∙ rw (eq→== k k refl, e) refl

-- What is left of a room's students.
abbrev pub remaining : ℕ → ℕ → Map ℕ → Map ℕ
remaining flag fd m = if flag == 0 then erase fd m else m

module _ (fd flag id q1 q2 ptr : ℕ) (student : CStudent) (room : CRoom) (more : List ℕ)
    (s : Server) where
  abbrev letter : List ℕ
  letter = le_word 1 ++ status_req student

  report_student-Posts :
      find id s.rooms ≡ some room
      → find fd room.m_student_map ≡ some ptr
      → s.students ptr ≡ some student
      → s.bufpool.m_queue ≡ q1 ∷ q2 ∷ more
      → Distinct (q1 ∷ q2 ∷ [])
      → Sized s.bufs (q1 ∷ q2 ∷ [])
      → (r : Server) × (report_student fd flag id room s ≡ some r)
        × Posts st_send_student_status
            (q1 ∷ q2 ∷ [])
            more
            ((room.m_teacher_fd, letter) ∷ (room.m_white_fd, letter) ∷ [])
            s
            r
        × (find id r.rooms
            ≡ some (record room { m_student_map = remaining flag fd room.m_student_map }))
        × (r.students ptr ≡ (if flag == 0 then none else some student))
  unfolding report_student remove_student
  report_student-Posts found here there pool d sized =
      let (told, e1, h1, kept1) =
        send_new-Posts room.m_teacher_fd st_send_student_status letter q1 (q2 ∷ more) s pool
          (sized.0, tt) (omega arith) in
      let (shown, e2, h2, kept2) =
        send_new-Posts room.m_white_fd st_send_student_status letter q2 more told h1.pool
          (Posts-Sized st_send_student_status (q1 ∷ []) (q2 ∷ []) (q2 ∷ more)
            ((room.m_teacher_fd, letter) ∷ []) s told d sized.1 h1)
          (omega arith) in
      let posts =
        Posts-append st_send_student_status (q1 ∷ []) (q2 ∷ []) more
          ((room.m_teacher_fd, letter) ∷ []) ((room.m_white_fd, letter) ∷ []) s told shown d h1
          h2 in
      let rooms : shown.rooms ≡ s.rooms = kept2.1 ∙ kept1.1 in
      let students : shown.students ≡ s.students = kept2.0 ∙ kept1.0 in
      elim (Bool-cases (flag == 0)) [
        | inl off ↦ (
          remove_student fd ptr id shown,
          rw (report_student, here) (rw there (rw e1 (rw e2 (rw off refl)))),
          record {
            queue = posts.queue;
            pool = posts.pool;
            posted = posts.posted;
            others = posts.others;
          },
          rw off (
              find-update_here id
                (λ (r : CRoom). record r { m_student_map = erase fd r.m_student_map }) shown.rooms
                room (ap (find id) rooms ∙ found)),
          rw (off, eq→== ptr ptr refl) refl,
        )
        | inr early ↦ (
          shown,
          rw (report_student, here) (rw there (rw e1 (rw e2 (rw early refl)))),
          posts,
          rw early (ap (find id) rooms ∙ found),
          rw early (ap (λ (f : ℕ → Option CStudent). f ptr) students ∙ there),
        )
      ]

-- A message is posted to teacher and whiteboard with the student's new status, and one to each student
-- who remains with the statuses of all, the leaving one included.
abbrev pub departure_letters : ℕ → ℕ → CStudent → CRoom → List ℕ → List (ℕ × List ℕ)
departure_letters flag fd student room entries =
    (room.m_teacher_fd, le_word 1 ++ status_req (went_offline flag student))
    ∷ (room.m_white_fd, le_word 1 ++ status_req (went_offline flag student))
    ∷ to_all (status_list room.m_student_map entries) (remaining flag fd room.m_student_map)

-- A student whom the room has, all of whose students are there, leaves it (flag 0) or leaves early. The
-- pool has a buffer for the list, one each for teacher and whiteboard, and one for each student who
-- remains; the list fits a buffer. Then `update_all_student_status` has a defined result: teacher and
-- whiteboard are sent the student's new status, and each student who remains the list of all statuses;
-- the list's buffer is back in the pool; with flag 0 the student is deleted, and out of the room.
pub update_all_student_status-Posted :
    (fd flag id p q1 q2 ptr : ℕ) (qs more : List ℕ) (student : CStudent) (room : CRoom) (s : Server)
    → find id s.rooms ≡ some room
    → find fd room.m_student_map ≡ some ptr
    → s.students ptr ≡ some student
    → Living s.students room.m_student_map
    → s.bufpool.m_queue ≡ p ∷ q1 ∷ q2 ∷ (qs ++ more)
    → length qs ≡ length (remaining flag fd room.m_student_map)
    → 4 + 8 * length room.m_student_map ≤ data_len
    → Distinct (p ∷ q1 ∷ q2 ∷ qs)
    → Sized s.bufs (p ∷ q1 ∷ q2 ∷ qs)
    → (r : Server) × (entries : List ℕ) × (update_all_student_status fd flag id s ≡ some r)
      × (student_statuses
            (with_student ptr (went_offline flag) student s.students)
            room.m_student_map
          ≡ some entries)
      × (r.sendqueue ≡ s.sendqueue ++ q1 ∷ q2 ∷ qs)
      × (r.bufpool.m_queue ≡ more ++ p ∷ [])
      × Posted r.bufs st_send_student_status
          (q1 ∷ q2 ∷ qs)
          (departure_letters flag fd student room entries)
      × (find id r.rooms
          ≡ some (record room { m_student_map = remaining flag fd room.m_student_map }))
      × (r.students ptr ≡ (if flag == 0 then none else some (went_offline flag student)))
unfolding mark_student with_buf
update_all_student_status-Posted fd flag id p q1 q2 ptr qs more student room s found here there
      living pool count fits d sized =
    let students = with_student ptr (went_offline flag) student s.students in
    let (entries, e1, l) =
      student_statuses-length students room.m_student_map (
        Living-with_student ptr (went_offline flag) student s.students room.m_student_map living) in
    let start = listed p (q1 ∷ q2 ∷ (qs ++ more)) room.m_student_map entries students s in
    let (reported, e2, posts, left, gone) =
      report_student-Posts fd flag id q1 q2 ptr (went_offline flag student) room (qs ++ more) start
        found here (rw (eq→== ptr ptr refl) refl) refl ((d.1.0.0, tt), (tt, tt))
        (Sized-with_buf p (listing room.m_student_map entries (s.bufs p).c_data) s (q1 ∷ q2 ∷ [])
          (d.0.0, (d.0.1.0, tt)) (sized.1.0, (sized.1.1.0, tt))) in
    let (r, e3, queue, pool', posted, kept) =
      update_all_student_status-reported fd flag id p (q1 ∷ q2 ∷ []) qs more
        ((room.m_teacher_fd, le_word 1 ++ status_req (went_offline flag student))
          ∷ (room.m_white_fd, le_word 1 ++ status_req (went_offline flag student))
          ∷ [])
        room (record room { m_student_map = remaining flag fd room.m_student_map }) students entries
        s reported found pool
        (rw (mark_student, here) (set_student_lem ptr (went_offline flag) student s.students there))
        e1 (omega (arith, l, fits)) d sized e2 posts left count in
    (
      r,
      entries,
      e3,
      e1,
      queue,
      pool',
      posted,
      ap (find id) kept.1 ∙ left,
      ap (λ (f : ℕ → Option CStudent). f ptr) kept.0 ∙ gone,
    )
