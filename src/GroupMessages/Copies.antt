-- ===== src/GroupMessages/Copies.antt =====
-- The copies that the messages of a CGroup (content/makehouse.cpp) leave in the send queue.
use ec_server.Base.{
  subst, ℕ, ◌<◌, ◌≤◌, ◌≡◌, ◌≢◌, refl, sym, ap, ◌∙◌, List, [], ◌∷◌, ◌++◌, append_assoc, append-nil,
  none, some, true, false, Map, length, take, drop, arith, le→leb, eq→==, ne→==,
}
use ec_server.Sync.Pool.{PoolT, malloc, free}
use ec_server.Server.{Buf, Server, with_buf, memcpy, free_buf, enqueue_buf}
use ec_server.Messages.Copies.{take-take_append, data_len, Fresh, Ready, Ready-with_buf}
use ec_server.Messages.Broadcast.{malloc-rest}
use ec_server.GroupMessages.{group_copies, finish, broadcast, send_to_other_student}

-- The buffers are for the descriptors that the students' ones are taken to.
abbrev pub Addressed : (ℕ → ℕ) → (ℕ → Buf) → List ℕ → Map ℕ → Type 0
Addressed fd_of bufs [] [] = Unit {0}
Addressed fd_of bufs [] (entry ∷ m) = ⊥
Addressed fd_of bufs (q ∷ qs) [] = ⊥
Addressed fd_of bufs (q ∷ qs) ((fd, student) ∷ m) =
    ((bufs q).fd ≡ fd_of fd) × Addressed fd_of bufs qs m

-- A copy of a message with this type, length and data, for a client; the code takes the length for that
-- of the data.
pub record Copy (b : Buf) (fd len c_type : ℕ) (body : List ℕ) : Type 0 where
  pub for_fd : b.fd ≡ fd
  pub of_type : b.c_type ≡ c_type
  pub of_len : b.c_len ≡ len
  pub sends_all : b.used ≡ len
  pub same_data : take len b.c_data ≡ take len body

-- One copy for each student, in the order of the map.
abbrev pub Copied : (ℕ → ℕ) → (ℕ → Buf) → ℕ → ℕ → List ℕ → List ℕ → Map ℕ → Type 0
Copied fd_of bufs len c_type body [] [] = Unit {0}
Copied fd_of bufs len c_type body [] (entry ∷ m) = ⊥
Copied fd_of bufs len c_type body (q ∷ qs) [] = ⊥
Copied fd_of bufs len c_type body (q ∷ qs) ((fd, student) ∷ m) =
    Copy (bufs q) (fd_of fd) len c_type body × Copied fd_of bufs len c_type body qs m

pub Copied-Addressed :
    (fd_of : ℕ → ℕ) (bufs : ℕ → Buf) (len c_type : ℕ) (body qs : List ℕ) (m : Map ℕ)
    → Copied fd_of bufs len c_type body qs m
    → Addressed fd_of bufs qs m
Copied-Addressed fd_of bufs len c_type body [] [] h = tt
Copied-Addressed fd_of bufs len c_type body [] (entry ∷ m) h = absurd h
Copied-Addressed fd_of bufs len c_type body (q ∷ qs) [] h = absurd h
Copied-Addressed fd_of bufs len c_type body (q ∷ qs) ((fd, student) ∷ m) h =
    (h.0.for_fd, Copied-Addressed fd_of bufs len c_type body qs m h.1)

malloc-none : (pool : PoolT) → pool.m_queue ≡ [] → (malloc pool).0 ≡ none
unfolding malloc
malloc-none pool e = rw (malloc, e) refl

module _ (p c_type : ℕ) (fd_of : ℕ → ℕ) where
  abbrev written : ℕ → List ℕ → ℕ → Buf → Buf
  written len bytes fd b = record b {
    c_len = len;
    c_type = c_type;
    c_data = bytes;
    used = len;
    fd = fd_of fd;
  }

  abbrev next : ℕ → List ℕ → List ℕ → ℕ → Server → Server
  next q rest bytes fd s = enqueue_buf q (
      with_buf q (written (s.bufs p).c_len bytes fd)
        (record s { bufpool = record s.bufpool { m_queue = rest } }))

  abbrev copied : ℕ → Server → List ℕ
  copied q s = take (s.bufs p).c_len (s.bufs p).c_data ++ drop (s.bufs p).c_len (s.bufs q).c_data

  group_copies-next :
      (q fd student : ℕ) (rest : List ℕ) (m : Map ℕ) (s : Server)
      → s.bufpool.m_queue ≡ q ∷ rest
      → (s.bufs p).c_len ≤ length (s.bufs p).c_data
      → (s.bufs p).c_len ≤ length (s.bufs q).c_data
      → group_copies p c_type fd_of ((fd, student) ∷ m) s
        ≡ group_copies p c_type fd_of m (next q rest (copied q s) fd s)
  unfolding group_copies
  group_copies-next q fd student rest m s e a b =
      rw (group_copies, e)
        (rw
          (
            memcpy,
            le→leb (s.bufs p).c_len (length (s.bufs p).c_data) a,
            le→leb (s.bufs p).c_len (length (s.bufs q).c_data) b,
          )
          (ap
            (λ pool. group_copies p c_type fd_of m (
              enqueue_buf q (
                with_buf q (written (s.bufs p).c_len (copied q s) fd)
                  (record s { bufpool = pool }))))
            (malloc-rest q rest s.bufpool e)))

  kept :
      (q fd : ℕ) (rest bytes : List ℕ) (s : Server)
      → p ≢ q
      → (next q rest bytes fd s).bufs p ≡ s.bufs p
  unfolding enqueue_buf with_buf
  kept q fd rest bytes s h = rw (ne→== q p (λ e. h (sym e))) refl

  -- Each buffer of qs holds a copy, as long as there are students.
  record Sends (qs more : List ℕ) (m : Map ℕ) (before after : Server) : Type 0 where
    queue : after.sendqueue ≡ before.sendqueue ++ qs
    pool : after.bufpool.m_queue ≡ more
    copies : Copied fd_of after.bufs (before.bufs p).c_len c_type (before.bufs p).c_data qs m
    others : (x : ℕ) → Fresh x qs → after.bufs x ≡ before.bufs x

  group_copies-Sends :
      (qs more : List ℕ) (m : Map ℕ) (s : Server)
      → s.bufpool.m_queue ≡ qs ++ more
      → length qs ≡ length m
      → (s.bufs p).c_len ≤ data_len
      → length (s.bufs p).c_data ≡ data_len
      → Ready p s.bufs qs
      → (r : Server) × (group_copies p c_type fd_of m s ≡ some (true, r)) × Sends qs more m s r
  unfolding group_copies enqueue_buf with_buf
  group_copies-Sends [] more [] s e l a d ready = (
    s,
    refl,
    record { queue = sym (append-nil s.sendqueue); pool = e; copies = tt; others = λ x n. refl },
  )
  group_copies-Sends [] more (entry ∷ m) s e l a d ready = absurd (ground arith)
  group_copies-Sends (q ∷ qs) more [] s e l a d ready = absurd (ground arith)
  group_copies-Sends (q ∷ qs) more ((fd, student) ∷ m) s e l a d ready =
      let s' : Server = next q (qs ++ more) (copied q s) fd s in
      let same : s'.bufs p ≡ s.bufs p = kept q fd (qs ++ more) (copied q s) s ready.0 in
      let (r, e', h) =
        group_copies-Sends qs more m s' refl (omega (arith, l)) (rw same a) (rw same d)
          (Ready-with_buf p q (written (s.bufs p).c_len (copied q s) fd) s qs ready.2 ready.3) in
      let at_q : r.bufs q ≡ written (s.bufs p).c_len (copied q s) fd (s.bufs q) =
        h.others q ready.2 ∙ rw (eq→== q q refl) refl in
      let copy : Copy (r.bufs q) (fd_of fd) (s.bufs p).c_len c_type (s.bufs p).c_data =
        rw at_q (record {
          for_fd = refl;
          of_type = refl;
          of_len = refl;
          sends_all = refl;
          same_data =
              take-take_append (s.bufs p).c_len (s.bufs p).c_data
                (drop (s.bufs p).c_len (s.bufs q).c_data) (omega (arith, a, d));
        }) in
      (
        r,
        group_copies-next q fd student (qs ++ more) m s e (omega (arith, a, d))
              (omega (arith, a, ready.1))
            ∙ e',
        record {
          queue = h.queue ∙ append_assoc s.sendqueue (q ∷ []) qs;
          pool = h.pool;
          copies = (
            copy,
            subst (λ (b : Buf). Copied fd_of r.bufs b.c_len c_type b.c_data qs m) same h.copies,
          );
          others = λ x n. h.others x n.1 ∙ rw (ne→== q x (λ e. n.0 (sym e))) refl;
        },
      )

  -- With too few buffers all are used, and then the loop returns.
  group_copies-few :
      (qs : List ℕ) (m : Map ℕ) (s : Server)
      → s.bufpool.m_queue ≡ qs
      → length qs < length m
      → (s.bufs p).c_len ≤ data_len
      → length (s.bufs p).c_data ≡ data_len
      → Ready p s.bufs qs
      → (r : Server) × (group_copies p c_type fd_of m s ≡ some (false, r))
        × (r.sendqueue ≡ s.sendqueue ++ qs)
        × (r.bufpool.m_queue ≡ [])
  unfolding group_copies enqueue_buf with_buf
  group_copies-few qs [] s e l a d ready = absurd (ground arith)
  group_copies-few [] (entry ∷ m) s e l a d ready =
      (s, rw (group_copies, malloc-none s.bufpool e) refl, sym (append-nil s.sendqueue), e)
  group_copies-few (q ∷ qs) ((fd, student) ∷ m) s e l a d ready =
      let s' : Server = next q qs (copied q s) fd s in
      let same : s'.bufs p ≡ s.bufs p = kept q fd qs (copied q s) s ready.0 in
      let (r, e', queue, pool) =
        group_copies-few qs m s' refl (omega (arith, l)) (rw same a) (rw same d)
          (Ready-with_buf p q (written (s.bufs p).c_len (copied q s) fd) s qs ready.2 ready.3) in
      (
        r,
        group_copies-next q fd student qs m s e (omega (arith, a, d)) (omega (arith, a, ready.1))
            ∙ e',
        queue ∙ append_assoc s.sendqueue (q ∷ []) qs,
        pool,
      )

module _ (p : ℕ) (s : Server) (students : Map ℕ) where
  -- With as many buffers in the pool as the group has students, a message of at most 5112 bytes is
  -- copied with its length and its data into the buffers at the head of the pool, and its own goes back
  -- to the pool: `send_to_other_student` addresses one copy, with the type given, to each student of the
  -- group, the sender's own descriptor included, while `broadcast` addresses every copy, with the
  -- message's type, to the sender. The buffers are distinct, of full size, and without p.
  pub group-Addressed :
      (e_type : ℕ) (qs more : List ℕ)
      → s.bufpool.m_queue ≡ qs ++ more
      → length qs ≡ length students
      → (s.bufs p).c_len ≤ data_len
      → length (s.bufs p).c_data ≡ data_len
      → Ready p s.bufs qs
      → ((r : Server) × (send_to_other_student (some p) e_type students s ≡ some r)
          × (r.sendqueue ≡ s.sendqueue ++ qs)
          × (r.bufpool.m_queue ≡ more ++ p ∷ [])
          × Copied (λ fd. fd) r.bufs (s.bufs p).c_len e_type (s.bufs p).c_data qs students)
        × ((r : Server) × (broadcast (some p) students s ≡ some r)
            × (r.sendqueue ≡ s.sendqueue ++ qs)
            × (r.bufpool.m_queue ≡ more ++ p ∷ [])
            × Copied
                (λ _. (s.bufs p).fd)
                r.bufs
                (s.bufs p).c_len
                (s.bufs p).c_type
                (s.bufs p).c_data
                qs
                students)
  unfolding send_to_other_student broadcast finish free_buf free
  group-Addressed e_type qs more e l a d ready =
      let (r, e1, h) = group_copies-Sends p e_type (λ fd. fd) qs more students s e l a d ready in
      let (r', e2, h') =
        group_copies-Sends p (s.bufs p).c_type (λ _. (s.bufs p).fd) qs more students s e l a d
          ready in
      (
        (
          free_buf p r,
          rw (send_to_other_student, e1) refl,
          h.queue,
          ap (λ xs. xs ++ p ∷ []) h.pool,
          h.copies,
        ),
        (
          free_buf p r',
          rw (broadcast, e2) refl,
          h'.queue,
          ap (λ xs. xs ++ p ∷ []) h'.pool,
          h'.copies,
        ),
      )

  -- With fewer buffers in the pool than the group has students, `send_to_other_student` empties the
  -- pool, sends a copy in each of its buffers and returns. The buffers are distinct, of full size, and
  -- without p, so that the message's own buffer is lost to the pool.
  send_to_other_student-few :
      (e_type : ℕ)
      → length s.bufpool.m_queue < length students
      → (s.bufs p).c_len ≤ data_len
      → length (s.bufs p).c_data ≡ data_len
      → Ready p s.bufs s.bufpool.m_queue
      → (r : Server) × (send_to_other_student (some p) e_type students s ≡ some r)
        × (r.sendqueue ≡ s.sendqueue ++ s.bufpool.m_queue)
        × (r.bufpool.m_queue ≡ [])
  unfolding send_to_other_student finish
  send_to_other_student-few e_type few a d ready =
      let (r, e, queue, pool) =
        group_copies-few p e_type (λ fd. fd) s.bufpool.m_queue students s refl few a d ready in
      (r, rw (send_to_other_student, e) refl, queue, pool)
