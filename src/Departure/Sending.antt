-- ===== src/Departure/Sending.antt =====
-- New messages of content/room.cpp: which buffers of the pool they are put into, and what they hold for
-- whom.
use ec_server.Base.{
  ℕ, ◌+◌, ◌-◌, ◌≤◌, ◌≡◌, refl, sym, ap, ◌∙◌, List, [], ◌∷◌, ◌++◌, append-nil, some, Map, length,
  take, drop, arith, le→leb, eq→==, ne→==, subst,
}
use ec_server.Sync.Pool.{PoolT}
use ec_server.Server.{Buf, Server, head_len, with_buf, memcpy, enqueue_buf}
use ec_server.Messages.{send_copies}
use ec_server.Messages.Copies.{data_len, Ready, Delivered}
use ec_server.Messages.Broadcast.{malloc-rest, send_copies-Sends}
use ec_server.Departure.{send_new, send_all}
use ec_server.Departure.Letters.{
  Distinct, Sized, Posted, to_all, Kept, Posts, Posts-append, Posts-Sized,
}

take-all_append : (xs ys : List ℕ) → take (length xs) (xs ++ ys) ≡ take (length xs) xs
take-all_append [] ys = refl
take-all_append (x ∷ xs) ys = ap (λ zs. x ∷ zs) (take-all_append xs ys)

take-all : (xs : List ℕ) → take (length xs) xs ≡ xs
take-all [] = refl
take-all (x ∷ xs) = ap (λ zs. x ∷ zs) (take-all xs)

-- `memcpy` of a whole list.
pub memcpy-all :
    (xs ys : List ℕ)
    → length xs ≤ length ys
    → memcpy (length xs) xs ys ≡ some (xs ++ drop (length xs) ys)
unfolding memcpy
memcpy-all xs ys h =
    rw (le→leb (length xs) (length xs) (omega arith), le→leb (length xs) (length ys) h)
      (ap (λ zs. some (zs ++ drop (length xs) ys)) (take-all xs))

pub memcpy-exact :
    (n : ℕ) (xs ys : List ℕ)
    → length xs ≡ n
    → n ≤ length ys
    → memcpy n xs ys ≡ some (xs ++ drop n ys)
memcpy-exact n xs ys e h =
    subst (λ k. memcpy k xs ys ≡ some (xs ++ drop k ys)) e (memcpy-all xs ys (omega arith))

pub take-exact : (n : ℕ) (xs ys : List ℕ) → length xs ≡ n → take n (xs ++ ys) ≡ take n xs
take-exact n xs ys e = subst (λ k. take k (xs ++ ys) ≡ take k xs) e (take-all_append xs ys)

pub same-append :
    (body rest : List ℕ)
    → take (head_len + length body - head_len) (body ++ rest)
      ≡ take (head_len + length body - head_len) body
same-append body rest =
    let exact : head_len + length body - head_len ≡ length body = omega arith in
    rw exact (take-all_append body rest)

-- With a buffer in the pool `send_new` posts its letter in it.
pub send_new-Posts :
    (fd c_type : ℕ) (body : List ℕ) (q : ℕ) (more : List ℕ) (s : Server)
    → s.bufpool.m_queue ≡ q ∷ more
    → Sized s.bufs (q ∷ [])
    → length body ≤ data_len
    → (r : Server) × (send_new fd c_type body s ≡ some r)
      × Posts c_type (q ∷ []) more ((fd, body) ∷ []) s r
      × Kept s r
unfolding send_new enqueue_buf with_buf
send_new-Posts fd c_type body q more s e sized fits =
    let bytes = body ++ drop (length body) (s.bufs q).c_data in
    let written : Buf → Buf = λ b. record b {
      c_len = head_len + length body;
      c_type = c_type;
      c_data = bytes;
      used = head_len + length body;
      fd = fd;
    } in
    let post : PoolT → Server =
      λ pool. enqueue_buf q (with_buf q written (record s { bufpool = pool })) in
    (
      post (record s.bufpool { m_queue = more }),
      rw (send_new, e)
          (rw (memcpy-all body (s.bufs q).c_data (omega (arith, sized, fits)))
            (ap (λ pool. some (post pool)) (malloc-rest q more s.bufpool e))),
      record {
        queue = refl;
        pool = refl;
        posted = rw (eq→== q q refl) (
          record {
            for_fd = refl;
            of_type = refl;
            of_len = refl;
            sends_all = refl;
            same_data = same-append body (drop (length body) (s.bufs q).c_data);
          },
          tt,
        );
        others = λ x n. rw (ne→== q x (λ e. n.0 (sym e))) refl;
      },
      (refl, refl),
    )

-- With a buffer for each student `send_all` posts them the same letter.
pub send_all-Posts :
    (c_type : ℕ) (body qs more : List ℕ) (m : Map ℕ) (s : Server)
    → s.bufpool.m_queue ≡ qs ++ more
    → length qs ≡ length m
    → Distinct qs
    → Sized s.bufs qs
    → length body ≤ data_len
    → (r : Server) × (send_all c_type body m s ≡ some r)
      × Posts c_type qs more (to_all body m) s r
      × Kept s r
unfolding send_all
send_all-Posts c_type body [] more [] s e l d sized fits = (
  s,
  refl,
  record { queue = sym (append-nil s.sendqueue); pool = e; posted = tt; others = λ x n. refl },
  (refl, refl),
)
send_all-Posts c_type body [] more (entry ∷ m) s e l d sized fits = absurd (ground arith)
send_all-Posts c_type body (q ∷ qs) more [] s e l d sized fits = absurd (ground arith)
send_all-Posts c_type body (q ∷ qs) more ((fd, student) ∷ m) s e l d sized fits =
    let (t, e1, h, kept) = send_new-Posts fd c_type body q (qs ++ more) s e (sized.0, tt) fits in
    let (r, e2, k, kept') =
      send_all-Posts c_type body qs more m t h.pool (omega (arith, l)) d.1
        (Posts-Sized c_type (q ∷ []) qs (qs ++ more) ((fd, body) ∷ []) s t d sized.1 h) fits in
    (
      r,
      rw (send_all, e1) e2,
      Posts-append c_type (q ∷ []) qs more ((fd, body) ∷ []) (to_all body m) s t r d h k,
      (kept'.0 ∙ kept.0, kept'.1 ∙ kept.1),
    )

Ready-from :
    (p : ℕ) (bufs : ℕ → Buf) (qs : List ℕ) → Distinct (p ∷ qs) → Sized bufs qs → Ready p bufs qs
Ready-from p bufs [] d sized = tt
Ready-from p bufs (q ∷ qs) d sized =
    (d.0.0, sized.0, d.1.0, Ready-from p bufs qs (d.0.1, d.1.1) sized.1)

Delivered-Posted :
    (bufs : ℕ → Buf) (c_type : ℕ) (body rest : List ℕ) (qs : List ℕ) (m : Map ℕ)
    → Delivered bufs (head_len + length body) c_type (body ++ rest) qs m
    → Posted bufs c_type qs (to_all body m)
Delivered-Posted bufs c_type body rest [] [] h = tt
Delivered-Posted bufs c_type body rest [] (entry ∷ m) h = absurd h
Delivered-Posted bufs c_type body rest (q ∷ qs) [] h = absurd h
Delivered-Posted bufs c_type body rest (q ∷ qs) ((fd, student) ∷ m) h = (
  record {
    for_fd = h.0.for_fd;
    of_type = h.0.of_type;
    of_len = h.0.of_len;
    sends_all = h.0.sends_all;
    same_data = h.0.same_data ∙ same-append body rest;
  },
  Delivered-Posted bufs c_type body rest qs m h.1,
)

-- `send_copies` posts to each student the letter that the buffer p holds.
pub send_copies-Posts :
    (p c_type : ℕ) (body rest qs more : List ℕ) (m : Map ℕ) (s : Server)
    → s.bufpool.m_queue ≡ qs ++ more
    → length qs ≡ length m
    → Distinct (p ∷ qs)
    → Sized s.bufs (p ∷ qs)
    → (s.bufs p).c_data ≡ body ++ rest
    → length body ≤ data_len
    → (r : Server) × (send_copies p (head_len + length body) c_type m s ≡ some r)
      × Posts c_type qs more (to_all body m) s r
      × Kept s r
send_copies-Posts p c_type body rest qs more m s e l d sized holds fits =
    let (r, e', h) =
      send_copies-Sends p (head_len + length body) c_type (body ++ rest) qs more m s e l
        (omega arith) (omega (arith, fits)) holds (ap length (sym holds) ∙ sized.0)
        (Ready-from p s.bufs qs d sized.1) in
    (
      r,
      e',
      record {
        queue = h.queue;
        pool = ap (λ (pool : PoolT). pool.m_queue) h.pool;
        posted = Delivered-Posted r.bufs c_type body rest qs m h.copies;
        others = h.others;
      },
      (h.same_students, h.same_rooms),
    )
