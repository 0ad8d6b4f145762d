-- ===== src/Departure/Letters.antt =====
-- Letters in distinct buffers: what the messages of content/room.cpp leave in the pool, in the buffers
-- and in the send queue.
use ec_server.Base.{
  ℕ, ◌+◌, ◌≡◌, sym, ap, ◌∙◌, List, [], ◌∷◌, ◌++◌, append_assoc, Map, length, ne→==,
}
use ec_server.Server.{Buf, Server, head_len, with_buf}
use ec_server.Messages.Copies.{data_len, Fresh, Message}

abbrev pub Distinct : List ℕ → Type 0
Distinct [] = Unit {0}
Distinct (q ∷ qs) = Fresh q qs × Distinct qs

abbrev pub Sized : (ℕ → Buf) → List ℕ → Type 0
Sized bufs [] = Unit {0}
Sized bufs (q ∷ qs) = (length (bufs q).c_data ≡ data_len) × Sized bufs qs

-- A letter is a descriptor and the bytes for it; the buffers hold the letters, in their order.
abbrev pub Posted : (ℕ → Buf) → ℕ → List ℕ → List (ℕ × List ℕ) → Type 0
Posted bufs c_type [] [] = Unit {0}
Posted bufs c_type [] (letter ∷ letters) = ⊥
Posted bufs c_type (q ∷ qs) [] = ⊥
Posted bufs c_type (q ∷ qs) ((fd, body) ∷ letters) =
    Message (bufs q) fd (head_len + length body) c_type body × Posted bufs c_type qs letters

abbrev pub to_all : List ℕ → Map ℕ → List (ℕ × List ℕ)
to_all body [] = []
to_all body ((fd, student) ∷ m) = (fd, body) ∷ to_all body m

-- The students and the rooms are as they were.
abbrev pub Kept : Server → Server → Type 0
Kept before after = (after.students ≡ before.students) × (after.rooms ≡ before.rooms)

-- The server after the buffers `qs` were taken from the pool and queued with the letters.
pub record Posts (c_type : ℕ) (qs more : List ℕ) (letters : List (ℕ × List ℕ))
    (before after : Server) : Type 0 where
  pub queue : after.sendqueue ≡ before.sendqueue ++ qs
  pub pool : after.bufpool.m_queue ≡ more
  pub posted : Posted after.bufs c_type qs letters
  pub others : (x : ℕ) → Fresh x qs → after.bufs x ≡ before.bufs x

pub Fresh-append : (x : ℕ) (ps qs : List ℕ) → Fresh x (ps ++ qs) → Fresh x ps × Fresh x qs
Fresh-append x [] qs n = (tt, n)
Fresh-append x (p ∷ ps) qs n = let (left, right) = Fresh-append x ps qs n.1 in ((n.0, left), right)

pub Sized-append :
    (bufs : ℕ → Buf) (ps qs : List ℕ) → Sized bufs (ps ++ qs) → Sized bufs ps × Sized bufs qs
Sized-append bufs [] qs h = (tt, h)
Sized-append bufs (p ∷ ps) qs h =
    let (left, right) = Sized-append bufs ps qs h.1 in ((h.0, left), right)

pub Distinct-append : (ps qs : List ℕ) → Distinct (ps ++ qs) → Distinct ps × Distinct qs
Distinct-append [] qs d = (tt, d)
Distinct-append (p ∷ ps) qs d =
    let (left, right) = Distinct-append ps qs d.1 in ((((Fresh-append p ps qs d.0).0), left), right)

Posted-kept :
    (b c : ℕ → Buf) (c_type : ℕ) (ps qs : List ℕ) (letters : List (ℕ × List ℕ))
    → Distinct (ps ++ qs)
    → ((x : ℕ) → Fresh x qs → c x ≡ b x)
    → Posted b c_type ps letters
    → Posted c c_type ps letters
Posted-kept b c c_type [] qs [] d same h = tt
Posted-kept b c c_type [] qs (letter ∷ letters) d same h = absurd h
Posted-kept b c c_type (p ∷ ps) qs [] d same h = absurd h
Posted-kept b c c_type (p ∷ ps) qs ((fd, body) ∷ letters) d same h = (
  rw (same p (Fresh-append p ps qs d.0).1) h.0,
  Posted-kept b c c_type ps qs letters d.1 same h.1,
)

Posted-append :
    (b : ℕ → Buf) (c_type : ℕ) (ps qs : List ℕ) (ls ms : List (ℕ × List ℕ))
    → Posted b c_type ps ls
    → Posted b c_type qs ms
    → Posted b c_type (ps ++ qs) (ls ++ ms)
Posted-append b c_type [] qs [] ms h k = k
Posted-append b c_type [] qs (l ∷ ls) ms h k = absurd h
Posted-append b c_type (p ∷ ps) qs [] ms h k = absurd h
Posted-append b c_type (p ∷ ps) qs ((fd, body) ∷ ls) ms h k =
    (h.0, Posted-append b c_type ps qs ls ms h.1 k)

-- One after the other.
pub Posts-append :
    (c_type : ℕ) (ps qs more : List ℕ) (ls ms : List (ℕ × List ℕ)) (r s t : Server)
    → Distinct (ps ++ qs)
    → Posts c_type ps (qs ++ more) ls r s
    → Posts c_type qs more ms s t
    → Posts c_type (ps ++ qs) more (ls ++ ms) r t
Posts-append c_type ps qs more ls ms r s t d h k = record {
  queue = k.queue ∙ ap (λ xs. xs ++ qs) h.queue ∙ append_assoc r.sendqueue ps qs;
  pool = k.pool;
  posted =
      Posted-append t.bufs c_type ps qs ls ms
        (Posted-kept s.bufs t.bufs c_type ps qs ls d k.others h.posted) k.posted;
  others = λ x n. let (left, right) = Fresh-append x ps qs n in k.others x right ∙ h.others x left;
}

Fresh-join : (x : ℕ) (ps qs : List ℕ) → Fresh x ps → Fresh x qs → Fresh x (ps ++ qs)
Fresh-join x [] qs n k = k
Fresh-join x (p ∷ ps) qs n k = (n.0, Fresh-join x ps qs n.1 k)

-- An element in the middle is fresh for those in front of it.
Distinct-middle :
    (ps : List ℕ) (q : ℕ) (qs : List ℕ) → Distinct (ps ++ q ∷ qs) → Fresh q ps × Distinct (ps ++ qs)
Distinct-middle [] q qs d = (tt, d.1)
Distinct-middle (p ∷ ps) q qs d =
    let (left, right) = Fresh-append p ps (q ∷ qs) d.0 in
    let (fresh, rest) = Distinct-middle ps q qs d.1 in
    (((λ e. right.0 (sym e)), fresh), (Fresh-join p ps qs left right.1, rest))

-- Buffers that are not used keep their size.
pub Posts-Sized :
    (c_type : ℕ) (ps qs more : List ℕ) (ls : List (ℕ × List ℕ)) (s t : Server)
    → Distinct (ps ++ qs)
    → Sized s.bufs qs
    → Posts c_type ps more ls s t
    → Sized t.bufs qs
Posts-Sized c_type ps [] more ls s t d h k = tt
Posts-Sized c_type ps (q ∷ qs) more ls s t d h k =
    let (fresh, rest) = Distinct-middle ps q qs d in
    (
      ap (λ (b : Buf). length b.c_data) (k.others q fresh) ∙ h.0,
      Posts-Sized c_type ps qs more ls s t rest h.1 k,
    )

-- A change of another buffer.
pub Sized-with_buf :
    (p : ℕ) (f : Buf → Buf) (s : Server) (qs : List ℕ)
    → Fresh p qs
    → Sized s.bufs qs
    → Sized (with_buf p f s).bufs qs
unfolding with_buf
Sized-with_buf p f s [] n h = tt
Sized-with_buf p f s (q ∷ qs) n h = (rw (ne→== p q n.0) h.0, Sized-with_buf p f s qs n.1 h.1)

pub Posted-with_buf :
    (p : ℕ) (f : Buf → Buf) (s : Server) (c_type : ℕ) (qs : List ℕ) (ls : List (ℕ × List ℕ))
    → Fresh p qs
    → Posted s.bufs c_type qs ls
    → Posted (with_buf p f s).bufs c_type qs ls
unfolding with_buf
Posted-with_buf p f s c_type [] [] n h = tt
Posted-with_buf p f s c_type [] (l ∷ ls) n h = absurd h
Posted-with_buf p f s c_type (q ∷ qs) [] n h = absurd h
Posted-with_buf p f s c_type (q ∷ qs) ((fd, body) ∷ ls) n h =
    (rw (ne→== p q n.0) h.0, Posted-with_buf p f s c_type qs ls n.1 h.1)
