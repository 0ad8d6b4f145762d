-- ===== src/Messages/Copies.antt =====
-- Copies of a message in distinct buffers: what handler/HandleMessage.cpp's copying needs of them and
-- writes into them.
use ec_server.Base.{
  ℕ, zero, suc, ◌-◌, ◌^◌, ◌<◌, ◌≤◌, ◌≡◌, ◌≢◌, refl, ap, List, [], ◌∷◌, ◌++◌, some, ltb, Map, length,
  take, drop, arith, Bool-cases, inl, inr, lt→ltb, le→leb, ne→==,
}
use ec_server.Server.{Buf, Server, head_len, with_buf, memcpy}
use ec_server.Messages.{copy_data}

-- The bytes of a buffer after its head: MAX_BUF less the head.
abbrev pub data_len : ℕ
data_len = 5112

abbrev pub Fresh : ℕ → List ℕ → Type 0
Fresh p [] = Unit {0}
Fresh p (q ∷ qs) = (p ≢ q) × Fresh p qs

-- The buffers are distinct, of full size, and none of them is p.
abbrev pub Ready : ℕ → (ℕ → Buf) → List ℕ → Type 0
Ready p bufs [] = Unit {0}
Ready p bufs (q ∷ qs) = (p ≢ q) × (length (bufs q).c_data ≡ data_len) × Fresh q qs × Ready p bufs qs

-- A message for a client, with its type, its length and its data.
pub record Message (b : Buf) (fd len c_type : ℕ) (body : List ℕ) : Type 0 where
  pub for_fd : b.fd ≡ fd
  pub of_type : b.c_type ≡ c_type
  pub of_len : b.c_len ≡ len
  pub sends_all : b.used ≡ len
  pub same_data : take (len - head_len) b.c_data ≡ take (len - head_len) body

-- One buffer for each student, in the order of the map.
abbrev pub Delivered : (ℕ → Buf) → ℕ → ℕ → List ℕ → List ℕ → Map ℕ → Type 0
Delivered bufs len c_type body [] [] = Unit {0}
Delivered bufs len c_type body [] (entry ∷ m) = ⊥
Delivered bufs len c_type body (q ∷ qs) [] = ⊥
Delivered bufs len c_type body (q ∷ qs) ((fd, student) ∷ m) =
    Message (bufs q) fd len c_type body × Delivered bufs len c_type body qs m

pub take-take_append :
    (n : ℕ) (xs ys : List ℕ) → n ≤ length xs → take n (take n xs ++ ys) ≡ take n xs
take-take_append zero xs ys h = refl
take-take_append (suc n) [] ys h = absurd (ground arith)
take-take_append (suc n) (x ∷ xs) ys h = ap (λ zs. x ∷ zs) (take-take_append n xs ys (omega arith))

pub copy_data_lem :
    (len : ℕ) (from to : List ℕ)
    → head_len ≤ len
    → len - head_len ≤ length from
    → len - head_len ≤ length to
    → len < 2 ^ 31
    → (bytes : List ℕ) × (copy_data len from to ≡ some bytes)
      × (take (len - head_len) bytes ≡ take (len - head_len) from)
unfolding copy_data memcpy
copy_data_lem len from to a b c d = elim (Bool-cases (ltb head_len len)) [
  | inl more ↦ (
    take (len - head_len) from ++ drop (len - head_len) to,
    rw (copy_data, more, lt→ltb len (2 ^ 31) d)
        (rw (le→leb (len - head_len) (length from) b, le→leb (len - head_len) (length to) c) refl),
    take-take_append (len - head_len) from (drop (len - head_len) to) b,
  )
  | inr none_more ↦
      let zero_data : len - head_len ≡ 0 = ground arith in
      (to, rw (copy_data, none_more) refl, rw zero_data refl)
]

pub Ready-with_buf :
    (p q : ℕ) (f : Buf → Buf) (s : Server) (qs : List ℕ)
    → Fresh q qs
    → Ready p s.bufs qs
    → Ready p (with_buf q f s).bufs qs
unfolding with_buf
Ready-with_buf p q f s [] n r = tt
Ready-with_buf p q f s (x ∷ qs) n r =
    (r.0, rw (ne→== q x n.0) r.1, r.2, Ready-with_buf p q f s qs n.1 r.3)

pub Delivered-with_buf :
    (p : ℕ) (f : Buf → Buf) (s : Server) (len c_type : ℕ) (body : List ℕ) (qs : List ℕ) (m : Map ℕ)
    → Fresh p qs
    → Delivered s.bufs len c_type body qs m
    → Delivered (with_buf p f s).bufs len c_type body qs m
unfolding with_buf
Delivered-with_buf p f s len c_type body [] [] n d = tt
Delivered-with_buf p f s len c_type body [] (entry ∷ m) n d = absurd d
Delivered-with_buf p f s len c_type body (q ∷ qs) [] n d = absurd d
Delivered-with_buf p f s len c_type body (q ∷ qs) ((fd, student) ∷ m) n d =
    (rw (ne→== p q n.0) d.0, Delivered-with_buf p f s len c_type body qs m n.1 d.1)

pub Ready-Fresh : (p : ℕ) (bufs : ℕ → Buf) (qs : List ℕ) → Ready p bufs qs → Fresh p qs
Ready-Fresh p bufs [] r = tt
Ready-Fresh p bufs (q ∷ qs) r = (r.0, Ready-Fresh p bufs qs r.3)
