-- ===== src/Records/Answers.antt =====
-- What postDBRecord and postDBRecordCount of handler/HandleMessage.cpp send.
use ec_server.Base.{
  ℕ, ◌+◌, ◌%◌, ◌^◌, ◌≤◌, ◌≡◌, refl, ◌∙◌, List, [], ◌∷◌, ◌++◌, some, true, Text, codes, length, drop,
  arith, append_assoc, eq→==, subst,
}
use ec_server.Server.{Buf, Server, head_len, with_buf, enqueue_buf}
use ec_server.Messages.Copies.{data_len, Fresh, Message}
use ec_server.Departure.{le_word}
use ec_server.Departure.Letters.{Kept}
use ec_server.Departure.Sending.{memcpy-all}
use ec_server.Records.{
  Query, count, Row, Database, params_of, row_base, row_body, count_type, count_rows,
  post_db_record_count,
}

-- The buffers hold the rows, in their order, with the types that follow one another.
abbrev pub Listed : (ℕ → Buf) → ℕ → Query → ℕ → List ℕ → List Row → Type 0
Listed bufs fd q index [] [] = Unit {0}
Listed bufs fd q index [] (row ∷ rows) = ⊥
Listed bufs fd q index (p ∷ ps) [] = ⊥
Listed bufs fd q index (p ∷ ps) (row ∷ rows) =
    ((body : Text) × (row_body q row ≡ some body)
      × Message (bufs p) fd (head_len + length body) ((row_base q + index) % 2 ^ 32) body)
    × Listed bufs fd q (index + 1) ps rows

-- The columns fit the arrays of the structure, and this the buffer.
abbrev pub Fits : Query → List Row → Type 0
Fits q [] = Unit {0}
Fits q (row ∷ rows) =
    ((body : Text) × (row_body q row ≡ some body) × (length body ≤ data_len)) × Fits q rows

-- The server after the rows were sent in the buffers `ps`.
pub record Lists (fd : ℕ) (q : Query) (index : ℕ) (ps more : List ℕ) (rows : List Row)
    (before after : Server) : Type 0 where
  pub queue : after.sendqueue ≡ before.sendqueue ++ ps
  pub pool : after.bufpool.m_queue ≡ more
  pub listed : Listed after.bufs fd q index ps rows
  pub others : (x : ℕ) → Fresh x ps → after.bufs x ≡ before.bufs x
  pub kept : Kept before after

abbrev pub times : List Row → ℕ → List ℕ
times [] p = []
times (row ∷ rows) p = p ∷ times rows p

-- The number of the last row.
abbrev pub last_count : Row → List Row → ℕ
last_count row [] = row.get_int (codes "ccount")
last_count row (row' ∷ rows) = last_count row' rows

count_type-twice : (icase old : ℕ) → count_type icase (count_type icase old) ≡ count_type icase old
unfolding count_type
count_type-twice icase old = ground arith

-- The answer that the question's buffer holds after the rows.
record Counted (p icase : ℕ) (row : Row) (rows : List Row) (before after : Server) : Type 0 where
  pub queue : after.sendqueue ≡ before.sendqueue ++ times (row ∷ rows) p
  pub pool : after.bufpool ≡ before.bufpool
  pub message :
      Message
        (after.bufs p)
        (before.bufs p).fd
        12
        (count_type icase (before.bufs p).c_type)
        (le_word (last_count row rows))
  pub kept : Kept before after

-- One round.
counted : ℕ → ℕ → ℕ → Server → Server
counted p icase n s = enqueue_buf p (
    with_buf p
      (λ b. record b {
        c_len = head_len + 4;
        c_type = count_type icase b.c_type;
        c_data = le_word n ++ drop 4 (s.bufs p).c_data;
        used = head_len + 4;
      })
      s)

count_rows-next :
    (p icase : ℕ) (row : Row) (rows : List Row) (s : Server)
    → 4 ≤ length (s.bufs p).c_data
    → count_rows p icase (row ∷ rows) s
      ≡ count_rows p icase rows (counted p icase (row.get_int (codes "ccount")) s)
unfolding count_rows counted
count_rows-next p icase row rows s big =
    rw (memcpy-all (le_word (row.get_int (codes "ccount"))) (s.bufs p).c_data big, count_rows) refl

counted-at :
    (p icase n : ℕ) (s : Server)
    → (counted p icase n s).bufs p ≡ record (s.bufs p) {
      c_len = 12;
      c_type = count_type icase (s.bufs p).c_type;
      c_data = le_word n ++ drop 4 (s.bufs p).c_data;
      used = 12;
    }
unfolding counted with_buf enqueue_buf
counted-at p icase n s = rw (eq→== p p refl) refl

counted-Message :
    (p icase n : ℕ) (s : Server)
    → Message
        ((counted p icase n s).bufs p)
        (s.bufs p).fd
        12
        (count_type icase (s.bufs p).c_type)
        (le_word n)
counted-Message p icase n s =
    rw (counted-at p icase n s)
      (record { for_fd = refl; of_type = refl; of_len = refl; sends_all = refl; same_data = refl })

count_rows-Counted :
    (p icase : ℕ) (row : Row) (rows : List Row) (s : Server)
    → 4 ≤ length (s.bufs p).c_data
    → (r : Server) × (count_rows p icase (row ∷ rows) s ≡ some r) × Counted p icase row rows s r
unfolding counted enqueue_buf with_buf
count_rows-Counted p icase row [] s big =
    let n = row.get_int (codes "ccount") in
    (
      counted p icase n s,
      count_rows-next p icase row [] s big ∙ unfold count_rows in refl,
      record {
        queue = refl;
        pool = refl;
        message = counted-Message p icase n s;
        kept = (refl, refl);
      },
    )
count_rows-Counted p icase row (row' ∷ rows) s big =
    let n = row.get_int (codes "ccount") in
    let t = counted p icase n s in
    let at : (t.bufs p) ≡ _ = counted-at p icase n s in
    let (r, e, h) = count_rows-Counted p icase row' rows t (rw at (omega arith)) in
    (
      r,
      count_rows-next p icase row (row' ∷ rows) s big ∙ e,
      record {
        queue = h.queue ∙ append_assoc s.sendqueue (p ∷ []) (times (row' ∷ rows) p);
        pool = h.pool;
        message =
            subst
              (λ (ty : ℕ). Message (r.bufs p) (s.bufs p).fd 12 ty (le_word (last_count row' rows)))
              (count_type-twice icase (s.bufs p).c_type)
              (subst
                (λ (b : Buf).
                  Message (r.bufs p) b.fd 12 (count_type icase b.c_type)
                    (le_word (last_count row' rows)))
                at h.message);
        kept = h.kept;
      },
    )

-- postDBRecordCount, where the query gives a row or more: the question's buffer is queued once for each
-- row, with the number of the last row and the type of the case, and is not given back to the pool.
pub post_db_record_count-times :
    (db : Database) (p icase : ℕ) (row : Row) (rows : List Row) (s : Server)
    → db (count icase) (params_of icase (s.bufs p).fd s.rooms) ≡ some (row ∷ rows)
    → 4 ≤ length (s.bufs p).c_data
    → (r : Server) × (post_db_record_count db (some p) icase s ≡ some (true, r))
      × (r.sendqueue ≡ s.sendqueue ++ times (row ∷ rows) p)
      × (r.bufpool ≡ s.bufpool)
      × Message
          (r.bufs p)
          (s.bufs p).fd
          12
          (count_type icase (s.bufs p).c_type)
          (le_word (last_count row rows))
      × Kept s r
unfolding post_db_record_count
post_db_record_count-times db p icase row rows s asked big =
    let (r, e, h) = count_rows-Counted p icase row rows s big in
    (r, rw (asked, post_db_record_count) (rw e refl), h.queue, h.pool, h.message, h.kept)
