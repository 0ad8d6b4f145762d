-- ===== src/Sync/Queue/Fifo.antt =====
-- QueueT.h against what a queue promises: values are put in at the back and got from the front, one at a
-- time, whatever the threads, the signals and the time-outs do.
use ec_server.Base.{
  ◌≡◌, refl, sym, ap, ◌∙◌, List, [], ◌∷◌, ◌++◌, append_assoc, append-nil, some, arith,
}
use ec_server.Sync.Queue.{
  QueueT, Event, enqueue, signal, dequeue, recheck, spurious, timeout, enqueue_locked, test_queue,
  step, run,
}
use ec_server.Sync.Queue.Wakeups.{dequeue-inv, recheck-inv, run-keeps}

pub data Op {ℓ} (A : Type ℓ) : Type ℓ where
  put : A → Op A
  get : A → Op A

module _ {ℓ} {A : Type ℓ} where
  -- The abstract queue: a list, at whose end `put` adds and from whose front `get` takes.
  pub data Fifo : List A → List (Op A) → List A → Type ℓ where
    done : {xs : List A} → Fifo xs [] xs
    then_put :
        {xs ys : List A} {a : A} {ops : List (Op A)}
        → Fifo (xs ++ a ∷ []) ops ys
        → Fifo xs (put a ∷ ops) ys
    then_get :
        {xs ys : List A} {a : A} {ops : List (Op A)}
        → Fifo xs ops ys
        → Fifo (a ∷ xs) (get a ∷ ops) ys

  abbrev pub puts : List (Op A) → List A
  puts [] = []
  puts (put a ∷ ops) = a ∷ puts ops
  puts (get a ∷ ops) = puts ops

  abbrev pub gets : List (Op A) → List A
  gets [] = []
  gets (put a ∷ ops) = gets ops
  gets (get a ∷ ops) = a ∷ gets ops

  -- The operations take the abstract queue from the one state's list to the other's, and are those that
  -- the history records.
  pub record Implements (ops : List (Op A)) (before after : QueueT A) : Type ℓ where
    pub moves : Fifo before.m_queue ops after.m_queue
    pub all_puts : after.pushed ≡ before.pushed ++ puts ops
    pub all_gets : after.taken ≡ before.taken ++ gets ops

  Fifo-append :
      {xs ys zs : List A} {ps qs : List (Op A)}
      → Fifo xs ps ys
      → Fifo ys qs zs
      → Fifo xs (ps ++ qs) zs
  Fifo-append done g = g
  Fifo-append (then_put f) g = then_put (Fifo-append f g)
  Fifo-append (then_get f) g = then_get (Fifo-append f g)

  puts-append : (ps qs : List (Op A)) → puts (ps ++ qs) ≡ puts ps ++ puts qs
  puts-append [] qs = refl
  puts-append (put a ∷ ps) qs = ap (λ xs. a ∷ xs) (puts-append ps qs)
  puts-append (get a ∷ ps) qs = puts-append ps qs

  gets-append : (ps qs : List (Op A)) → gets (ps ++ qs) ≡ gets ps ++ gets qs
  gets-append [] qs = refl
  gets-append (put a ∷ ps) qs = gets-append ps qs
  gets-append (get a ∷ ps) qs = ap (λ xs. a ∷ xs) (gets-append ps qs)

  Implements-none :
      (s s' : QueueT A)
      → s'.m_queue ≡ s.m_queue
      → s'.pushed ≡ s.pushed
      → s'.taken ≡ s.taken
      → Implements [] s s'
  Implements-none s s' q p t = record {
    moves = rw q done;
    all_puts = p ∙ sym (append-nil s.pushed);
    all_gets = t ∙ sym (append-nil s.taken);
  }

  Implements-append :
      (ps qs : List (Op A)) (s t u : QueueT A)
      → Implements ps s t
      → Implements qs t u
      → Implements (ps ++ qs) s u
  Implements-append ps qs s t u f g = record {
    moves = Fifo-append f.moves g.moves;
    all_puts =
        rw (g.all_puts, f.all_puts, puts-append ps qs) (append_assoc s.pushed (puts ps) (puts qs));
    all_gets =
        rw (g.all_gets, f.all_gets, gets-append ps qs) (append_assoc s.taken (gets ps) (gets qs));
  }

  enqueue_locked-Implements :
      (a : A) (s : QueueT A) (q : List A)
      → s.m_queue ≡ q
      → Implements (put a ∷ []) s (enqueue_locked a s)
  unfolding enqueue_locked
  enqueue_locked-Implements a s [] e =
      rw (enqueue_locked, e)
        (record { moves = then_put done; all_puts = refl; all_gets = sym (append-nil s.taken) })
  enqueue_locked-Implements a s (x ∷ xs) e =
      rw (enqueue_locked, e)
        (record { moves = then_put done; all_puts = refl; all_gets = sym (append-nil s.taken) })

  test_queue-Implements :
      (s : QueueT A) (q : List A)
      → s.m_queue ≡ q
      → (ops : List (Op A)) × Implements ops s (test_queue s)
  unfolding test_queue
  test_queue-Implements s [] e = (
    [],
    rw (test_queue, e)
        (record {
          moves = rw e done;
          all_puts = sym (append-nil s.pushed);
          all_gets = sym (append-nil s.taken);
        }),
  )
  test_queue-Implements s (x ∷ xs) e = (
    get x ∷ [],
    rw (test_queue, e)
        (record { moves = then_get done; all_puts = sym (append-nil s.pushed); all_gets = refl }),
  )

  step-Implements :
      (e : Event A) (s t : QueueT A) → step e s ≡ some t → (ops : List (Op A)) × Implements ops s t
  unfolding step
  step-Implements (enqueue a) s t e =
      let e' : t ≡ enqueue_locked a s = ground arith in
      (put a ∷ [], rw e' (enqueue_locked-Implements a s s.m_queue refl))
  step-Implements signal s t e =
      ([], Implements-none s t (ground arith) (ground arith) (ground arith))
  step-Implements dequeue s t e =
      let (m, _, e') = dequeue-inv s.idle s t refl e in
      let (ops, h) = test_queue-Implements (record s { idle = m }) s.m_queue refl in
      (ops, rw e' (record { moves = h.moves; all_puts = h.all_puts; all_gets = h.all_gets }))
  step-Implements recheck s t e =
      let (m, _, e') = recheck-inv s.woken s t refl e in
      let (ops, h) = test_queue-Implements (record s { woken = m }) s.m_queue refl in
      (ops, rw e' (record { moves = h.moves; all_puts = h.all_puts; all_gets = h.all_gets }))
  step-Implements spurious s t e =
      ([], Implements-none s t (ground arith) (ground arith) (ground arith))
  step-Implements timeout s t e =
      ([], Implements-none s t (ground arith) (ground arith) (ground arith))

  -- Whatever the threads do, from whatever state, the queue goes through operations of the abstract
  -- queue: they take its list to the list that is there in the end, their puts are the values that were
  -- pushed meanwhile and their gets the values that were taken.
  pub run-Implements :
      (es : List (Event A)) (s t : QueueT A)
      → run es s ≡ some t
      → (ops : List (Op A)) × Implements ops s t
  run-Implements es s t e =
      run-keeps (λ u. (ops : List (Op A)) × Implements ops s u)
        (λ x u v moved (ops, h).
          let (more, k) = step-Implements x u v moved in
          (ops ++ more, Implements-append ops more s u v h k))
        es s t e ([], Implements-none s s refl refl refl)
