-- ===== src/Sync/Queue/Wakeups.antt =====
-- What the waiting of QueueT.h keeps: the order of the elements, the number of threads, and, with
-- one consumer, that no signal is lost.
use ec_server.Base.{
  ℕ, zero, suc, ◌+◌, ◌≡◌, refl, List, [], ◌∷◌, ◌++◌, some, arith, append-nil, append_assoc,
  Option-cases, inl, inr, ◌≢◌, ◌⊎◌, Bool-cases, ◌==◌, false,
}
use ec_server.Sync.Queue.{
  QueueT, Event, enqueue, signal, dequeue, recheck, spurious, timeout, queue, enqueue_locked,
  send_signal, test_queue, step, run,
}

module _ {ℓ} {A : Type ℓ} where
  abbrev pub IsFifo : QueueT A → Type ℓ
  IsFifo s = s.pushed ≡ s.taken ++ s.m_queue

  enqueue_locked-IsFifo :
      (a : A) (s : QueueT A) (q : List A) → s.m_queue ≡ q → IsFifo s → IsFifo (enqueue_locked a s)
  unfolding enqueue_locked
  enqueue_locked-IsFifo a s [] e h = ground (arith, append-nil s.taken)
  enqueue_locked-IsFifo a s (x ∷ xs) e h = ground (arith, append_assoc s.taken (x ∷ xs) (a ∷ []))

  test_queue-IsFifo : (s : QueueT A) (q : List A) → s.m_queue ≡ q → IsFifo s → IsFifo (test_queue s)
  unfolding test_queue
  test_queue-IsFifo s [] e h = ground arith
  test_queue-IsFifo s (x ∷ xs) e h = ground (arith, append_assoc s.taken (x ∷ []) xs)

  pub dequeue-inv :
      (n : ℕ) (s t : QueueT A)
      → s.idle ≡ n
      → step dequeue s ≡ some t
      → (m : ℕ) × (s.idle ≡ suc m) × (t ≡ test_queue (record s { idle = m }))
  unfolding step
  dequeue-inv zero s t e h = ground arith
  dequeue-inv (suc m) s t e h = (m, e, ground arith)

  pub recheck-inv :
      (n : ℕ) (s t : QueueT A)
      → s.woken ≡ n
      → step recheck s ≡ some t
      → (m : ℕ) × (s.woken ≡ suc m) × (t ≡ test_queue (record s { woken = m }))
  unfolding step
  recheck-inv zero s t e h = ground arith
  recheck-inv (suc m) s t e h = (m, e, ground arith)

  step-IsFifo : (e : Event A) (s t : QueueT A) → step e s ≡ some t → IsFifo s → IsFifo t
  unfolding step
  step-IsFifo (enqueue a) s t e h = ground (arith, enqueue_locked-IsFifo a s s.m_queue refl h)
  step-IsFifo signal s t e h = ground arith
  step-IsFifo dequeue s t e h =
      let (m, _, e') = dequeue-inv s.idle s t refl e in
      rw e' (test_queue-IsFifo (record s { idle = m }) s.m_queue refl h)
  step-IsFifo recheck s t e h =
      let (m, _, e') = recheck-inv s.woken s t refl e in
      rw e' (test_queue-IsFifo (record s { woken = m }) s.m_queue refl h)
  step-IsFifo spurious s t e h = ground arith
  step-IsFifo timeout s t e h = ground arith

  pub run-keeps {κ} :
      (P : QueueT A → Type κ)
      → ((e : Event A) (s t : QueueT A) → step e s ≡ some t → P s → P t)
      → (es : List (Event A)) (s t : QueueT A) → run es s ≡ some t
      → P s
      → P t
  unfolding run
  run-keeps P keep [] s t e h = let e' : s ≡ t = ground arith in rw (← e') h
  run-keeps P keep (x ∷ es) s t e h = elim (Option-cases (step x s)) [
    | inl stuck ↦ absurd (ground arith)
    | inr (s', moved) ↦ run-keeps P keep es s' t (ground arith) (keep x s s' moved h)
  ]

  -- In any interleaving, with any number of consumers, time-outs and spurious wake-ups, the elements
  -- come out in the order in which they were put in, none lost and none twice.
  run-IsFifo :
      (es : List (Event A)) (n : ℕ) (t : QueueT A)
      → run es (queue n) ≡ some t
      → t.pushed ≡ t.taken ++ t.m_queue
  unfolding queue
  run-IsFifo es n t e = run-keeps IsFifo step-IsFifo es (queue n) t e refl

  -- One consumer; if it sleeps while an element is there, then a signal is on its way.
  record IsAlert (s : QueueT A) : Type ℓ where
    one_consumer : s.idle + s.waiting + s.woken ≡ 1
    no_lost_signal : s.waiting ≢ 0 → s.m_queue ≢ [] → s.signals ≢ 0

  test_queue-IsAlert :
      (s : QueueT A) (q : List A)
      → s.m_queue ≡ q
      → s.idle + s.waiting + s.woken ≡ 0
      → IsAlert (test_queue s)
  unfolding test_queue
  test_queue-IsAlert s [] e h = ground arith
  test_queue-IsAlert s (x ∷ xs) e h = ground arith

  enqueue_locked-IsAlert :
      (a : A) (s : QueueT A) (q : List A) → s.m_queue ≡ q → IsAlert s → IsAlert (enqueue_locked a s)
  unfolding enqueue_locked
  enqueue_locked-IsAlert a s [] e h = ground arith
  enqueue_locked-IsAlert a s (x ∷ xs) e h = record {
    one_consumer = ground arith;
    no_lost_signal = λ w _. ground (arith, h.no_lost_signal (ground arith) (ground arith));
  }

  step-IsAlert : (e : Event A) (s t : QueueT A) → step e s ≡ some t → IsAlert s → IsAlert t
  unfolding step send_signal
  step-IsAlert (enqueue a) s t e h =
      let e' : t ≡ enqueue_locked a s = ground arith in
      rw e' (enqueue_locked-IsAlert a s s.m_queue refl h)
  step-IsAlert signal s t e h = ground arith
  step-IsAlert dequeue s t e h =
      let (m, i, e') = dequeue-inv s.idle s t refl e in
      rw e'
        (test_queue-IsAlert (record s { idle = m }) s.m_queue refl (omega (arith, h.one_consumer)))
  step-IsAlert recheck s t e h =
      let (m, i, e') = recheck-inv s.woken s t refl e in
      rw e'
        (test_queue-IsAlert (record s { woken = m }) s.m_queue refl (omega (arith, h.one_consumer)))
  step-IsAlert spurious s t e h = ground arith
  step-IsAlert timeout s t e h = ground arith

  run-IsAlert : (es : List (Event A)) (t : QueueT A) → run es (queue 1) ≡ some t → IsAlert t
  unfolding queue
  run-IsAlert es t e = run-keeps IsAlert step-IsAlert es (queue 1) t e (ground arith)

  dequeue-takes :
      (s : QueueT A) (m : ℕ) (x : A) (xs : List A)
      → s.idle ≡ suc m
      → s.m_queue ≡ x ∷ xs
      → step dequeue s ≡ some (record s { idle = suc m; m_queue = xs; taken = s.taken ++ x ∷ [] })
  unfolding step test_queue
  dequeue-takes s m x xs i q = rw (i, step, q, test_queue)

  recheck-takes :
      (s : QueueT A) (m : ℕ) (x : A) (xs : List A)
      → s.woken ≡ suc m
      → s.m_queue ≡ x ∷ xs
      → step recheck s
        ≡ some (record s { idle = suc s.idle; woken = m; m_queue = xs; taken = s.taken ++ x ∷ [] })
  unfolding step test_queue
  recheck-takes s m x xs i q = rw (i, step, q, test_queue)

  -- With one consumer, as the receive and the send queue have, an element that is in the queue when
  -- no signal is on its way can be taken at once, from `dequeue` or after a wake-up that has come.
  pub run-takes :
      (es : List (Event A)) (t : QueueT A) (x : A) (xs : List A)
      → run es (queue 1) ≡ some t
      → t.m_queue ≡ x ∷ xs
      → t.signals ≡ 0
      → (e : Event A) × (u : QueueT A) × ((e ≡ dequeue) ⊎ (e ≡ recheck))
        × (step e t ≡ some u)
        × (u.taken ≡ t.taken ++ x ∷ [])
        × (u.m_queue ≡ xs)
  unfolding step test_queue
  run-takes es t x xs e q none_due = elim (Bool-cases (t.idle == 1)) [
    | inl yes_idle ↦ (
      dequeue,
      record t { idle = 1; m_queue = xs; taken = t.taken ++ x ∷ [] },
      inl refl,
      dequeue-takes t 0 x xs (ground arith) q,
      refl,
      refl,
    )
    | inr not_idle ↦ (
      recheck,
      record t { idle = suc t.idle; woken = 0; m_queue = xs; taken = t.taken ++ x ∷ [] },
      inr refl,
      recheck-takes t 0 x xs (asleep not_idle).0 q,
      refl,
      refl,
    )
  ]
    where
      alert : IsAlert t
      alert = run-IsAlert es t e

      asleep : (t.idle == 1) ≡ false → (t.woken ≡ 1) × (t.idle ≡ 0)
      asleep h = ground (arith, alert)
