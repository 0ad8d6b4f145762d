-- ===== src/Tests/Queue.antt =====
-- The queue of QueueT.h on concrete interleavings.
use ec_server.Base.{ℕ, ◌≡◌, ◌⊎◌, refl, List, [], ◌∷◌, ◌++◌, some}
use ec_server.Sync.Queue.{QueueT, Event, enqueue, signal, dequeue, recheck, queue, step, run}
use ec_server.Sync.Queue.Wakeups.{run-takes}
use ec_server.Sync.Queue.Fifo.{Op, Implements, run-Implements}

-- A consumer sleeps, two elements come in, and it is woken for the first.
abbrev events : List (Event ℕ)
events = dequeue ∷ enqueue 4 ∷ enqueue 5 ∷ signal ∷ recheck ∷ []

abbrev after : QueueT ℕ
after = record {
  m_queue = 5 ∷ [];
  idle = 1;
  waiting = 0;
  woken = 0;
  signals = 0;
  pushed = 4 ∷ 5 ∷ [];
  taken = 4 ∷ [];
}

events-run : run events (queue 1) ≡ some after
unfolding run queue
events-run = refl

run-takes_example :
    (e : Event ℕ) × (u : QueueT ℕ) × ((e ≡ dequeue) ⊎ (e ≡ recheck))
    × (step e after ≡ some u)
    × (u.taken ≡ after.taken ++ 5 ∷ [])
    × (u.m_queue ≡ [])
run-takes_example = run-takes events after 5 [] events-run refl refl

run-Implements_example : (ops : List (Op ℕ)) × Implements ops (queue 1) after
run-Implements_example = run-Implements events (queue 1) after events-run
