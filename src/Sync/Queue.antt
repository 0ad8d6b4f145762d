-- ===== src/Sync/Queue.antt =====
-- QueueT.h: a queue under a mutex, and a condition variable on which consumers wait. An event is
-- one section of `enqueue` or `dequeue` that the mutex makes indivisible, or the signal that
-- `enqueue` sends after it has let go of the mutex.
pub mod Wakeups
pub mod Fifo
use ec_server.Base.{ℕ, zero, suc, ◌+◌, List, [], ◌∷◌, ◌++◌, Option, none, some}

-- `idle` threads are outside `dequeue`, `waiting` ones sleep in `pthread_cond_timedwait`, `woken`
-- ones have left the condition variable and want the mutex again. `signals` counts the calls of
-- `enqueue` that have still to send theirs. `pushed` and `taken` record the history.
pub record QueueT {ℓ} (A : Type ℓ) : Type ℓ where
  pub m_queue : List A
  pub idle : ℕ
  pub waiting : ℕ
  pub woken : ℕ
  pub signals : ℕ
  pub pushed : List A
  pub taken : List A

pub data Event {ℓ} (A : Type ℓ) : Type ℓ where
  enqueue : A → Event A
  signal : Event A
  dequeue : Event A
  recheck : Event A
  spurious : Event A
  timeout : Event A

module _ {ℓ} {A : Type ℓ} where
  unfoldable pub queue : ℕ → QueueT A
  queue consumers = record {
    m_queue = [];
    idle = consumers;
    waiting = 0;
    woken = 0;
    signals = 0;
    pushed = [];
    taken = [];
  }

  -- The locked part of `enqueue`: it will signal only if it finds the queue empty.
  unfoldable pub enqueue_locked : A → QueueT A → QueueT A
  enqueue_locked a s = elim s.m_queue [
    | [] ↦ record s { m_queue = a ∷ []; signals = suc s.signals; pushed = s.pushed ++ a ∷ [] }
    | x ∷ xs ↦ record s { m_queue = (x ∷ xs) ++ a ∷ []; pushed = s.pushed ++ a ∷ [] }
  ]

  -- `pthread_cond_signal` wakes one waiting thread, if there is one.
  unfoldable pub send_signal : QueueT A → Option (QueueT A)
  send_signal s = elim s.signals [
    | zero ↦ none
    | suc n ↦ elim s.waiting [
      | zero ↦ some (record s { signals = n })
      | suc w ↦ some (record s { signals = n; waiting = w; woken = suc s.woken })
    ]
  ]

  -- A thread that holds the mutex tests the queue: it takes the front and leaves, or waits.
  unfoldable pub test_queue : QueueT A → QueueT A
  test_queue s = elim s.m_queue [
    | [] ↦ record s { waiting = suc s.waiting }
    | x ∷ xs ↦ record s { m_queue = xs; idle = suc s.idle; taken = s.taken ++ x ∷ [] }
  ]

  -- `none`: no thread is in a state to do this.
  unfoldable pub step : Event A → QueueT A → Option (QueueT A)
  unfolding enqueue_locked send_signal test_queue
  step (enqueue a) s = some (enqueue_locked a s)
  step signal s = send_signal s
  step dequeue s = elim s.idle [ zero ↦ none | suc n ↦ some (test_queue (record s { idle = n })) ]
  step recheck s = elim s.woken [ zero ↦ none | suc n ↦ some (test_queue (record s { woken = n })) ]
  step spurious s = elim s.waiting [
    | zero ↦ none
    | suc n ↦ some (record s { waiting = n; woken = suc s.woken })
  ]
  step timeout s = elim s.waiting [
    | zero ↦ none
    | suc n ↦ some (record s { waiting = n; idle = suc s.idle })
  ]

  unfoldable pub run : List (Event A) → QueueT A → Option (QueueT A)
  unfolding step
  run [] s = some s
  run (e ∷ es) s = elim (step e s) [ none ↦ none | some s' ↦ run es s' ]
