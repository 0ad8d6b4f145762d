-- ===== src/Sync/Pool/Ownership.antt =====
-- Who has the objects of a pool (PoolT.h): the calls of a program's threads in any order.
use mathlib.Core.List.{Perm, perm_middle, perm_append_singleton, Nodup}
use mathlib.Core.List.Perm
use ec_server.Base.{
  ℕ, zero, suc, ◌+◌, ◌^◌, ◌≤◌, ◌<◌, ◌≡◌, refl, ◌∙◌, List, [], ◌∷◌, ◌++◌, Option, none, some, length,
  arith, length-append, ◌==◌, if◌then◌else◌, Bool-cases, Option-cases, true, inl, inr, ◌↔◌,
}
use ec_server.Sync.Pool.{PoolT, pool, push_objects, malloc, free, used}

-- The pool, and the objects that the threads have got and not given back.
pub record Ledger : Type 0 where
  pub shared : PoolT
  pub held : List ℕ

pub data Call : Type 0 where
  mallocs : Call
  frees : ℕ → Call

abbrev pub hold : Option ℕ → List ℕ → List ℕ
hold none held = held
hold (some p) held = p ∷ held

-- Takes one object out of a list, if it is there.
unfoldable pub give_up : ℕ → List ℕ → Option (List ℕ)
give_up p [] = none
give_up p (q ∷ held) =
    if p == q then some held else elim (give_up p held) [ none ↦ none | some r ↦ some (q ∷ r) ]

-- A thread frees what it holds; any other call of `free` is not made.
unfoldable pub step : Call → Ledger → Ledger
unfolding malloc free give_up
step mallocs l = let (p, s) = malloc l.shared in record { shared = s; held = hold p l.held }
step (frees p) l = elim (give_up p l.held) [
  | none ↦ l
  | some rest ↦ record { shared = free p l.shared; held = rest }
]

unfoldable pub run : List Call → Ledger → Ledger
unfolding step
run [] l = l
run (c ∷ cs) l = run cs (step c l)

abbrev pub objects : Ledger → List ℕ
objects l = l.held ++ l.shared.m_queue

-- A pool that its constructor has just built.
unfoldable pub fresh : (ℕ → ℕ) → ℕ → Ledger
unfolding pool
fresh new n = record { shared = pool new n; held = [] }

give_up-perm : (p : ℕ) (held rest : List ℕ) → give_up p held ≡ some rest → Perm held (p ∷ rest)
unfolding give_up
give_up-perm p [] rest e = cc
give_up-perm p (q ∷ held) rest e = elim (Bool-cases (p == q)) [
  | inl hit ↦ Perm.cons' (ground arith) (rw (the_rest hit) Perm.rfl)
  | inr miss ↦ elim (Option-cases (give_up p held)) [
    | inl gone ↦ ground arith
    | inr (r, found) ↦
        let e' : rest ≡ q ∷ r = ground arith in
        rw e' (Perm.trans (Perm.cons q (give_up-perm p held r found)) (Perm.swap p q r))
  ]
]
  where
    the_rest : (p == q) ≡ true → held ≡ rest
    the_rest hit = ground arith

mallocs-perm :
    (s : PoolT) (q held : List ℕ)
    → s.m_queue ≡ q
    → Perm (objects (step mallocs (record { shared = s; held = held }))) (held ++ q)
unfolding step
mallocs-perm s [] held e = rw (e, malloc) (rw e Perm.rfl)
mallocs-perm s (p ∷ rest) held e = rw (e, malloc) (Perm.symm (perm_middle held rest))

frees-perm :
    (p : ℕ) (s : PoolT) (held : List ℕ)
    → Perm (objects (step (frees p) (record { shared = s; held = held }))) (held ++ s.m_queue)
unfolding step
frees-perm p s held = elim (Option-cases (give_up p held)) [
  | inl e ↦ rw (e, step) Perm.rfl
  | inr (rest, e) ↦
      rw (e, step)
        (Perm.trans
          (Perm.trans (Perm.append_left rest (perm_append_singleton p s.m_queue))
            (perm_middle rest s.m_queue))
          (Perm.append_right s.m_queue (Perm.symm (give_up-perm p held rest e))))
]

step-perm : (c : Call) (l : Ledger) → Perm (objects (step c l)) (objects l)
step-perm mallocs l = mallocs-perm l.shared l.shared.m_queue l.held refl
step-perm (frees p) l = frees-perm p l.shared l.held

-- Whatever threads do, the objects that they hold and those in the pool are together the ones that
-- the pool started with.
pub run-perm : (cs : List Call) (l : Ledger) → Perm (objects (run cs l)) (objects l)
unfolding run
run-perm [] l = Perm.rfl
run-perm (c ∷ cs) l = Perm.trans (run-perm cs (step c l)) (step-perm c l)

-- If the objects that are held and those in the pool are distinct, then they are so after any
-- calls: no object is handed to two holders, and none is handed out while it is in the pool.
pub run-Nodup : (cs : List Call) (l : Ledger) → Nodup (objects l) → Nodup (objects (run cs l))
run-Nodup cs l = Perm.nodup (Perm.symm (run-perm cs l))

length-push_objects :
    (new : ℕ → ℕ) (n : ℕ) (queue : List ℕ) → length (push_objects new n queue) ≡ length queue + n
unfolding push_objects
length-push_objects new zero queue = omega arith
length-push_objects new (suc n) queue =
    omega (arith, length-push_objects new n (queue ++ new n ∷ []), length-append queue (new n ∷ []))

length-give_up :
    (p : ℕ) (held rest : List ℕ) → give_up p held ≡ some rest → length held ≡ suc (length rest)
unfolding give_up
length-give_up p [] rest e = cc
length-give_up p (q ∷ held) rest e = elim (Option-cases (give_up p held)) [
  | inl gone ↦ ground arith
  | inr (r, found) ↦ ground (arith, length-give_up p held r found)
]

-- The objects are as many as the pool's size says.
abbrev IsCounted : Ledger → Type 0
IsCounted l = length l.held + length l.shared.m_queue ≡ l.shared.m_size

step-IsCounted : (c : Call) (l : Ledger) → IsCounted l → IsCounted (step c l)
unfolding step malloc free
step-IsCounted mallocs l h = ground arith
step-IsCounted (frees p) l h = elim (Option-cases (give_up p l.held)) [
  | inl e ↦ rw (e, step) h
  | inr (rest, e) ↦
      rw (e, step)
        (omega (arith, length-give_up p l.held rest e, length-append l.shared.m_queue (p ∷ [])))
]

run-IsCounted : (cs : List Call) (l : Ledger) → IsCounted l → IsCounted (run cs l)
unfolding run
run-IsCounted [] l h = h
run-IsCounted (c ∷ cs) l h = run-IsCounted cs (step c l) (step-IsCounted c l h)

m_size-step : (c : Call) (l : Ledger) → (step c l).shared.m_size ≡ l.shared.m_size
unfolding step malloc free
m_size-step mallocs l = ground arith
m_size-step (frees p) l = ground arith

m_size-run : (cs : List Call) (l : Ledger) → (run cs l).shared.m_size ≡ l.shared.m_size
unfolding run
m_size-run [] l = refl
m_size-run (c ∷ cs) l = m_size-run cs (step c l) ∙ m_size-step c l

-- After any calls on a new pool of n < 2 ^ 31 objects, `used ()` is the number of objects that the
-- threads hold, which is at most n, and `malloc ()` fails exactly if all n are held.
used-run :
    (new : ℕ → ℕ) (n : ℕ) (cs : List Call)
    → n < 2 ^ 31
    → let l = run cs (fresh new n) in
      (used l.shared ≡ length l.held)
      × (length l.held ≤ n)
      × (((malloc l.shared).0 ≡ none) ↔ (length l.held ≡ n))
unfolding used malloc fresh
used-run new n cs h = ground (
  arith,
  run-IsCounted cs (fresh new n) (omega (arith, length-push_objects new n [])),
  m_size-run cs (fresh new n),
)

-- `n` calls of `malloc ()` whose results are kept elsewhere.
pub drain : ℕ → PoolT → PoolT
drain zero s = s
drain (suc n) s = drain n (malloc s).1

-- A freed object comes out of the pool once the objects that lay there before it are out, and then
-- the pool is empty.
drain-free :
    (q : List ℕ) (p m : ℕ)
    → malloc (drain (length q) (free p (record { m_queue = q; m_size = m })))
      ≡ (some p, record { m_queue = []; m_size = m })
unfolding drain malloc free
drain-free [] p m = refl
drain-free (x ∷ q) p m = drain-free q p m
