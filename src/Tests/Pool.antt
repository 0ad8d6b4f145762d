-- ===== src/Tests/Pool.antt =====
-- The pool of PoolT.h on concrete inputs.
use mathlib.Core.List.{Nodup, Nodup-cons, Nodup-nil, Mem, not-mem-nil, eq-or-mem_of_mem-cons}
use mathlib.Core.Logic.Or
use mathlib.Core.HLevel.{⊥_prop}
use ec_server.Base.{ℕ, ◌+◌, ◌≡◌, ◌≢◌, refl, List, [], ◌∷◌, arith}
use ec_server.Sync.Pool.{pool}
use ec_server.Sync.Pool.Ownership.{Ledger, Call, mallocs, frees, run, objects, fresh, run-Nodup}

-- Two objects at work, one of which goes back.
abbrev calls : List Call
calls = mallocs ∷ mallocs ∷ frees 102 ∷ []

abbrev three : Ledger
three = record { shared = record { m_queue = 102 ∷ 101 ∷ 100 ∷ []; m_size = 3 }; held = [] }

fresh_lem : fresh (λ n. 100 + n) 3 ≡ three
unfolding fresh pool
fresh_lem = refl

not-Mem-cons : (a b : ℕ) (l : List ℕ) → a ≢ b → ¬ Mem a l → ¬ Mem a (b ∷ l)
not-Mem-cons a b l ne nx = λ m. Or.elim ⊥_prop (eq-or-mem_of_mem-cons m) ne nx

three-Nodup : Nodup (objects three)
three-Nodup = Nodup-cons.1 (
  not-Mem-cons 102 101 (100 ∷ []) (omega arith) (not-Mem-cons 102 100 [] (omega arith) not-mem-nil),
  Nodup-cons.1
      (not-Mem-cons 101 100 [] (omega arith) not-mem-nil, Nodup-cons.1 (not-mem-nil, Nodup-nil)),
)

run-Nodup_example : Nodup (objects (run calls three))
run-Nodup_example = run-Nodup calls three three-Nodup
