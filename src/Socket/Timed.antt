-- ===== src/Socket/Timed.antt =====
-- Sock.c's send_n and recv_n: before each call of send or recv, `select` waits for a limited time.
use ec_server.Base.{
  ℕ, zero, suc, ◌+◌, ◌-◌, ◌≤◌, ◌≡◌, refl, sym, ap, ◌∙◌, List, [], ◌∷◌, ◌++◌, Option, none, some,
  ◌>>=◌, length, take, drop, take-append-drop, length-append, append_assoc, ◌⊎◌, inl, inr,
  length-take, length-drop, arith,
}

-- A round of the loop: `select` runs out of time or fails, or the call after it returns -1, or it takes
-- or gives a number of bytes, 0 included; the call takes and gives at most what it is asked for.
pub data Round (A : Type 0) : Type 0 where
  timed_out failed : Round A
  moved : A → Round A

-- What the function returns, and the rounds that are left.
pub record Result (A : Type 0) : Type 0 where
  pub bytes : List ℕ
  pub value : Option ℕ
  pub left : List (Round A)

-- The bytes that have come in, and the value, which is `none` for -1. `none` as the result: the loop
-- still runs.
unfoldable pub recv_n : ℕ → ℕ → List (Round (List ℕ)) → Option (Result (List ℕ))
recv_n zero done rounds = some (record { bytes = []; value = some done; left = rounds })
recv_n (suc n) done [] = none
recv_n (suc n) done (timed_out ∷ rounds) =
    some (record { bytes = []; value = some done; left = rounds })
recv_n (suc n) done (failed ∷ rounds) = some (record { bytes = []; value = none; left = rounds })
recv_n (suc n) done (moved [] ∷ rounds) =
    some (record { bytes = []; value = some done; left = rounds })
recv_n (suc n) done (moved (b ∷ bs) ∷ rounds) =
    recv_n (n - length (take n bs)) (done + suc (length (take n bs))) rounds >>= λ rest.
    some (record rest { bytes = (b ∷ take n bs) ++ rest.bytes })

-- The bytes that the socket has taken. The value is 0 also where the time has run out.
unfoldable pub send_n : List ℕ → List (Round ℕ) → Option (Result ℕ)
send_n [] rounds = some (record { bytes = []; value = some 0; left = rounds })
send_n (b ∷ bs) [] = none
send_n (b ∷ bs) (timed_out ∷ rounds) = some (record { bytes = []; value = some 0; left = rounds })
send_n (b ∷ bs) (failed ∷ rounds) = some (record { bytes = []; value = none; left = rounds })
send_n (b ∷ bs) (moved zero ∷ rounds) = some (record { bytes = []; value = some 0; left = rounds })
send_n (b ∷ bs) (moved (suc n) ∷ rounds) = send_n (drop n bs) rounds >>= λ rest.
    some (record rest { bytes = (b ∷ take n bs) ++ rest.bytes })

-- `recv_n` ends after at most as many rounds as it is asked for bytes, whatever these give; it stores at
-- most so many, and returns their number, added to what came before, or -1.
pub recv_n-returns :
    (rounds : List (Round (List ℕ))) (n done : ℕ)
    → n ≤ length rounds
    → (r : Result (List ℕ)) × (recv_n n done rounds ≡ some r)
      × (length r.bytes ≤ n)
      × ((r.value ≡ none) ⊎ (r.value ≡ some (done + length r.bytes)))
unfolding recv_n
recv_n-returns rounds zero done h = (_, refl, omega arith, inr (ground arith))
recv_n-returns [] (suc n) done h = absurd (omega arith)
recv_n-returns (timed_out ∷ rounds) (suc n) done h = (_, refl, omega arith, inr (ground arith))
recv_n-returns (failed ∷ rounds) (suc n) done h = (_, refl, omega arith, inl refl)
recv_n-returns (moved [] ∷ rounds) (suc n) done h = (_, refl, omega arith, inr (ground arith))
recv_n-returns (moved (b ∷ bs) ∷ rounds) (suc n) done h =
    let k = length (take n bs) in
    let (r, e, few, value) = recv_n-returns rounds (n - k) (done + suc k) (omega (arith, h)) in
    (
      record r { bytes = (b ∷ take n bs) ++ r.bytes },
      rw e refl,
      omega (arith, few, length-append (take n bs) r.bytes, length-take n bs),
      elim value [
        | inl minus ↦ inl minus
        | inr all ↦ inr (ground (arith, all, length-append (take n bs) r.bytes))
      ],
    )

-- `send_n` ends after at most as many rounds as it has bytes, whatever these do; what the socket has taken
-- is the beginning of the bytes, and the value is 0 or -1, however many these are.
pub send_n-returns :
    (rounds : List (Round ℕ)) (bytes : List ℕ)
    → length bytes ≤ length rounds
    → (r : Result ℕ) × (rest : List ℕ) × (send_n bytes rounds ≡ some r)
      × (bytes ≡ r.bytes ++ rest)
      × ((r.value ≡ none) ⊎ (r.value ≡ some 0))
unfolding send_n
send_n-returns rounds [] h = (_, [], refl, refl, inr refl)
send_n-returns [] (b ∷ bs) h = absurd (omega arith)
send_n-returns (timed_out ∷ rounds) (b ∷ bs) h = (_, b ∷ bs, refl, refl, inr refl)
send_n-returns (failed ∷ rounds) (b ∷ bs) h = (_, b ∷ bs, refl, refl, inl refl)
send_n-returns (moved zero ∷ rounds) (b ∷ bs) h = (_, b ∷ bs, refl, refl, inr refl)
send_n-returns (moved (suc n) ∷ rounds) (b ∷ bs) h =
    let (r, rest, e, split, value) =
      send_n-returns rounds (drop n bs) (omega (arith, h, length-drop n bs)) in
    (
      record r { bytes = (b ∷ take n bs) ++ r.bytes },
      rest,
      rw e refl,
      ap (λ xs. b ∷ xs)
          (sym (
            append_assoc (take n bs) r.bytes rest
            ∙ ap (λ xs. take n bs ++ xs) (sym split)
            ∙ take-append-drop n bs)),
      value,
    )
