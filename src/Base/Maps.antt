-- ===== src/Base/Maps.antt =====
-- `std::map<int, V>` as a list of entries in the order of their keys. The keys are descriptors and
-- ids, which are not negative.
use Prim.Native.Nat.{ℕ, suc, ◌<◌, ◌≤◌}
use mathlib.Core.Path.{◌≡◌, refl}
use mathlib.Core.List.{List, [], ◌∷◌, map}
use mathlib.Core.Option.{Option, none, some}
use native.Mathlib.Omega.{arith}
use ec_server.Base.Tests.{ltb, ◌==◌, if◌then◌else◌}

abbrev pub Map {ℓ} : Type ℓ → Type ℓ
Map V = List (ℕ × V)

module _ {ℓ} {V : Type ℓ} where
  unfoldable pub find : ℕ → Map V → Option V
  find k [] = none
  find k ((j, v) ∷ m) = if j == k then some v else find k m

  -- `insert` leaves a key that is there alone.
  unfoldable pub insert : ℕ → V → Map V → Map V
  insert k v [] = (k, v) ∷ []
  insert k v ((j, w) ∷ m) =
      if k == j then (j, w) ∷ m else if ltb k j then (k, v) ∷ (j, w) ∷ m else (j, w) ∷ insert k v m

  unfoldable pub erase : ℕ → Map V → Map V
  erase k [] = []
  erase k ((j, w) ∷ m) = if j == k then m else (j, w) ∷ erase k m

  -- A change of the object that an entry points to.
  unfoldable pub update : ℕ → (V → V) → Map V → Map V
  update k f [] = []
  update k f ((j, w) ∷ m) = if j == k then (j, f w) ∷ m else (j, w) ∷ update k f m

  abbrev pub keys : Map V → List ℕ
  keys = map λ e. e.0

  abbrev pub values : Map V → List V
  values = map λ e. e.1

  -- The keys grow along the list and lie above the bound.
  abbrev pub Above : ℕ → Map V → Type 0
  Above b [] = Unit {0}
  Above b ((j, w) ∷ m) = (b ≤ j) × Above (suc j) m

  abbrev pub IsSorted : Map V → Type 0
  IsSorted m = Above 0 m

  pub Above-mono : {b c : ℕ} (m : Map V) → c ≤ b → Above b m → Above c m
  Above-mono [] h a = tt
  Above-mono ((j, w) ∷ m) h a = (omega arith, a.1)

  pub insert-Above : (b k : ℕ) (v : V) (m : Map V) → b ≤ k → Above b m → Above b (insert k v m)
  unfolding insert
  insert-Above b k v [] h a = (h, tt)
  insert-Above b k v ((j, w) ∷ m) h a = ground (arith, insert-Above (suc j) k v m)

  pub erase-Above : (b k : ℕ) (m : Map V) → Above b m → Above b (erase k m)
  unfolding erase
  erase-Above b k [] a = tt
  erase-Above b k ((j, w) ∷ m) a =
      ground (arith, erase-Above (suc j) k m a.1, Above-mono {b = suc j} {c = b} m)

  pub find-Above : (b k : ℕ) (m : Map V) → Above b m → k < b → find k m ≡ none
  unfolding find
  find-Above b k [] a h = refl
  find-Above b k ((j, w) ∷ m) a h = ground (arith, find-Above (suc j) k m a.1)

  -- What a lookup gives back is given by the arguments `new` and `old`.
  abbrev pub or_else : Option V → V → Option V
  or_else none v = some v
  or_else (some w) v = some w

  pub find-insert :
      (b k j : ℕ) (v : V) (m : Map V)
      → Above b m
      → find j (insert k v m) ≡ (if k == j then or_else (find k m) v else find j m)
  unfolding find insert
  find-insert b k j v [] a = ground arith
  find-insert b k j v ((i, w) ∷ m) a =
      ground (arith, find-insert (suc i) k j v m a.1, find-Above (suc i) k m a.1)

  pub find-erase :
      (b k j : ℕ) (m : Map V) → Above b m → find j (erase k m) ≡ (if k == j then none else find j m)
  unfolding find erase
  find-erase b k j [] a = ground arith
  find-erase b k j ((i, w) ∷ m) a =
      ground (arith, find-erase (suc i) k j m a.1, find-Above (suc i) k m a.1)

  pub keys-update : (k : ℕ) (f : V → V) (m : Map V) → keys (update k f m) ≡ keys m
  unfolding update
  keys-update k f [] = refl
  keys-update k f ((j, w) ∷ m) = ground (arith, keys-update k f m)

  pub update-Above : (b k : ℕ) (f : V → V) (m : Map V) → Above b m → Above b (update k f m)
  unfolding update
  update-Above b k f [] a = tt
  update-Above b k f ((j, w) ∷ m) a = ground (arith, update-Above (suc j) k f m a.1)

  abbrev pub map_some : (V → V) → Option V → Option V
  map_some f none = none
  map_some f (some v) = some (f v)

  pub find-update :
      (k j : ℕ) (f : V → V) (m : Map V)
      → find j (update k f m) ≡ (if k == j then map_some f (find j m) else find j m)
  unfolding find update
  find-update k j f [] = ground arith
  find-update k j f ((i, w) ∷ m) = ground (arith, find-update k j f m)
