-- ===== src/Prelude/Map.antt =====
-- A map keyed by numbers as an association list: `boost::unordered_map` and its calls.
use Prim.Native.Nat.{ℕ}
use mathlib.Core.Path.{◌≡◌}
use mathlib.Core.Option.{Option, none, some}
use mathlib.Core.List.{List, [], ◌∷◌}
use native.Mathlib.Omega.{arith}
use ipc_transport_structured.Prelude.Tests.{ltb, ◌==◌, if◌then◌else◌, is_some}

abbrev pub Map {ℓ} : Type ℓ → Type ℓ
Map V = List (ℕ × V)

module _ {ℓ} {V : Type ℓ} where
  unfoldable pub find : ℕ → Map V → Option V
  find k [] = none
  find k ((j, v) ∷ m) = if j == k then some v else find k m

  unfoldable pub erase : ℕ → Map V → Map V
  erase k [] = []
  erase k ((j, v) ∷ m) = if j == k then erase k m else (j, v) ∷ erase k m

  -- `emplace`: a key that is present keeps its value.
  unfoldable pub emplace : ℕ → V → Map V → Map V
  emplace k v m = if is_some (find k m) then m else (k, v) ∷ m

  -- `m[k] = v`.
  unfoldable pub assign : ℕ → V → Map V → Map V
  assign k v m = (k, v) ∷ erase k m

  pub find-erase : (k j : ℕ) (m : Map V) → find j (erase k m) ≡ (if k == j then none else find j m)
  unfolding find erase
  find-erase k j [] = ground arith
  find-erase k j ((i, v) ∷ m) = ground (arith, find-erase k j m)

  pub find-assign :
      (k j : ℕ) (v : V) (m : Map V) → find j (assign k v m) ≡ (if k == j then some v else find j m)
  unfolding find assign
  find-assign k j v m = ground (arith, find-erase k j m)

  pub find-emplace :
      (k j : ℕ) (v : V) (m : Map V)
      → find j (emplace k v m)
        ≡ (if is_some (find k m) then find j m else if k == j then some v else find j m)
  unfolding find emplace
  find-emplace k j v m = ground arith

-- `std::map`: the keys increase along the list.
module _ {ℓ} {V : Type ℓ} where
  unfoldable pub insert_ordered : ℕ → V → Map V → Map V
  insert_ordered k v [] = (k, v) ∷ []
  insert_ordered k v ((j, w) ∷ m) =
      if ltb k j then (k, v) ∷ (j, w) ∷ m else (j, w) ∷ insert_ordered k v m
