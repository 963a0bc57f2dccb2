-- ===== src/Prelude/Dicts.antt =====
-- Python's `dict` as an association list in insertion order: a write to a present key keeps its place.
use Prim.Native.Nat.{◌+◌}
use mathlib.Core.Path.{◌≡◌, refl}
use mathlib.Core.Bool.{true, false, not, ◌&&◌, ◌||◌}
use mathlib.Core.Option.{Option, none, some}
use mathlib.Core.List.{List, [], ◌∷◌}
use native.Mathlib.Omega.{arith}
use coxswain_graphs.Prelude.Tests.{if◌then◌else◌}
use coxswain_graphs.Prelude.Equality.{Eq, ◌==◌}
use coxswain_graphs.Prelude.Lists.{elem, count}

abbrev pub Dict {ℓ κ} : Type ℓ → Type κ → Type (ℓ ⊔ κ)
Dict K V = List (K × V)

module _ {ℓ κ} {K : Type ℓ} {V : Type κ} ⦃e : Eq K⦄ where
  abbrev pub lookup : K → Dict K V → Option V
  lookup k [] = none
  lookup k ((j, v) ∷ m) = if j == k then some v else lookup k m

  abbrev pub insert : K → V → Dict K V → Dict K V
  insert k v [] = (k, v) ∷ []
  insert k v ((j, w) ∷ m) = if j == k then (j, v) ∷ m else (j, w) ∷ insert k v m

  abbrev pub keys : Dict K V → List K
  keys [] = []
  keys ((k, v) ∷ m) = k ∷ keys m

  pub lookup-insert :
      (k j : K) (v : V) (m : Dict K V)
      → lookup j (insert k v m) ≡ (if k == j then some v else lookup j m)
  lookup-insert k j v [] = refl
  lookup-insert k j v ((i, w) ∷ m) =
      ground (arith, e.beq_iff k j, e.beq_iff i k, e.beq_iff i j, lookup-insert k j v m)

  pub elem-keys : (k : K) (m : Dict K V) → lookup k m ≡ none → elem k (keys m) ≡ false
  elem-keys k [] h = refl
  elem-keys k ((j, w) ∷ m) h = ground (arith, e.beq_iff j k, e.beq_iff k j, elem-keys k m)

  pub lookup-keys : (k : K) (m : Dict K V) (v : V) → lookup k m ≡ some v → elem k (keys m) ≡ true
  lookup-keys k [] v h = ground arith
  lookup-keys k ((j, w) ∷ m) v h = ground (arith, e.beq_iff j k, e.beq_iff k j, lookup-keys k m v)

  pub elem-keys-insert :
      (k j : K) (v : V) (m : Dict K V) → elem j (keys (insert k v m)) ≡ (j == k || elem j (keys m))
  elem-keys-insert k j v [] = ground arith
  elem-keys-insert k j v ((i, w) ∷ m) =
      ground (arith, elem-keys-insert k j v m, e.beq_iff i k, e.beq_iff j k, e.beq_iff j i)

  -- A write leaves the keys distinct.
  pub count-keys-insert :
      (k j : K) (v : V) (m : Dict K V)
      → count j (keys (insert k v m))
        ≡ (if j == k && not (elem j (keys m)) then 1 else 0) + count j (keys m)
  count-keys-insert k j v [] = ground (arith, e.beq_iff j k)
  count-keys-insert k j v ((i, w) ∷ m) =
      ground (arith, count-keys-insert k j v m, e.beq_iff i k, e.beq_iff j k, e.beq_iff j i)
