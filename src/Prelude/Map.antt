-- ===== src/Prelude/Map.antt =====
-- Go's maps as association lists; a set is a map into `Unit`.
use mathlib.Core.Path.{◌≡◌, refl, ap}
use mathlib.Core.Logic.{◌≢◌, inl, inr}
use mathlib.Core.Bool.{Bool, true, false}
use mathlib.Core.Option.{Option, none, some}
use mathlib.Core.List.{List, [], ◌∷◌}
use native.Mathlib.Omega.{arith}
use secure_ledger.Prelude.Lists.{All}
use secure_ledger.Prelude.Tests.{Bool-cases, Eq, ◌==◌, if◌then◌else◌}

abbrev pub Map : Type 0 → Type 0 → Type 0
Map K V = List (K × V)

module _ {K V : Type 0} ⦃e : Eq K⦄ where
  -- `v, ok := m[k]`
  unfoldable pub lookup : K → Map K V → Option V
  lookup k [] = none
  lookup k ((j, v) ∷ m) = if k == j then some v else lookup k m

  -- `m[k] = v`
  unfoldable pub insert : K → V → Map K V → Map K V
  insert k v [] = (k, v) ∷ []
  insert k v ((j, w) ∷ m) = if k == j then (k, v) ∷ m else (j, w) ∷ insert k v m

  -- `_, exists := m[k]`
  unfoldable pub contains : K → Map K V → Bool
  unfolding lookup
  contains k m = elim (lookup k m) [ none ↦ false | some _ ↦ true ]

  pub lookup-insert_self : (k : K) (v : V) (m : Map K V) → lookup k (insert k v m) ≡ some v
  unfolding lookup insert
  lookup-insert_self k v [] = ground (arith, e.beq_iff k k)
  lookup-insert_self k v ((j, w) ∷ m) = ground (arith, e.beq_iff k k, lookup-insert_self k v m)

  pub lookup-insert_ne :
      (j k : K) (v : V) (m : Map K V) → j ≢ k → lookup j (insert k v m) ≡ lookup j m
  unfolding lookup insert
  lookup-insert_ne j k v [] h = ground (arith, e.beq_iff j k)
  lookup-insert_ne j k v ((i, w) ∷ m) h =
      ground (arith, e.beq_iff j k, e.beq_iff j i, e.beq_iff k i, lookup-insert_ne j k v m h)

  pub lookup-insert :
      (j k : K) (v : V) (m : Map K V)
      → lookup j (insert k v m) ≡ (if j == k then some v else lookup j m)
  lookup-insert j k v m =
      ground (arith, e.beq_iff j k, lookup-insert_self k v m, lookup-insert_ne j k v m)

-- No key stands twice.
abbrev pub Distinct : {K V : Type 0} ⦃e : Eq K⦄ → Map K V → Type 0
Distinct [] = Unit {0}
Distinct ((k, v) ∷ m) = (contains k m ≡ false) × Distinct m

module _ {K V : Type 0} ⦃e : Eq K⦄ where
  contains-insert :
      (j k : K) (v : V) (m : Map K V)
      → j ≢ k
      → contains j m ≡ false
      → contains j (insert k v m) ≡ false
  unfolding contains
  contains-insert j k v m n h = ground (arith, lookup-insert_ne j k v m n)

  pub insert-Distinct : (k : K) (v : V) (m : Map K V) → Distinct m → Distinct (insert k v m)
  unfolding insert contains lookup
  insert-Distinct k v [] h = (refl, tt)
  insert-Distinct k v ((j, w) ∷ m) h = elim (Bool-cases (k == j)) [
    | inl same ↦ ground (arith, e.beq_iff k j)
    | inr other ↦ ground (arith, e.beq_iff k j, contains-insert j k v m, insert-Distinct k v m h.1)
  ]

  unknown-lookup : (j : K) (m : Map K V) → contains j m ≡ false → lookup j m ≡ none
  unfolding contains
  unknown-lookup j m h = ground arith

  lookup-cons :
      (j k : K) (v w : V) (m : Map K V)
      → contains j m ≡ false
      → lookup k m ≡ some v
      → lookup k ((j, w) ∷ m) ≡ some v
  unfolding lookup
  lookup-cons j k v w m h found = elim (Bool-cases (k == j)) [
    | inl same ↦ cc (unknown-lookup j m h, found, ap (λ i. lookup i m) ((e.beq_iff k j).0 same))
    | inr other ↦ rw other found
  ]

  -- What holds of every entry that a lookup finds holds of every entry of the list.
  pub All-lookup :
      (P : K → V → Type 0) (m : Map K V)
      → Distinct m
      → ((k : K) (v : V) → lookup k m ≡ some v → P k v)
      → All (λ (x : K × V). P x.0 x.1) m
  unfolding lookup contains
  All-lookup P [] h f = tt
  All-lookup P ((j, w) ∷ m) h f = (
    f j w (ground (arith, e.beq_iff j j)),
    All-lookup P m h.1 (λ k v found. f k v (lookup-cons j k v w m h.0 found)),
  )
