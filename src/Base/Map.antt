-- ===== src/Base/Map.antt =====
-- A Go map as an association list. `insert` writes in place, so that no key stands twice in a map
-- built by `insert` and `delete`; the order of the entries stands for the order of one `range`.
use Prim.Native.Nat.{◌+◌, ◌≤◌}
use mathlib.Core.Path.{◌≡◌, refl, subst}
use mathlib.Core.Logic.{inl, inr}
use mathlib.Core.Bool.{Bool, true, false}
use mathlib.Core.List.{List, [], ◌∷◌}
use mathlib.Core.Option.{Option, none, some}
use native.Mathlib.Omega.{arith}
use memory_leak_reloader.Base.Tests.{if◌then◌else◌, Eq, ◌==◌, Bool-cases}
use memory_leak_reloader.Base.Lists.{length, All}

abbrev pub Map : Type 0 → Type 0 → Type 0
Map K V = List (K × V)

module _ {K V : Type 0} ⦃e : Eq K⦄ where
  -- v, ok := m[k]
  unfoldable pub lookup : K → Map K V → Option V
  lookup k [] = none
  lookup k ((j, v) ∷ m) = if j == k then some v else lookup k m

  -- _, ok := m[k]
  unfoldable pub has : K → Map K V → Bool
  has k [] = false
  has k ((j, v) ∷ m) = if j == k then true else has k m

  -- m[k] = v
  unfoldable pub insert : K → V → Map K V → Map K V
  insert k v [] = (k, v) ∷ []
  insert k v ((j, w) ∷ m) = if j == k then (k, v) ∷ m else (j, w) ∷ insert k v m

  -- delete(m, k)
  unfoldable pub delete : K → Map K V → Map K V
  delete k [] = []
  delete k ((j, w) ∷ m) = let rest = delete k m in if j == k then rest else (j, w) ∷ rest

  pub lookup-insert :
      (k i : K) (x : V) (m : Map K V)
      → lookup i (insert k x m) ≡ (if k == i then some x else lookup i m)
  unfolding lookup insert
  lookup-insert k i x [] = refl
  lookup-insert k i x ((j, w) ∷ m) =
      ground (arith, e.beq_iff j k, e.beq_iff j i, e.beq_iff k i, lookup-insert k i x m)

  pub lookup-delete :
      (k j : K) (m : Map K V) → lookup j (delete k m) ≡ (if k == j then none else lookup j m)
  unfolding lookup delete
  lookup-delete k j [] = ground arith
  lookup-delete k j ((i, w) ∷ m) =
      ground (arith, e.beq_iff k j, e.beq_iff i k, e.beq_iff i j, lookup-delete k j m)

  pub has-insert :
      (k j : K) (v : V) (m : Map K V) → has j (insert k v m) ≡ (if k == j then true else has j m)
  unfolding has insert
  has-insert k j v [] = refl
  has-insert k j v ((i, w) ∷ m) =
      ground (arith, e.beq_iff k j, e.beq_iff i k, e.beq_iff i j, has-insert k j v m)

  pub has-delete :
      (k j : K) (m : Map K V) → has j (delete k m) ≡ (if k == j then false else has j m)
  unfolding has delete
  has-delete k j [] = ground arith
  has-delete k j ((i, w) ∷ m) =
      ground (arith, e.beq_iff k j, e.beq_iff i k, e.beq_iff i j, has-delete k j m)

  pub has-lookup : (k : K) (m : Map K V) → has k m ≡ false → lookup k m ≡ none
  unfolding has lookup
  has-lookup k [] h = refl
  has-lookup k ((j, v) ∷ m) h = ground (arith, has-lookup k m)

  pub length-delete-le : (k : K) (m : Map K V) → length (delete k m) ≤ length m
  unfolding delete
  length-delete-le k [] = omega arith
  length-delete-le k ((j, w) ∷ m) = ground (arith, length-delete-le k m)

  -- A new key adds one entry, a known one none.
  pub length-insert :
      (k : K) (v : V) (m : Map K V)
      → length (insert k v m) ≡ (if has k m then length m else length m + 1)
  unfolding insert has
  length-insert k v [] = refl
  length-insert k v ((j, w) ∷ m) = ground (arith, length-insert k v m)

  -- No key stands twice.
  unfoldable pub distinct : Map K V → Bool
  distinct [] = true
  distinct ((k, v) ∷ m) = if has k m then false else distinct m

  abbrev pub IsMap : Map K V → Type 0
  IsMap m = distinct m ≡ true

  pub insert-IsMap : (k : K) (v : V) (m : Map K V) → IsMap m → IsMap (insert k v m)
  unfolding distinct insert has
  insert-IsMap k v [] h = refl
  insert-IsMap k v ((j, w) ∷ m) h =
      ground (arith, e.beq_iff j k, e.beq_iff k j, has-insert k j v m, insert-IsMap k v m)

  pub delete-IsMap : (k : K) (m : Map K V) → IsMap m → IsMap (delete k m)
  unfolding distinct delete
  delete-IsMap k [] h = refl
  delete-IsMap k ((j, w) ∷ m) h =
      ground (arith, e.beq_iff j k, e.beq_iff k j, has-delete k j m, delete-IsMap k m)

-- A predicate on the values that are stored.
module _ {ℓ} {K V : Type 0} ⦃e : Eq K⦄ (P : V → Type ℓ) where
  pub All-insert :
      (k : K) (v : V) (m : Map K V) → P v → All (λ x. P x.1) m → All (λ x. P x.1) (insert k v m)
  unfolding insert
  All-insert k v [] h a = (h, tt)
  All-insert k v ((j, w) ∷ m) h a = elim (Bool-cases (j == k)) [
    | inl same ↦ rw same (h, a.1)
    | inr other ↦ rw other (a.0, All-insert k v m h a.1)
  ]

  pub All-lookup : (k : K) (m : Map K V) {v : V} → All (λ x. P x.1) m → lookup k m ≡ some v → P v
  unfolding lookup
  All-lookup k [] a h = absurd (cc)
  All-lookup k ((j, w) ∷ m) {v} a h = elim (Bool-cases (j == k)) [
    | inl same ↦ subst P (cc (rw same at h)) a.0
    | inr other ↦ All-lookup k m a.1 (rw other at h)
  ]
