-- ===== src/Base/Dict.antt =====
-- A store's key-value map as an association list in insertion order: the part of a Durable
-- Object's storage that stands under one key prefix.
use mathlib.Core.Path.{◌≡◌, refl}
use mathlib.Core.Logic.{inl, inr}
use mathlib.Core.Bool.{false}
use mathlib.Core.Option.{Option, none, some}
use mathlib.Core.List.{List, [], ◌∷◌}
use native.Mathlib.Omega.{arith}
use rozo_mpprouter.Base.Tests.{if◌then◌else◌, Bool-cases}
use rozo_mpprouter.Base.Int.{ℤ, pos, ◌+ℤ◌, int_laws}
use rozo_mpprouter.Base.Keys.{Eq, ◌=?◌, beq_refl}

abbrev pub Dict {ℓ κ} : Type ℓ → Type κ → Type (ℓ ⊔ κ)
Dict K V = List (K × V)

-- The sum of an integer measure over the values.
abbrev pub sum_by {ℓ κ} : {K : Type ℓ} {V : Type κ} → (V → ℤ) → Dict K V → ℤ
sum_by f [] = pos 0
sum_by f ((k, v) ∷ m) = f v +ℤ sum_by f m

abbrev pub measure {κ} : {V : Type κ} → (V → ℤ) → Option V → ℤ
measure f none = pos 0
measure f (some v) = f v

module _ {ℓ κ} {K : Type ℓ} {V : Type κ} ⦃e : Eq K⦄ where
  -- `storage.get(k)`
  unfoldable pub lookup : K → Dict K V → Option V
  lookup k [] = none
  lookup k ((j, v) ∷ m) = if j =? k then some v else lookup k m

  -- `storage.put(k, v)`
  unfoldable pub insert : K → V → Dict K V → Dict K V
  insert k v [] = (k, v) ∷ []
  insert k v ((j, w) ∷ m) = if j =? k then (k, v) ∷ m else (j, w) ∷ insert k v m

  -- `storage.delete(k)`
  unfoldable pub remove : K → Dict K V → Dict K V
  remove k [] = []
  remove k ((j, w) ∷ m) = let rest = remove k m in if j =? k then rest else (j, w) ∷ rest

  pub lookup-insert :
      (k j : K) (v : V) (m : Dict K V)
      → lookup j (insert k v m) ≡ (if k =? j then some v else lookup j m)
  unfolding lookup insert
  lookup-insert k j v [] = refl
  lookup-insert k j v ((i, w) ∷ m) =
      ground (arith, e.beq_iff k j, e.beq_iff i k, e.beq_iff i j, lookup-insert k j v m)

  pub lookup-remove :
      (k j : K) (m : Dict K V) → lookup j (remove k m) ≡ (if k =? j then none else lookup j m)
  unfolding lookup remove
  lookup-remove k j [] = ground arith
  lookup-remove k j ((i, w) ∷ m) =
      ground (arith, e.beq_iff k j, e.beq_iff i k, e.beq_iff i j, lookup-remove k j m)

  pub lookup-insert_self : (k : K) (v : V) (m : Dict K V) → lookup k (insert k v m) ≡ some v
  lookup-insert_self k v m = simp (lookup-insert, beq_refl)

  pub lookup-insert_ne :
      (k j : K) (v : V) (m : Dict K V) → (k =? j) ≡ false → lookup j (insert k v m) ≡ lookup j m
  lookup-insert_ne k j v m h = rw (lookup-insert, h) refl

  -- No key stands twice.
  abbrev pub IsMap : Dict K V → Type κ
  IsMap [] = Unit
  IsMap ((k, v) ∷ m) = (lookup k m ≡ none) × IsMap m

  pub insert-IsMap : (k : K) (v : V) (m : Dict K V) → IsMap m → IsMap (insert k v m)
  unfolding insert lookup
  insert-IsMap k v [] h = (refl, tt)
  insert-IsMap k v ((j, w) ∷ m) h = elim (Bool-cases (j =? k)) [
    | inl same ↦ rw same (ground (arith, e.beq_iff j k, h.0), h.1)
    | inr other ↦ rw other (
      ground (arith, lookup-insert k j v m, e.beq_iff j k, e.beq_iff k j, h.0),
      insert-IsMap k v m h.1,
    )
  ]

  -- A write replaces the old value's share of the sum.
  pub sum_by-insert :
      (f : V → ℤ) (k : K) (v : V) (m : Dict K V)
      → sum_by f (insert k v m) +ℤ measure f (lookup k m) ≡ sum_by f m +ℤ f v
  unfolding lookup insert
  sum_by-insert f k v [] = omega int_laws
  sum_by-insert f k v ((j, w) ∷ m) = elim (Bool-cases (j =? k)) [
    | inl same ↦ rw same (omega int_laws)
    | inr other ↦ rw other (grind (int_laws, sum_by-insert f k v m))
  ]

  abbrev pub Forall {η} : (K → V → Type η) → Dict K V → Type (ℓ ⊔ κ ⊔ η)
  Forall P m = (k : K) (v : V) → lookup k m ≡ some v → P k v

  pub Forall-insert {η} :
      (P : K → V → Type η) (k : K) (v : V) (m : Dict K V)
      → Forall P m
      → P k v
      → Forall P (insert k v m)
  Forall-insert P k v m all p j w h = elim (Bool-cases (k =? j)) [
    | inl same ↦
        let at : lookup j (insert k v m) ≡ some v = rw (lookup-insert, same) refl in
        let kj : k ≡ j = (e.beq_iff k j).0 same in let vw : v ≡ w = cc (at, h) in rw (← kj, ← vw) p
    | inr other ↦ all j w (rw (lookup-insert k j v m, other) at h)
  ]
