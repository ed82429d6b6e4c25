-- ===== src/Base/Dict.antt =====
-- Go's maps as association lists in order of insertion. Go visits a map in no fixed order, and the
-- theorems about such visits do not depend on it.
use mathlib.Core.Path.{◌≡◌, refl, subst}
use mathlib.Core.Logic.{inl, inr}
use mathlib.Core.Bool.{true, false, ◌||◌}
use mathlib.Core.List.{List, [], ◌∷◌}
use mathlib.Core.Option.{Option, none, some}
use native.Mathlib.Omega.{arith}
use push_component.Base.Tests.{Eq, if◌then◌else◌, Bool-cases}
use push_component.Base.Lists.{All, elem, IsDistinct}

abbrev pub Map {ℓ κ} : Type ℓ → Type κ → Type (ℓ ⊔ κ)
Map K V = List (K × V)

module _ {ℓ κ} {K : Type ℓ} {V : Type κ} ⦃e : Eq K⦄ where
  unfoldable pub lookup : K → Map K V → Option V
  lookup key [] = none
  lookup key ((other, x) ∷ m) = if e.beq other key then some x else lookup key m

  unfoldable pub insert : K → V → Map K V → Map K V
  insert key x [] = (key, x) ∷ []
  insert key x ((other, y) ∷ m) =
      if e.beq other key then (key, x) ∷ m else (other, y) ∷ insert key x m

  -- Go's `delete`
  unfoldable pub delete : K → Map K V → Map K V
  delete key [] = []
  delete key ((other, y) ∷ m) =
      let rest = delete key m in if e.beq other key then rest else (other, y) ∷ rest

  pub lookup-insert :
      (key other : K) (x : V) (m : Map K V)
      → lookup other (insert key x m) ≡ (if e.beq key other then some x else lookup other m)
  unfolding lookup insert
  lookup-insert key other x [] = refl
  lookup-insert key other x ((first, y) ∷ m) = ground (
    arith,
    e.beq_iff key other,
    e.beq_iff first key,
    e.beq_iff first other,
    lookup-insert key other x m,
  )

  pub lookup-delete :
      (key other : K) (m : Map K V)
      → lookup other (delete key m) ≡ (if e.beq key other then none else lookup other m)
  unfolding lookup delete
  lookup-delete key other [] = ground arith
  lookup-delete key other ((first, y) ∷ m) = ground (
    arith,
    e.beq_iff key other,
    e.beq_iff first key,
    e.beq_iff first other,
    lookup-delete key other m,
  )

module _ {ℓ κ} {K : Type ℓ} {V : Type κ} where
  abbrev pub keys : Map K V → List K
  keys [] = []
  keys ((k, v) ∷ m) = k ∷ keys m

  abbrev pub values : Map K V → List V
  values [] = []
  values ((k, v) ∷ m) = v ∷ values m

module _ {ℓ κ} {K : Type ℓ} {V : Type κ} ⦃e : Eq K⦄ where
  pub elem-keys-insert :
      (k j : K) (v : V) (m : Map K V)
      → elem j (keys (insert k v m)) ≡ (e.beq k j || elem j (keys m))
  unfolding insert
  elem-keys-insert k j v [] = refl
  elem-keys-insert k j v ((i, w) ∷ m) =
      ground (arith, e.beq_iff i k, e.beq_iff k j, e.beq_iff i j, elem-keys-insert k j v m)

  pub keys-insert-IsDistinct :
      (k : K) (v : V) (m : Map K V) → IsDistinct (keys m) → IsDistinct (keys (insert k v m))
  unfolding insert
  keys-insert-IsDistinct k v [] d = (refl, tt)
  keys-insert-IsDistinct k v ((i, w) ∷ m) d = elim (Bool-cases (e.beq i k)) [
    | inl same ↦
        let is : i ≡ k = (e.beq_iff i k).0 same in
        rw same (subst (λ j. IsDistinct (j ∷ keys m)) is d)
    | inr other ↦ rw other (
      ground (arith, elem-keys-insert k i v m, e.beq_iff k i, e.beq_iff i k, d.0),
      keys-insert-IsDistinct k v m d.1,
    )
  ]

  elem-keys-delete :
      (k j : K) (m : Map K V) → elem j (keys m) ≡ false → elem j (keys (delete k m)) ≡ false
  unfolding delete
  elem-keys-delete k j [] h = refl
  elem-keys-delete k j ((i, w) ∷ m) h = ground (arith, elem-keys-delete k j m)

  pub keys-delete-IsDistinct :
      (k : K) (m : Map K V) → IsDistinct (keys m) → IsDistinct (keys (delete k m))
  unfolding delete
  keys-delete-IsDistinct k [] d = tt
  keys-delete-IsDistinct k ((i, w) ∷ m) d = elim (Bool-cases (e.beq i k)) [
    | inl same ↦ rw same (keys-delete-IsDistinct k m d.1)
    | inr other ↦
        rw other (ground (arith, elem-keys-delete k i m, d.0), keys-delete-IsDistinct k m d.1)
  ]

  pub elem-keys_of_lookup :
      (k : K) (v : V) (m : Map K V) → lookup k m ≡ some v → elem k (keys m) ≡ true
  unfolding lookup
  elem-keys_of_lookup k v [] h = cc
  elem-keys_of_lookup k v ((i, w) ∷ m) h = ground (arith, elem-keys_of_lookup k v m)

  -- What holds of every pair that is found holds of every pair, where no key occurs twice.
  pub All-lookup {μ} :
      (P : K × V → Type μ) (m : Map K V)
      → IsDistinct (keys m)
      → ((k : K) (v : V) → lookup k m ≡ some v → P (k, v))
      → All P m
  unfolding lookup
  All-lookup P [] d h = tt
  All-lookup P ((k, v) ∷ m) d h = (
    h k v (rw ((e.beq_iff k k).1 refl)),
    All-lookup P m d.1
        (λ j u f. h j u (ground (arith, f, d.0, e.beq_iff k j, elem-keys_of_lookup j u m f))),
  )
