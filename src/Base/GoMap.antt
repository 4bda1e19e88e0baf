-- ===== src/Base/GoMap.antt =====
-- Go's map as an association list. A range over a map visits its entries in the list's order, and
-- since every order of the entries is such a list, a theorem over all lists covers every order.
pub mod Extensional
use mathlib.Core.Path.{◌≡◌, refl, subst₂, ◌∙◌}
use mathlib.Core.Bool.{Bool, true, false}
use mathlib.Core.List.{List, [], ◌∷◌, map}
use mathlib.Core.Option.{Option, none, some}
use native.Mathlib.Omega.{arith}
use kafka_kit.Base.Tests.{if◌then◌else◌, Bool-cases}
use mathlib.Core.Logic.{inl, inr}
use kafka_kit.Base.Lists.{All, length}
use Prim.Native.Nat.{suc}
use kafka_kit.Base.Keys.{Key, ◌==◌, beq_iff}

abbrev pub Map {ℓ κ} : Type ℓ → Type κ → Type (ℓ ⊔ κ)
Map K V = List (K × V)

module _ {ℓ κ} {K : Type ℓ} {V : Type κ} where
  -- for k := range m
  abbrev pub keys : Map K V → List K
  keys m = map (λ e. e.0) m

  -- for _, v := range m
  abbrev pub values : Map K V → List V
  values m = map (λ e. e.1) m

-- Whether a slice holds a key.
unfoldable pub contains {ℓ} : {K : Type ℓ} ⦃e : Key K⦄ → K → List K → Bool
contains k [] = false
contains k (x ∷ xs) = if x == k then true else contains k xs

module _ {ℓ κ} {K : Type ℓ} {V : Type κ} ⦃e : Key K⦄ where
  -- v, exists := m[k]
  unfoldable pub lookup : K → Map K V → Option V
  lookup k [] = none
  lookup k ((j, v) ∷ m) = if j == k then some v else lookup k m

  -- delete(m, k)
  unfoldable pub delete : K → Map K V → Map K V
  delete k [] = []
  delete k ((j, w) ∷ m) = let rest = delete k m in if j == k then rest else (j, w) ∷ rest

  -- m[k] = v
  unfoldable pub insert : K → V → Map K V → Map K V
  insert k v [] = (k, v) ∷ []
  insert k v (entry ∷ m) = if entry.0 == k then (k, v) ∷ m else entry ∷ insert k v m

  -- m[k].field = ..., through the pointer that m holds at k; a missing key is the caller's check
  unfoldable pub modify : K → (V → V) → Map K V → Map K V
  modify k f [] = []
  modify k f ((j, w) ∷ m) = if j == k then (j, f w) ∷ m else (j, w) ∷ modify k f m

  unfoldable pub has : K → Map K V → Bool
  unfolding lookup
  has k m = elim (lookup k m) [ some v ↦ true | none ↦ false ]

  pub lookup-insert :
      (k j : K) (v : V) (m : Map K V)
      → lookup j (insert k v m) ≡ (if k == j then some v else lookup j m)
  unfolding insert lookup
  lookup-insert k j v (entry ∷ m) =
      ground (arith, lookup-insert k j v m, beq_iff entry.0 j, beq_iff entry.0 k, beq_iff k j)
  lookup-insert k j v [] = refl

  pub lookup-modify :
      (k j : K) (f : V → V) (m : Map K V)
      → lookup j (modify k f m)
        ≡ (if k == j then (elim (lookup j m) [ some v ↦ some (f v) | none ↦ none ]) else lookup j m)
  unfolding lookup modify
  lookup-modify k j f [] = ground arith
  lookup-modify k j f ((i, w) ∷ m) =
      ground (arith, beq_iff k j, beq_iff i k, beq_iff i j, lookup-modify k j f m)

  pub lookup-delete :
      (k j : K) (m : Map K V) → lookup j (delete k m) ≡ (if k == j then none else lookup j m)
  unfolding lookup delete
  lookup-delete k j [] = ground arith
  lookup-delete k j ((i, w) ∷ m) =
      ground (arith, beq_iff k j, beq_iff i k, beq_iff i j, lookup-delete k j m)

  pub has-insert :
      (k j : K) (v : V) (m : Map K V) → has j (insert k v m) ≡ (if k == j then true else has j m)
  unfolding has
  has-insert k j v m = ground (arith, lookup-insert k j v m)

  -- What a lookup finds satisfies what holds of every entry.
  pub All-lookup {μ} :
      (P : K × V → Type μ) (k : K) (v : V) (m : Map K V) → All P m → lookup k m ≡ some v → P (k, v)
  unfolding lookup
  All-lookup P k v [] h e = cc
  All-lookup P k v ((j, w) ∷ m) (h, hs) e = elim (Bool-cases (j == k)) [
    | inl same ↦
        let e' : some w ≡ some v = rw same at e in
        subst₂ (λ a b. P (a, b)) ((beq_iff j k).0 same) (cc) h
    | inr other ↦ All-lookup P k v m hs (rw other at e)
  ]

  pub contains-keys : (k : K) (m : Map K V) → contains k (keys m) ≡ has k m
  unfolding contains has lookup
  contains-keys k [] = refl
  contains-keys k ((j, v) ∷ m) = ground (arith, contains-keys k m)

pub has-nil {ℓ κ} : {K : Type ℓ} (V : Type κ) ⦃e : Key K⦄ (k : K) → has {V = V} k [] ≡ false
unfolding has lookup
has-nil V k = refl

pub length-insert {ℓ κ} :
    {K : Type ℓ} {V : Type κ} ⦃e : Key K⦄ (k : K) (v : V) (m : Map K V)
    → length (insert k v m) ≡ (if has k m then length m else suc (length m))
unfolding insert has lookup
length-insert k v [] = refl
length-insert k v ((j, w) ∷ m) = ground (arith, length-insert k v m)

pub length-insert_absent {ℓ κ} :
    {K : Type ℓ} {V : Type κ} ⦃e : Key K⦄ (k : K) (v : V) (m : Map K V)
    → has k m ≡ false
    → length (insert k v m) ≡ suc (length m)
length-insert_absent k v m h = length-insert k v m ∙ rw h
