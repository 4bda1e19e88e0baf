-- ===== src/Base/GoMap/Extensional.antt =====
-- Go's maps have distinct keys and no order: two such association lists are the same map when
-- their lookups agree.
use Prim.Native.Nat.{suc, ◌≤◌}
use mathlib.Core.Path.{◌≡◌, refl}
use mathlib.Core.Bool.{true, false}
use mathlib.Core.Logic.{inl, inr}
use mathlib.Core.List.{[], ◌∷◌}
use mathlib.Core.Option.{some}
use native.Mathlib.Omega.{arith}
use kafka_kit.Base.Tests.{Bool-cases}
use kafka_kit.Base.Keys.{Key, ◌==◌, beq_iff}
use kafka_kit.Base.Lists.{length}
use kafka_kit.Base.GoMap.{Map, lookup, delete, has, lookup-delete}

module _ {ℓ κ} {K : Type ℓ} {V : Type κ} ⦃e : Key K⦄ where
  -- No key stands twice.
  abbrev pub IsDistinct : Map K V → Type 0
  IsDistinct [] = Unit
  IsDistinct ((k, v) ∷ m) = (has k m ≡ false) × IsDistinct m

  -- Every entry of the first map is one of the second.
  abbrev pub IsSubmap : Map K V → Map K V → Type (ℓ ⊔ κ)
  IsSubmap m n = (j : K) (v : V) → lookup j m ≡ some v → lookup j n ≡ some v

  has-delete : (k j : K) (m : Map K V) → has j m ≡ false → has j (delete k m) ≡ false
  unfolding has
  has-delete k j m h = ground (arith, lookup-delete k j m)

  pub IsDistinct-delete : (k : K) (m : Map K V) → IsDistinct m → IsDistinct (delete k m)
  unfolding delete
  IsDistinct-delete k [] h = tt
  IsDistinct-delete k ((j, w) ∷ m) (h, hs) = elim (Bool-cases (j == k)) [
    | inl same ↦ rw same (IsDistinct-delete k m hs)
    | inr other ↦ rw other (has-delete k j m h, IsDistinct-delete k m hs)
  ]

  delete_absent : (k : K) (m : Map K V) → has k m ≡ false → length (delete k m) ≡ length m
  unfolding delete has lookup
  delete_absent k [] h = refl
  delete_absent k ((j, w) ∷ m) h = ground (arith, delete_absent k m)

  has-eq : (k j : K) (m : Map K V) → (j == k) ≡ true → has j m ≡ false → has k m ≡ false
  has-eq k j m same h = let path : j ≡ k = (beq_iff j k).0 same in cc

  length-delete :
      (k : K) (m : Map K V) → IsDistinct m → has k m ≡ true → suc (length (delete k m)) ≡ length m
  unfolding delete has lookup
  length-delete k [] d h = ground arith
  length-delete k ((j, w) ∷ m) (d, ds) h =
      ground (arith, length-delete k m ds, delete_absent k m, has-eq k j m)

  -- Without the first entry of the smaller map, it is still a submap.
  IsSubmap-rest :
      (k : K) (v : V) (m n : Map K V)
      → has k m ≡ false
      → IsSubmap ((k, v) ∷ m) n
      → IsSubmap m (delete k n)
  unfolding has lookup
  IsSubmap-rest k v m n absent sub j w e = elim (Bool-cases (k == j)) [
    | inl same ↦ let path : k ≡ j = (beq_iff k j).0 same in ground arith
    | inr other ↦
        let found : lookup j n ≡ some w = sub j w (rw other e) in
        ground (arith, lookup-delete k j n)
  ]

  head_found : (k : K) (v : V) (m n : Map K V) → IsSubmap ((k, v) ∷ m) n → lookup k n ≡ some v
  unfolding lookup
  head_found k v m n sub = sub k v (ground (arith, beq_iff k k))

  pub length-submap :
      (m n : Map K V) → IsDistinct m → IsDistinct n → IsSubmap m n → length m ≤ length n
  unfolding has
  length-submap [] n dm dn sub = omega arith
  length-submap ((k, v) ∷ m) n (d, dm) dn sub =
      let found = head_found k v m n sub in
      let rest =
        length-submap m (delete k n) dm (IsDistinct-delete k n dn) (IsSubmap-rest k v m n d sub) in
      let one = length-delete k n dn (rw (has, found) refl) in omega (arith, rest, one)

  -- A submap that is as long as the map is the map.
  pub lookup-submap :
      (m n : Map K V)
      → IsDistinct m
      → IsDistinct n
      → IsSubmap m n
      → length n ≤ length m
      → (j : K) → lookup j m ≡ lookup j n
  unfolding lookup has
  lookup-submap [] [] dm dn sub len j = refl
  lookup-submap [] (x ∷ n) dm dn sub len j = absurd (omega (arith, len))
  lookup-submap ((k, v) ∷ m) n (d, dm) dn sub len j =
      let found = head_found k v m n sub in
      let one = length-delete k n dn (rw (has, found) refl) in
      let rest =
        lookup-submap m (delete k n) dm (IsDistinct-delete k n dn) (IsSubmap-rest k v m n d sub)
          (omega (arith, one, len)) j in
      ground (arith, lookup-delete k j n, beq_iff k j)
