-- ===== src/Base/Sort.antt =====
-- sort.Sort. The order of the result is the code's `Less`; where `Less` leaves ties the model
-- follows the insertion sort that Go runs on slices of up to 12 elements.
use mathlib.Core.Path.{◌≡◌}
use mathlib.Core.Bool.{Bool, true, false}
use mathlib.Core.List.Perm
use mathlib.Core.List.{List, [], ◌∷◌, ◌++◌, Perm, perm_middle, append-nil}
use kafka_kit.Base.Tests.{if◌then◌else◌, Bool-cases}
use kafka_kit.Base.Lists.{All, All_map, All_zip, All_of}
use mathlib.Core.Logic.{inl, inr}

module _ {ℓ} {A : Type ℓ} (less : A → A → Bool) where
  -- `x` moves left past every element that it is less than; the sorted prefix stands reversed.
  unfoldable pub sink : A → List A → List A
  sink x [] = x ∷ []
  sink x (p ∷ ps) = if less x p then p ∷ sink x ps else x ∷ p ∷ ps

  unfoldable pub sort_onto : List A → List A → List A
  sort_onto done [] = done
  sort_onto done (x ∷ xs) = sort_onto (sink x done) xs

unfoldable pub rev_onto {ℓ} : {A : Type ℓ} → List A → List A → List A
rev_onto [] ys = ys
rev_onto (x ∷ xs) ys = rev_onto xs (x ∷ ys)

unfoldable pub sort {ℓ} : {A : Type ℓ} → (A → A → Bool) → List A → List A
unfolding rev_onto sort_onto sink
sort less xs = rev_onto (sort_onto less [] xs) []

-- `Less` is a strict weak order, which is what sort.Interface asks of it.
pub record IsStrictWeak {ℓ} {A : Type ℓ} (less : A → A → Bool) : Type ℓ where
  pub asym : (a b : A) → less a b ≡ true → less b a ≡ false
  pub not_trans : (a b c : A) → less a b ≡ false → less b c ≡ false → less a c ≡ false

module _ {ℓ} {A : Type ℓ} (less : A → A → Bool) where
  -- No element is less than one that stands before it.
  abbrev pub IsSorted : List A → Type 0
  IsSorted [] = Unit
  IsSorted (x ∷ xs) = All (λ y. less y x ≡ false) xs × IsSorted xs

  abbrev IsDescending : List A → Type 0
  IsDescending [] = Unit
  IsDescending (x ∷ xs) = All (λ y. less x y ≡ false) xs × IsDescending xs

module _ {ℓ κ} {A : Type ℓ} (P : A → Type κ) where
  pub All-sink :
      (less : A → A → Bool) (x : A) (xs : List A) → P x → All P xs → All P (sink less x xs)
  unfolding sink
  All-sink less x [] h hs = (h, tt)
  All-sink less x (p ∷ ps) h (hp, hps) = elim (Bool-cases (less x p)) [
    | inl e ↦ rw e (hp, All-sink less x ps h hps)
    | inr e ↦ rw e (h, (hp, hps))
  ]

  pub All-rev_onto : (xs ys : List A) → All P xs → All P ys → All P (rev_onto xs ys)
  unfolding rev_onto
  All-rev_onto [] ys hx hy = hy
  All-rev_onto (x ∷ xs) ys (h, hx) hy = All-rev_onto xs (x ∷ ys) hx (h, hy)

  All-sort_onto :
      (less : A → A → Bool) (done xs : List A)
      → All P done
      → All P xs
      → All P (sort_onto less done xs)
  unfolding sort_onto
  All-sort_onto less done [] hd hx = hd
  All-sort_onto less done (x ∷ xs) hd (h, hx) =
      All-sort_onto less (sink less x done) xs (All-sink less x done h hd) hx

  -- What holds of every element holds after sorting.
  pub All-sort : (less : A → A → Bool) (xs : List A) → All P xs → All P (sort less xs)
  unfolding sort
  All-sort less xs h = All-rev_onto (sort_onto less [] xs) [] (All-sort_onto less [] xs tt h) tt

module _ {ℓ} {A : Type ℓ} (less : A → A → Bool) where
  sink-perm : (x : A) (xs : List A) → Perm (sink less x xs) (x ∷ xs)
  unfolding sink
  sink-perm x [] = Perm.rfl
  sink-perm x (p ∷ ps) = elim (Bool-cases (less x p)) [
    | inl e ↦ rw e (Perm.trans (Perm.cons p (sink-perm x ps)) (Perm.swap x p ps))
    | inr e ↦ rw e Perm.rfl
  ]

  sort_onto-perm : (done xs : List A) → Perm (sort_onto less done xs) (done ++ xs)
  unfolding sort_onto
  sort_onto-perm done [] = rw append-nil Perm.rfl
  sort_onto-perm done (x ∷ xs) =
      Perm.trans (sort_onto-perm (sink less x done) xs)
        (Perm.trans (Perm.append_right xs (sink-perm x done)) (Perm.symm (perm_middle done xs)))

rev_onto-perm {ℓ} : {A : Type ℓ} (xs ys : List A) → Perm (rev_onto xs ys) (xs ++ ys)
unfolding rev_onto
rev_onto-perm [] ys = Perm.rfl
rev_onto-perm (x ∷ xs) ys = Perm.trans (rev_onto-perm xs (x ∷ ys)) (perm_middle xs ys)

-- Sorting only moves elements.
pub sort-perm {ℓ} : {A : Type ℓ} (less : A → A → Bool) (xs : List A) → Perm (sort less xs) xs
unfolding sort
sort-perm less xs =
    let p = rev_onto-perm (sort_onto less [] xs) [] in
    Perm.trans (rw append-nil at p) (sort_onto-perm less [] xs)

module _ {ℓ} {A : Type ℓ} (less : A → A → Bool) (weak : IsStrictWeak less) where
  sink-IsDescending :
      (x : A) (xs : List A) → IsDescending less xs → IsDescending less (sink less x xs)
  unfolding sink
  sink-IsDescending x [] h = (tt, tt)
  sink-IsDescending x (p ∷ ps) (hp, hps) = elim (Bool-cases (less x p)) [
    | inl e ↦ rw e (
      All-sink (λ y. less p y ≡ false) less x ps (weak.asym x p e) hp,
      sink-IsDescending x ps hps,
    )
    | inr e ↦ rw e ((e, All_map (λ y h. weak.not_trans x p y e h) ps hp), (hp, hps))
  ]

  sort_onto-IsDescending :
      (done xs : List A) → IsDescending less done → IsDescending less (sort_onto less done xs)
  unfolding sort_onto
  sort_onto-IsDescending done [] h = h
  sort_onto-IsDescending done (x ∷ xs) h =
      sort_onto-IsDescending (sink less x done) xs (sink-IsDescending x done h)

  rev_onto-IsSorted :
      (xs ys : List A)
      → IsDescending less xs
      → IsSorted less ys
      → All (λ x. All (λ y. less y x ≡ false) ys) xs
      → IsSorted less (rev_onto xs ys)
  unfolding rev_onto
  rev_onto-IsSorted [] ys hx hy h = hy
  rev_onto-IsSorted (x ∷ xs) ys (hx, hxs) hy (h, hs) =
      rev_onto-IsSorted xs (x ∷ ys) hxs (h, hy) (All_zip (λ z p q. (p, q)) xs hx hs)

  -- The result is in order, where `Less` is a strict weak order.
  pub sort-IsSorted : (xs : List A) → IsSorted less (sort less xs)
  unfolding sort
  sort-IsSorted xs =
      let d = sort_onto-IsDescending [] xs tt in
      rev_onto-IsSorted (sort_onto less [] xs) [] d tt (All_of (λ x. tt) (sort_onto less [] xs))
