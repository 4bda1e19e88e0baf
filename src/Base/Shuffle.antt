-- ===== src/Base/Shuffle.antt =====
-- rand.Seed and rand.Shuffle. The numbers drawn are a parameter: a function of the seed and of the
-- bounds asked for since it was set, the newest first, as Go's generator is deterministic.
use mathlib.Core.List.Perm
use kafka_kit.Base.{
  ℕ, zero, suc, ◌-◌, ◌+◌, ◌≡◌, List, [], ◌∷◌, none, some, Perm, ℤ, length, get_elem?, set,
  Option-cases, inl, inr, All, All-set, All-get_elem?,
}

abbrev pub Draw : Type 0
Draw = ℤ → List ℕ → ℕ

pub record Rand : Type 0 where
  pub seed : ℤ
  pub asked : List ℕ

-- rand.Seed(s)
abbrev pub seeded : ℤ → Rand
seeded s = record { seed = s; asked = [] }

module _ {ℓ} {A : Type ℓ} where
  -- xs[i], xs[j] = xs[j], xs[i]
  unfoldable pub swap : List A → ℕ → ℕ → List A
  swap xs i j = elim (get_elem? xs i) [
    | none ↦ xs
    | some a ↦ elim (get_elem? xs j) [ none ↦ xs | some b ↦ set (set xs i b) j a ]
  ]

  -- for ; i > 0; i-- { j := r.int31n(i + 1); swap(i, j) }
  unfoldable pub shuffle_loop : Draw → ℕ → List A → Rand → List A × Rand
  unfolding swap
  shuffle_loop draw zero xs r = (xs, r)
  shuffle_loop draw (suc i) xs r =
      let asked = (i + 2) ∷ r.asked in
      shuffle_loop draw i (swap xs (suc i) (draw r.seed asked)) (record r { asked = asked })

  unfoldable pub shuffle : Draw → List A → Rand → List A × Rand
  unfolding shuffle_loop
  shuffle draw xs r = shuffle_loop draw (length xs - 1) xs r

  swap_head-perm :
      (x b : A) (ys : List A) (j : ℕ) → get_elem? ys j ≡ some b → Perm (b ∷ set ys j x) (x ∷ ys)
  swap_head-perm x b [] j h = cc
  swap_head-perm x b (y ∷ ys) zero h = Perm.trans (Perm.cons' (cc) Perm.rfl) (Perm.swap x y ys)
  swap_head-perm x b (y ∷ ys) (suc j) h =
      Perm.trans (Perm.swap y b (set ys j x))
        (Perm.trans (Perm.cons y (swap_head-perm x b ys j h)) (Perm.swap x y ys))

  swap_at-perm :
      (xs : List A) (i j : ℕ) (a b : A)
      → get_elem? xs i ≡ some a
      → get_elem? xs j ≡ some b
      → Perm (set (set xs i b) j a) xs
  swap_at-perm [] i j a b p q = Perm.rfl
  swap_at-perm (x ∷ xs) zero zero a b p q = Perm.cons' (cc) Perm.rfl
  swap_at-perm (x ∷ xs) zero (suc j) a b p q =
      Perm.trans (swap_head-perm a b xs j q) (Perm.cons' (cc) Perm.rfl)
  swap_at-perm (x ∷ xs) (suc i) zero a b p q =
      Perm.trans (swap_head-perm b a xs i p) (Perm.cons' (cc) Perm.rfl)
  swap_at-perm (x ∷ xs) (suc i) (suc j) a b p q = Perm.cons x (swap_at-perm xs i j a b p q)

  swap-perm : (xs : List A) (i j : ℕ) → Perm (swap xs i j) xs
  unfolding swap
  swap-perm xs i j = elim (Option-cases (get_elem? xs i)) [
    | inl e ↦ rw (e, swap) Perm.rfl
    | inr (a, e) ↦ elim (Option-cases (get_elem? xs j)) [
      | inl f ↦ rw (e, f, swap) Perm.rfl
      | inr (b, f) ↦ rw (e, f, swap) (swap_at-perm xs i j a b e f)
    ]
  ]

  shuffle_loop-perm :
      (draw : Draw) (i : ℕ) (xs : List A) (r : Rand) → Perm (shuffle_loop draw i xs r).0 xs
  unfolding shuffle_loop
  shuffle_loop-perm draw zero xs r = Perm.rfl
  shuffle_loop-perm draw (suc i) xs r =
      let asked = (i + 2) ∷ r.asked in
      let j = draw r.seed asked in
      Perm.trans (shuffle_loop-perm draw i (swap xs (suc i) j) (record r { asked = asked }))
        (swap-perm xs (suc i) j)

  -- Whatever is drawn, a shuffle only moves elements.
  pub shuffle-perm : (draw : Draw) (xs : List A) (r : Rand) → Perm (shuffle draw xs r).0 xs
  unfolding shuffle
  shuffle-perm draw xs r = shuffle_loop-perm draw (length xs - 1) xs r

  All-swap {κ} : (P : A → Type κ) (xs : List A) (i j : ℕ) → All P xs → All P (swap xs i j)
  unfolding swap
  All-swap P xs i j h = elim (Option-cases (get_elem? xs i)) [
    | inl e ↦ rw (e, swap) h
    | inr (a, e) ↦ elim (Option-cases (get_elem? xs j)) [
      | inl f ↦ rw (e, f, swap) h
      | inr (b, f) ↦
          rw (e, f, swap)
            (All-set P (set xs i b) j a (All-set P xs i b h (All-get_elem? P xs j b h f))
              (All-get_elem? P xs i a h e))
    ]
  ]

  All-shuffle_loop {κ} :
      (P : A → Type κ) (draw : Draw) (i : ℕ) (xs : List A) (r : Rand)
      → All P xs
      → All P (shuffle_loop draw i xs r).0
  unfolding shuffle_loop
  All-shuffle_loop P draw zero xs r h = h
  All-shuffle_loop P draw (suc i) xs r h =
      let asked = (i + 2) ∷ r.asked in
      let j = draw r.seed asked in
      All-shuffle_loop P draw i (swap xs (suc i) j) (record r { asked = asked })
        (All-swap P xs (suc i) j h)

  pub All-shuffle {κ} :
      (P : A → Type κ) (draw : Draw) (xs : List A) (r : Rand)
      → All P xs
      → All P (shuffle draw xs r).0
  unfolding shuffle
  All-shuffle P draw xs r h = All-shuffle_loop P draw (length xs - 1) xs r h
