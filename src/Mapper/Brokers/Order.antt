-- ===== src/Mapper/Brokers/Order.antt =====
-- The orders of a BrokerList: what they keep, and how SortPseudoShuffle orders it.
use mathlib.Core.List.Perm
use mathlib.Core.List.{append_assoc, append-nil}
use mathlib.Core.Path.{subst}
use native.Mathlib.Bridge.{le_prop}
use kafka_kit.Base.{
  ℕ, ◌≤◌, ℤ, not, ◌≡◌, [], ◌∷◌, ◌++◌, Perm, arith, refl, if_ind, eqb, leb, length, All, All_map,
  All-append, All-perm, ltb_ℤ_asym, ltb_ℤ_not_trans,
}
use kafka_kit.Base.Sort.{sort, sort-perm, sort-IsSorted, IsSorted, IsStrictWeak, All-sort}
use kafka_kit.Base.Shuffle.{Draw, Rand, seeded, shuffle, shuffle-perm, All-shuffle}
use kafka_kit.Mapper.Types.{Broker}
use kafka_kit.Mapper.Brokers.{
  BrokerList, less_by_count, sort_by_count, shuffle_runs, shuffle_sorted, sort_pseudo_shuffle,
}

module _ {F : Type 0} where
  shuffle_runs-perm :
      (draw : Draw) (curr : ℕ) (run rest : BrokerList F) (r : Rand)
      → Perm (shuffle_runs draw curr run rest r) (run ++ rest)
  unfolding shuffle_runs
  shuffle_runs-perm draw curr run [] r = rw append-nil Perm.rfl
  shuffle_runs-perm draw curr run (b ∷ []) r =
      let (run', r') = shuffle draw run r in
      if_ind (λ l. Perm l (run ++ b ∷ [])) (not (eqb b.used curr)) (run' ++ b ∷ [])
        (shuffle draw (run ++ b ∷ []) r).0
        (λ _. Perm.append_right (b ∷ []) (shuffle-perm draw run r))
        (λ _. shuffle-perm draw (run ++ b ∷ []) r)
  shuffle_runs-perm draw curr run (b ∷ c ∷ rest) r =
      let (run', r') = shuffle draw run r in
      if_ind (λ l. Perm l (run ++ b ∷ c ∷ rest)) (not (eqb b.used curr))
        (run' ++ shuffle_runs draw b.used (b ∷ []) (c ∷ rest) r')
        (shuffle_runs draw curr (run ++ b ∷ []) (c ∷ rest) r)
        (λ _.
          Perm.append (shuffle-perm draw run r)
            (shuffle_runs-perm draw b.used (b ∷ []) (c ∷ rest) r'))
        (λ _.
          subst (Perm (shuffle_runs draw curr (run ++ b ∷ []) (c ∷ rest) r))
            (append_assoc run (b ∷ []) (c ∷ rest))
            (shuffle_runs-perm draw curr (run ++ b ∷ []) (c ∷ rest) r))

  -- The brokers stand by their use counts, the least used first.
  abbrev pub IsByUse : BrokerList F → Type 0
  IsByUse [] = Unit
  IsByUse (b ∷ bl) = All (λ c. b.used ≤ c.used) bl × IsByUse bl

  IsByUse-append :
      (xs ys : BrokerList F)
      → IsByUse xs
      → IsByUse ys
      → All (λ x. All (λ y. x.used ≤ y.used) ys) xs
      → IsByUse (xs ++ ys)
  IsByUse-append [] ys hx hy h = hy
  IsByUse-append (x ∷ xs) ys (hx, hxs) hy (h, hs) =
      (All-append (λ y. x.used ≤ y.used) xs ys hx h, IsByUse-append xs ys hxs hy hs)

  IsByUse-of_same : (n : ℕ) (xs : BrokerList F) → All (λ x. x.used ≡ n) xs → IsByUse xs
  IsByUse-of_same n [] h = tt
  IsByUse-of_same n (x ∷ xs) (h, hs) = (All_map (λ y e. omega arith) xs hs, IsByUse-of_same n xs hs)

  shuffle_runs-IsByUse :
      (draw : Draw) (curr : ℕ) (run rest : BrokerList F) (r : Rand)
      → All (λ b. b.used ≡ curr) run
      → All (λ b. curr ≤ b.used) rest
      → IsByUse rest
      → IsByUse (shuffle_runs draw curr run rest r)
  unfolding shuffle_runs
  shuffle_runs-IsByUse draw curr run [] r hr ha hs = IsByUse-of_same curr run hr
  shuffle_runs-IsByUse draw curr run (b ∷ []) r hr (hb, ha) (hs, hss) =
      let (run', r') = shuffle draw run r in
      let run'_at = All-shuffle (λ x. x.used ≡ curr) draw run r hr in
      if_ind IsByUse (not (eqb b.used curr)) (run' ++ b ∷ []) (shuffle draw (run ++ b ∷ []) r).0
        (λ _.
          IsByUse-append run' (b ∷ []) (IsByUse-of_same curr run' run'_at) (tt, tt)
            (All_map (λ x e. (omega arith, tt)) run' run'_at))
        (λ same. IsByUse-of_same curr (shuffle draw (run ++ b ∷ []) r).0 (
          All-shuffle (λ x. x.used ≡ curr) draw (run ++ b ∷ []) r
            (All-append (λ x. x.used ≡ curr) run (b ∷ []) hr (ground arith, tt))))
  shuffle_runs-IsByUse draw curr run (b ∷ c ∷ rest) r hr (hb, ha) (hs, hss) =
      let (run', r') = shuffle draw run r in
      let out = shuffle_runs draw b.used (b ∷ []) (c ∷ rest) r' in
      let run'_at = All-shuffle (λ x. x.used ≡ curr) draw run r hr in
      let above : All (λ y. curr ≤ y.used) out =
        All-perm (λ y. curr ≤ y.used) (λ y. le_prop)
          (Perm.symm (shuffle_runs-perm draw b.used (b ∷ []) (c ∷ rest) r')) (hb, ha) in
      if_ind IsByUse (not (eqb b.used curr)) (run' ++ out)
        (shuffle_runs draw curr (run ++ b ∷ []) (c ∷ rest) r)
        (λ _.
          IsByUse-append run' out (IsByUse-of_same curr run' run'_at)
            (shuffle_runs-IsByUse draw b.used (b ∷ []) (c ∷ rest) r' (refl, tt) hs hss)
            (All_map (λ x e. All_map (λ y h. omega arith) out above) run' run'_at))
        (λ same.
          shuffle_runs-IsByUse draw curr (run ++ b ∷ []) (c ∷ rest) r
            (All-append (λ x. x.used ≡ curr) run (b ∷ []) hr (ground arith, tt)) ha hss)

  less_by_count-IsStrictWeak : IsStrictWeak (less_by_count {F = F})
  unfolding less_by_count
  less_by_count-IsStrictWeak = record {
    asym = λ a b h. ground (arith, ltb_ℤ_asym a.id b.id);
    not_trans = λ a b c h k. ground (arith, ltb_ℤ_not_trans a.id b.id c.id);
  }

  IsByUse-of_sorted : (bl : BrokerList F) → IsSorted less_by_count bl → IsByUse bl
  unfolding less_by_count
  IsByUse-of_sorted [] h = tt
  IsByUse-of_sorted (b ∷ bl) (h, hs) = (All_map (λ y e. ground arith) bl h, IsByUse-of_sorted bl hs)

  sort_by_count-IsByUse : (bl : BrokerList F) → IsByUse (sort_by_count bl)
  unfolding sort_by_count
  sort_by_count-IsByUse bl =
      IsByUse-of_sorted (sort less_by_count bl)
        (sort-IsSorted less_by_count less_by_count-IsStrictWeak bl)

  shuffle_sorted-perm :
      (draw : Draw) (seed : ℤ) (bl : BrokerList F) → Perm (shuffle_sorted draw seed bl) bl
  unfolding shuffle_sorted
  shuffle_sorted-perm draw seed [] = Perm.rfl
  shuffle_sorted-perm draw seed (b ∷ rest) =
      shuffle_runs-perm draw b.used [] (b ∷ rest) (seeded seed)

  shuffle_sorted-IsByUse :
      (draw : Draw) (seed : ℤ) (bl : BrokerList F)
      → IsByUse bl
      → IsByUse (shuffle_sorted draw seed bl)
  unfolding shuffle_sorted
  shuffle_sorted-IsByUse draw seed [] h = tt
  shuffle_sorted-IsByUse draw seed (b ∷ rest) (h, hs) =
      shuffle_runs-IsByUse draw b.used [] (b ∷ rest) (seeded seed) tt (omega arith, h) (h, hs)

  -- SortPseudoShuffle returns a permutation of the brokers with the less used ones first, for every
  -- seed and whatever the random source draws.
  pub sort_pseudo_shuffle_lem :
      (draw : Draw) (seed : ℤ) (bl : BrokerList F)
      → Perm (sort_pseudo_shuffle draw seed bl) bl × IsByUse (sort_pseudo_shuffle draw seed bl)
  unfolding sort_pseudo_shuffle
  sort_pseudo_shuffle_lem draw seed bl =
      let sorted = sort_by_count bl in
      let by_use = sort_by_count-IsByUse bl in
      let perm = sort-perm less_by_count bl in
      if_ind (λ l. Perm l bl × IsByUse l) (leb (length bl) 2) sorted
        (shuffle_sorted draw seed sorted) (λ _. (perm, by_use))
        (λ _. (
          Perm.trans (shuffle_sorted-perm draw seed sorted) perm,
          shuffle_sorted-IsByUse draw seed sorted by_use,
        ))

  All-shuffle_runs {κ} :
      (P : Broker F → Type κ) (draw : Draw) (curr : ℕ) (run rest : BrokerList F) (r : Rand)
      → All P run
      → All P rest
      → All P (shuffle_runs draw curr run rest r)
  unfolding shuffle_runs
  All-shuffle_runs P draw curr run [] r h k = h
  All-shuffle_runs P draw curr run (b ∷ []) r h k =
      if_ind (All P) (not (eqb b.used curr)) ((shuffle draw run r).0 ++ b ∷ [])
        (shuffle draw (run ++ b ∷ []) r).0
        (λ _. All-append P (shuffle draw run r).0 (b ∷ []) (All-shuffle P draw run r h) k)
        (λ _. All-shuffle P draw (run ++ b ∷ []) r (All-append P run (b ∷ []) h k))
  All-shuffle_runs P draw curr run (b ∷ c ∷ rest) r h (hb, k) =
      let (run', r') = shuffle draw run r in
      if_ind (All P) (not (eqb b.used curr))
        (run' ++ shuffle_runs draw b.used (b ∷ []) (c ∷ rest) r')
        (shuffle_runs draw curr (run ++ b ∷ []) (c ∷ rest) r)
        (λ _.
          All-append P run' (shuffle_runs draw b.used (b ∷ []) (c ∷ rest) r')
            (All-shuffle P draw run r h)
            (All-shuffle_runs P draw b.used (b ∷ []) (c ∷ rest) r' (hb, tt) k))
        (λ _.
          All-shuffle_runs P draw curr (run ++ b ∷ []) (c ∷ rest) r
            (All-append P run (b ∷ []) h (hb, tt)) k)

  All-shuffle_sorted {κ} :
      (P : Broker F → Type κ) (draw : Draw) (seed : ℤ) (bl : BrokerList F)
      → All P bl
      → All P (shuffle_sorted draw seed bl)
  unfolding shuffle_sorted
  All-shuffle_sorted P draw seed [] h = tt
  All-shuffle_sorted P draw seed (b ∷ rest) h =
      All-shuffle_runs P draw b.used [] (b ∷ rest) (seeded seed) tt h

  -- What holds of every broker holds after SortPseudoShuffle.
  pub All-sort_pseudo_shuffle {κ} :
      (P : Broker F → Type κ) (draw : Draw) (seed : ℤ) (bl : BrokerList F)
      → All P bl
      → All P (sort_pseudo_shuffle draw seed bl)
  unfolding sort_pseudo_shuffle
  All-sort_pseudo_shuffle P draw seed bl h =
      let sorted = sort_by_count bl in
      let h' = All-sort P less_by_count bl h in
      if_ind (All P) (leb (length bl) 2) sorted (shuffle_sorted draw seed sorted) (λ _. h')
        (λ _. All-shuffle_sorted P draw seed sorted h')
