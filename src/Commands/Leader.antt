-- ===== src/Commands/Leader.antt =====
-- The loop of evacuateLeadership that looks for a new leader.
use kafka_kit.Base.{
  ℕ, suc, ◌+◌, ℤ, true, false, ◌≡◌, ◌⊎◌, inl, inr, Option, some, List, [], ◌∷◌, ◌++◌, length, set,
  ◌==◌, int_key, string_key, arith, refl, ap, ◌∙◌, Bool-cases, beq_iff, beq_self, All,
}
use kafka_kit.Base.Outcome.{Run, exits, returns}
use kafka_kit.Base.GoMap.{contains}
use kafka_kit.Mapper.Rebuild.Filling.{distinct}
use kafka_kit.Commands.{last_replica, find_leader}

module _ (evac : List ℤ) where
  -- All of the brokers are evacuated.
  abbrev pub AreEvacuated : List ℤ → Type 0
  AreEvacuated rs = All (λ r. contains r evac ≡ true) rs

  -- The loop finds that all are evacuated, or the first one that is not.
  abbrev pub Found : ℕ → List ℤ → Run (Option (ℕ × ℤ)) → Type 0
  Found j rs run =
      ((run ≡ exits) × AreEvacuated rs)
      ⊎ ((before : List ℤ) × (new : ℤ) × (after : List ℤ) × (rs ≡ before ++ new ∷ after)
          × AreEvacuated before
          × (contains new evac ≡ false)
          × (run ≡ returns (some (j + length before, new))))

  last_listed : (x : ℤ) (xs : List ℤ) → contains (last_replica x xs) (x ∷ xs) ≡ true
  unfolding contains
  last_listed x [] = ground (arith, beq_iff x x)
  last_listed x (y ∷ ys) = ground (arith, last_listed y ys)

  not_held :
      (r x : ℤ) (xs : List ℤ) → (r == x) ≡ true → contains x xs ≡ true → ¬ (contains r xs ≡ false)
  not_held r x xs same held absent = let p : r ≡ x = (beq_iff r x).0 same in cc

  distinct_head : (r : ℤ) (rs : List ℤ) → distinct (r ∷ rs) ≡ true → contains r rs ≡ false
  unfolding distinct
  distinct_head r rs h = ground arith

  distinct_tail : (r : ℤ) (rs : List ℤ) → distinct (r ∷ rs) ≡ true → distinct rs ≡ true
  unfolding distinct
  distinct_tail r rs h = ground arith

  not_last :
      (r x : ℤ) (xs : List ℤ) → distinct (r ∷ x ∷ xs) ≡ true → (r == last_replica x xs) ≡ false
  not_last r x xs h = elim (Bool-cases (r == last_replica x xs)) [
    | inl e ↦
        absurd (
          not_held r (last_replica x xs) (x ∷ xs) e (last_listed x xs) (distinct_head r (x ∷ xs) h))
    | inr e ↦ e
  ]

  module _ (last : ℤ) (j : ℕ) (r : ℤ) (rs : List ℤ) where
    find_good : contains r evac ≡ false → find_leader evac last j (r ∷ rs) ≡ returns (some (j, r))
    unfolding find_leader
    find_good e = rw e refl

    find_end :
        contains r evac ≡ true → (r == last) ≡ true → find_leader evac last j (r ∷ rs) ≡ exits
    unfolding find_leader
    find_end e f = ground arith

    find_next :
        contains r evac ≡ true
        → (r == last) ≡ false
        → find_leader evac last j (r ∷ rs) ≡ find_leader evac last (j + 1) rs
    unfolding find_leader
    find_next e f = ground arith

  found_at :
      (i j : ℕ) (new : ℤ)
      → i ≡ j
      → ◌≡◌ {A = Run (Option (ℕ × ℤ))} (returns (some (i, new))) (returns (some (j, new)))
  found_at i j new e = ap (λ n. returns (some (n, new))) e

  pub find_leader-Found :
      (j : ℕ) (r : ℤ) (rs : List ℤ)
      → distinct (r ∷ rs) ≡ true
      → Found j (r ∷ rs) (find_leader evac (last_replica r rs) j (r ∷ rs))
  find_leader-Found j r [] h = elim (Bool-cases (contains r evac)) [
    | inl e ↦ inl (find_end r j r [] e (beq_self r), (e, tt))
    | inr e ↦
        inr ([], r, [], refl, tt, e, find_good r j r [] e ∙ found_at j (j + 0) r (omega arith))
  ]
  find_leader-Found j r (x ∷ xs) h =
      let last = last_replica x xs in
      elim (Bool-cases (contains r evac)) [
        | inl e ↦
            let next = find_next last j r (x ∷ xs) e (not_last r x xs h) in
            elim (find_leader-Found (j + 1) x xs (distinct_tail r (x ∷ xs) h)) [
              | inl (o, all) ↦ inl (next ∙ o, (e, all))
              | inr (before, new, after, l, all, good, o) ↦ inr (
                r ∷ before,
                new,
                after,
                ap (r ∷◌) l,
                (e, all),
                good,
                next
                    ∙ o
                    ∙ found_at (j + 1 + length before) (j + suc (length before)) new (omega arith),
              )
            ]
        | inr e ↦ inr (
          [],
          r,
          x ∷ xs,
          refl,
          tt,
          e,
          find_good last j r (x ∷ xs) e ∙ found_at j (j + 0) r (omega arith),
        )
      ]

pub set_at :
    (before : List ℤ) (new x : ℤ) (after : List ℤ)
    → set (before ++ new ∷ after) (length before) x ≡ before ++ x ∷ after
set_at [] new x after = refl
set_at (b ∷ before) new x after = ap (b ∷◌) (set_at before new x after)
