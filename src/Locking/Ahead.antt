-- ===== src/Locking/Ahead.antt =====
-- cluster/zookeeper/locks.go: the lock ahead has a smaller number.
use mathlib.Core.List.{Permᴰ}
use mathlib.Core.Logic.{∥∥₁_elim}
use mathlib.Core.List.Perm
use kafka_kit.Base.{
  ℕ, suc, ◌≤◌, ◌<◌, ℤ, pos, negsuc, true, false, List, [], ◌∷◌, String, some, ◌≡◌, refl, sym, ap,
  subst, ◌∙◌, ◌==◌, int_key, beq_iff, map, ltb_ℤ, if◌then◌else◌, arith, Bool-cases, inl, inr, Perm,
}
use kafka_kit.Base.Sort.{IsSorted, sort, sort-perm, sort-IsSorted}
use kafka_kit.Locking.Entries.{locks, ahead_in, lock_ahead}
use kafka_kit.Locking.System.{ids_in, IsListing}
use kafka_kit.Locking.Invariant.{copies}
use kafka_kit.Locking.First.{locks-ids, ltb_ℤ-IsStrictWeak}

abbrev counted : ℤ → ℤ → ℕ → ℕ
counted id x n = if id == x then suc n else n

counted_swap : (id a b : ℤ) (n : ℕ) → counted id a (counted id b n) ≡ counted id b (counted id a n)
counted_swap id a b n = elim (Bool-cases (id == a)) [
  | inl e ↦ elim (Bool-cases (id == b)) [ inl f ↦ rw (e, f) refl | inr f ↦ rw (e, f) refl ]
  | inr e ↦ elim (Bool-cases (id == b)) [ inl f ↦ rw (e, f) refl | inr f ↦ rw (e, f) refl ]
]

-- How often an entry stands in a list
abbrev occurrences : ℤ → List ℤ → ℕ
occurrences id [] = 0
occurrences id (x ∷ xs) = counted id x (occurrences id xs)

occurrences-perm : (id : ℤ) {xs ys : List ℤ} → Perm xs ys → occurrences id xs ≡ occurrences id ys
occurrences-perm id {xs} {ys} p = ∥∥₁_elim p (hlevel) (λ q. from_derivation q)
  where
    from_derivation : {xs ys : List ℤ} → Permᴰ xs ys → occurrences id xs ≡ occurrences id ys
    from_derivation Permᴰ.nil = refl
    from_derivation (Permᴰ.cons {b} {l₁} e p) =
        ap (λ x. counted id x (occurrences id l₁)) e ∙ ap (counted id b) (from_derivation p)
    from_derivation (Permᴰ.swap {b} {b'} {l} e f) =
        ap (λ x. counted id x (counted id b (occurrences id l))) e
        ∙ counted_swap id b' b (occurrences id l)
        ∙ ap (λ x. counted id x (counted id b' (occurrences id l))) f
    from_derivation (Permᴰ.trans p q) = from_derivation p ∙ from_derivation q

occurrences-claims :
    (id : ℕ) (claims : List ℕ) → occurrences (pos id) (map pos claims) ≡ copies id claims
occurrences-claims id [] = refl
occurrences-claims id (c ∷ cs) = ground (arith, occurrences-claims id cs)

apart_below : (a b : ℤ) → ltb_ℤ b a ≡ false → (b == a) ≡ false → ltb_ℤ a b ≡ true
apart_below (pos a) (pos b) h k = ground arith
apart_below (pos a) (negsuc b) h k = ground arith
apart_below (negsuc a) (pos b) h k = ground arith
apart_below (negsuc a) (negsuc b) h k = ground arith

stands_twice : (id x y : ℤ) (xs : List ℤ) → y ≡ id → y ≡ x → ¬ (occurrences id (x ∷ y ∷ xs) ≤ 1)
stands_twice id x y xs e f h =
    let p : (id == x) ≡ true = (beq_iff id x).1 (sym e ∙ f) in
    let q : (id == y) ≡ true = (beq_iff id y).1 (sym e) in ground arith

ahead_in-less :
    (id a : ℤ) (xs : List ℤ)
    → IsSorted ltb_ℤ xs
    → occurrences id xs ≤ 1
    → ahead_in id xs ≡ some a
    → ltb_ℤ a id ≡ true
unfolding ahead_in
ahead_in-less id a [] h once e = cc
ahead_in-less id a (x ∷ []) h once e = cc
ahead_in-less id a (x ∷ y ∷ xs) (h, hs) once e = elim (Bool-cases (y == id)) [
  | inl here ↦
      let same : y ≡ id = (beq_iff y id).0 here in
      let found : some x ≡ some a = rw here at e in
      let mine : x ≡ a = cc in
      let apart : (y == x) ≡ false = elim (Bool-cases (y == x)) [
        | inl twice ↦ absurd (stands_twice id x y xs same ((beq_iff y x).0 twice) once)
        | inr differ ↦ differ
      ] in
      subst (λ z. ltb_ℤ a z ≡ true) same
        (subst (λ z. ltb_ℤ z y ≡ true) mine (apart_below x y h.0 apart))
  | inr further ↦ ahead_in-less id a (y ∷ xs) hs (ground arith) (rw further at e)
]

-- The lock ahead of a claim has a smaller number, in a listing of claims that stand once each.
pub lock_ahead-less :
    (path : String) (claims : List ℕ) (nodes : List String) (id ahead : ℕ)
    → IsListing claims nodes
    → copies id claims ≤ 1
    → lock_ahead (locks path nodes) (pos id) ≡ some (pos ahead)
    → ahead < id
unfolding lock_ahead
lock_ahead-less path claims nodes id ahead listing once e =
    let xs = sort ltb_ℤ (ids_in nodes) in
    let all = Perm.trans (sort-perm ltb_ℤ (ids_in nodes)) listing in
    let single = occurrences-perm (pos id) all ∙ occurrences-claims id claims in
    let less =
      ahead_in-less (pos id) (pos ahead) xs (sort-IsSorted ltb_ℤ ltb_ℤ-IsStrictWeak (ids_in nodes))
        (omega (arith, single, once)) (ap (ahead_in (pos id)) (sym (locks-ids path nodes)) ∙ e) in
    ground arith
