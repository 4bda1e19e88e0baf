-- ===== src/Mapper/Rebuild/Uniform.antt =====
-- placeByPosition on replica sets of one length, where the count of skipped partitions is of one pass.
use kafka_kit.Base.{
  Pairs, nil, cons, ℕ, ◌+◌, zero, suc, ◌≤◌, ◌<◌, Bool, true, false, ◌≡◌, Option, some, none, List,
  [], ◌∷◌, map, refl, int_key, length, get_elem?, ltb, if◌then◌else◌, All, Bool-cases, Option-cases,
  inl, inr, >>=-eq-some, ◌>>=◌, arith, sym, subst, ◌∙◌,
}
use kafka_kit.Base.GoMap.{keys, lookup, contains}
use kafka_kit.Base.Float.{Float}
use kafka_kit.Base.Shuffle.{Draw}
use kafka_kit.Mapper.Types.{Partition}
use kafka_kit.Mapper.Brokers.Keyed.{IsKeyed}
use kafka_kit.Mapper.Placement.{
  RebuildParams, Progress, new_partition, append_replica, replace_at_position, start,
}
use kafka_kit.Mapper.Placement.Replace.{AreFree}
use kafka_kit.Mapper.Rebuild.{
  Placed, placed, longest, place_at, place_pass, place_passes, place_by_position,
}
use kafka_kit.Mapper.Rebuild.Filling.{distinct}
use kafka_kit.Mapper.Rebuild.Steps.{drop, IsRun}
use kafka_kit.Mapper.Rebuild.Replaced.{
  AreCarried, Filling, Filling-start, place_pass-Filling, IsRun-start,
}

get_elem?-within {ℓ} :
    {A : Type ℓ} (xs : List A) (n : ℕ) → n < length xs → get_elem? xs n ≡ none → ⊥
get_elem?-within [] n h e = omega arith
get_elem?-within (x ∷ xs) zero h e = cc
get_elem?-within (x ∷ xs) (suc n) h e = get_elem?-within xs n (omega arith) e

drop_all {ℓ} : {A : Type ℓ} (n : ℕ) (xs : List A) → length xs ≤ n → drop n xs ≡ []
drop_all zero [] h = refl
drop_all (suc n) [] h = refl
drop_all zero (x ∷ xs) h = absurd (omega arith)
drop_all (suc n) (x ∷ xs) h = drop_all n xs (omega arith)

Pairs-none :
    {A B : Type 0} {R S : A → B → Type 0} (xs : List A) (ys : List B)
    → length xs ≤ 0
    → Pairs R xs ys
    → Pairs S xs ys
Pairs-none _ _ h nil = nil
Pairs-none _ _ h (cons f fs) = absurd (omega arith)

none_left : (skipped count : ℕ) → ltb skipped count ≡ false → skipped ≡ 0 → count ≤ 0
none_left skipped count h k = ground arith

over : (pass size : ℕ) → ltb pass size ≡ false → size ≤ pass
over pass size h = ground arith

under : (pass size : ℕ) → ltb pass size ≡ true → pass ≤ size
under pass size h = ground arith

below : (pass size : ℕ) → suc pass ≤ size → pass < size
below pass size h = omega arith

before : (pass size : ℕ) → suc pass ≤ size → pass ≤ size
before pass size h = omega arith

module _ {F : Type 0} ⦃fl : Float F⦄ (draw : Draw) (params : RebuildParams F) where
  place_at_counts :
      (pass n : ℕ) (p q : Partition) (skipped : ℕ) (st : Progress F)
      (r : Partition × ℕ × Progress F)
      → pass < length p.replicas
      → place_at draw params pass n p q skipped st ≡ some r
      → r.1 ≡ skipped
  unfolding place_at
  place_at_counts pass n p q skipped st r h e = elim (Option-cases (get_elem? p.replicas pass)) [
    | inl out ↦ absurd (get_elem?-within p.replicas pass h out)
    | inr (bid, there) ↦
        let replace : Option (Partition × ℕ × Progress F) =
          replace_at_position draw params pass n p bid q st >>= λ s. some (s.0, skipped, s.1) in
        let placing : Bool → Option (Partition × ℕ × Progress F) =
          λ t. if t then replace else some (append_replica bid q, skipped, st) in
        let e' : (lookup bid st.brokers >>= λ b. placing b.replace) ≡ some r =
          rw (there, place_at) at e in
        let (b, found, e1) = >>=-eq-some (lookup bid st.brokers) (λ b. placing b.replace) e' in
        let at = λ (t : Bool) (h : b.replace ≡ t). subst (λ t. placing t ≡ some r) h e1 in
        elim (Bool-cases b.replace) [
          | inl y ↦
              let (s, got, e2) =
                >>=-eq-some (replace_at_position draw params pass n p bid q st)
                  (λ s. some (s.0, skipped, s.1)) (at true y) in
              let same : (s.0, skipped, s.1) ≡ r = cc in
              subst (λ (r : Partition × ℕ × Progress F). r.1 ≡ skipped) same refl
          | inr stay ↦
              let e3 : some (append_replica bid q, skipped, st) ≡ some r = at false stay in
              let same : (append_replica bid q, skipped, st) ≡ r = cc in
              subst (λ (r : Partition × ℕ × Progress F). r.1 ≡ skipped) same refl
        ]
  ]

  place_pass_counts :
      (pass n size : ℕ) (ps qs : List Partition) (skipped : ℕ) (st : Progress F)
      (r : List Partition × ℕ × Progress F)
      → All (λ p. length p.replicas ≡ size) ps
      → pass < size
      → place_pass draw params pass n ps qs skipped st ≡ some r
      → r.1 ≡ skipped
  unfolding place_pass
  place_pass_counts pass n size [] qs skipped st r h k e =
      let same : ([], skipped, st) ≡ r = cc in
      subst (λ (r : List Partition × ℕ × Progress F). r.1 ≡ skipped) same refl
  place_pass_counts pass n size (p ∷ ps) [] skipped st r h k e = cc
  place_pass_counts pass n size (p ∷ ps) (q ∷ qs) skipped st r (h, hs) k e =
      let rest = λ (s : Partition × ℕ × Progress F).
        place_pass draw params pass (suc n) ps qs s.1 s.2 >>= λ t. some (s.0 ∷ t.0, t.1, t.2) in
      let (s, got, e1) = >>=-eq-some (place_at draw params pass n p q skipped st) rest e in
      let (t, got', e2) =
        >>=-eq-some (place_pass draw params pass (suc n) ps qs s.1 s.2)
          (λ t. some (s.0 ∷ t.0, t.1, t.2)) e1 in
      let same : (s.0 ∷ t.0, t.1, t.2) ≡ r = cc in
      subst (λ (r : List Partition × ℕ × Progress F). r.1 ≡ skipped) same
        (place_pass_counts pass (suc n) size ps qs s.1 s.2 t hs k got'
          ∙ place_at_counts pass n p q skipped st s (subst (λ m. pass < m) (sym h) k) got)

  -- After the last pass all that stays is carried over.
  Filling-done :
      (pass size : ℕ) (ps qs : List Partition)
      → Pairs (Filling params.bm pass) ps qs
      → All (λ p. length p.replicas ≡ size) ps
      → size ≤ pass
      → Pairs (AreCarried params.bm) ps qs
  unfolding contains
  Filling-done pass size _ _ nil h k = nil
  Filling-done pass size _ _ (cons {x = p} {y = q} {xs = ps} {ys = qs} f fs) (h, hs) k =
      let out = drop_all pass p.replicas (omega arith) in
      cons (λ id old kept. f.1 id old kept (subst (λ l. contains id l ≡ false) (sym out) refl))
        (Filling-done pass size ps qs fs hs k)

  place_passes-AreCarried :
      (fuel pass size : ℕ) (ps qs : List Partition) (skipped : ℕ) (st : Progress F)
      (r : List Partition × Progress F)
      → AreFree params.affinities params.bm
      → Pairs (Filling params.bm pass) ps qs
      → All (λ p. length p.replicas ≡ size) ps
      → (pass ≤ size → skipped ≡ 0)
      → IsRun params.bm st
      → place_passes draw params fuel pass ps qs skipped st ≡ some r
      → Pairs (AreCarried params.bm) ps r.0
  unfolding place_passes
  place_passes-AreCarried zero pass size ps qs skipped st r free f h c run e = cc
  place_passes-AreCarried (suc fuel) pass size ps qs skipped st r free f h c run e =
      let rest = λ (s : List Partition × ℕ × Progress F).
        place_passes draw params fuel (suc pass) ps s.0 s.1 s.2 in
      let more : Bool → Option (List Partition × Progress F) = λ b.
        if b then (place_pass draw params pass 0 ps qs skipped st >>= rest) else some (qs, st) in
      let at = λ (b : Bool) (k : ltb skipped (length ps) ≡ b). subst (λ b. more b ≡ some r) k e in
      elim (Bool-cases (ltb skipped (length ps))) [
        | inl y ↦
            let (s, got, e1) =
              >>=-eq-some (place_pass draw params pass 0 ps qs skipped st) rest (at true y) in
            let (f', run') =
              place_pass-Filling draw params pass 0 ps qs skipped st s free f run got in
            place_passes-AreCarried fuel (suc pass) size ps s.0 s.1 s.2 r free f' h
              (λ k.
                place_pass_counts pass 0 size ps qs skipped st s h (below pass size k) got
                ∙ c (before pass size k))
              run' e1
        | inr stop ↦
            let e1 : some (qs, st) ≡ some r = at false stop in
            let same : (qs, st) ≡ r = cc in
            subst (λ (r : List Partition × Progress F). Pairs (AreCarried params.bm) ps r.0) same
              (elim (Bool-cases (ltb pass size)) [
                | inl y ↦
                    Pairs-none ps qs (none_left skipped (length ps) stop (c (under pass size y))) f
                | inr n ↦ Filling-done pass size ps qs f h (over pass size n)
              ])
      ]

  -- placeByPosition, on replica sets of one length that name no broker twice, with a broker map that
  -- holds each broker once at its own ID and substitutes that are in the map, not the stub broker and
  -- not marked for replacement: when it returns, every old replica on a broker of the map that is not
  -- marked for replacement is still in the replica set of its partition.
  pub place_by_position-AreCarried :
      (size : ℕ) (ps : List Partition) (r : Placed F)
      → All (λ p. length p.replicas ≡ size) ps
      → All (λ p. distinct p.replicas ≡ true) ps
      → IsKeyed params.bm
      → distinct (keys params.bm) ≡ true
      → AreFree params.affinities params.bm
      → place_by_position draw params ps ≡ some r
      → Pairs (AreCarried params.bm) ps r.partition_map.partitions
  unfolding place_by_position placed
  place_by_position-AreCarried size ps r h once k one free e =
      let first = start draw params in
      let (s, got, e1) =
        >>=-eq-some (place_passes draw params (longest ps + 2) 0 ps (map new_partition ps) 0 first)
          (λ s. some (placed s.0 s.1)) e in
      let same : placed s.0 s.1 ≡ r = cc in
      subst (λ (r : Placed F). Pairs (AreCarried params.bm) ps r.partition_map.partitions) same
        (place_passes-AreCarried (longest ps + 2) 0 size ps (map new_partition ps) 0 first s free
          (Filling-start params.bm ps once) h (λ _. refl) (IsRun-start draw params k one) got)
