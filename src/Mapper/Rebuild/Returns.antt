-- ===== src/Mapper/Rebuild/Returns.antt =====
-- placeByPosition and placeByPartition return: no broker is missing from the map, and the passes
-- of placeByPosition end within its fuel.
use kafka_kit.Base.{
  Pairs, ℕ, ◌+◌, zero, suc, ◌≤◌, ◌<◌, Bool, true, ◌≡◌, Option, some, none, List, [], ◌∷◌, map, refl,
  int_key, length, get_elem?, ltb, ltb→lt, if◌then◌else◌, All, Bool-cases, inl, inr, ◌>>=◌,
  >>=-eq-some, arith, subst, ap, ◌∙◌,
}
use kafka_kit.Base.GoMap.{keys}
use kafka_kit.Base.Float.{Float}
use kafka_kit.Base.Shuffle.{Draw}
use kafka_kit.Mapper.Types.{Partition}
use kafka_kit.Mapper.Brokers.Keyed.{IsKeyed}
use kafka_kit.Mapper.Placement.{RebuildParams, Progress, new_partition, start}
use kafka_kit.Mapper.Placement.Replace.{AreFree}
use kafka_kit.Mapper.Rebuild.{
  Placed, placed, longest, place_at, place_pass, place_passes, place_by_position, place_partitions,
  place_by_partition,
}
use kafka_kit.Mapper.Rebuild.Filling.{distinct}
use kafka_kit.Mapper.Rebuild.Steps.{IsRun}
use kafka_kit.Mapper.Rebuild.Replaced.{Filling, Filling-start, place_pass-Filling, IsRun-start}
use kafka_kit.Mapper.Rebuild.Passes.{place_pass_total, place_partitions_total}
use kafka_kit.Mapper.Rebuild.Total.{AreHeld, >>=_total}

get_elem?-past {ℓ} : {A : Type ℓ} (xs : List A) (n : ℕ) → length xs ≤ n → get_elem? xs n ≡ none
get_elem?-past [] n h = refl
get_elem?-past (x ∷ xs) zero h = absurd (omega arith)
get_elem?-past (x ∷ xs) (suc n) h = get_elem?-past xs n (omega arith)

not_over :
    (pass last skipped count : ℕ) → (last < pass → count ≤ skipped) → skipped < count → pass ≤ last
not_over pass last skipped count h k = grind arith

fuel_left :
    (fuel pass last : ℕ)
    → pass ≤ last
    → last + 2 ≤ suc fuel + pass
    → 1 ≤ fuel × last + 2 ≤ fuel + suc pass
fuel_left fuel pass last h k = (omega arith, omega arith)

last_pass : (pass last : ℕ) → pass ≤ last → last < suc pass → last ≤ pass
last_pass pass last h k = omega arith

past_all : (skipped count all : ℕ) → all ≡ skipped + count → count ≤ all
past_all skipped count all h = omega arith

skips_sum : (a b c d l : ℕ) → suc a ≡ b → c ≡ b + l → c ≡ d → d ≡ a + suc l
skips_sum a b c d l h k m = omega arith

module _ {F : Type 0} ⦃fl : Float F⦄ (draw : Draw) (params : RebuildParams F) where
  -- A pass beyond the longest replica set skips every partition.
  place_pass_skips :
      (pass n : ℕ) (ps qs : List Partition) (skipped : ℕ) (st : Progress F)
      (r : List Partition × ℕ × Progress F)
      → longest ps ≤ pass
      → place_pass draw params pass n ps qs skipped st ≡ some r
      → r.1 ≡ skipped + length ps
  unfolding place_pass place_at longest
  place_pass_skips pass n [] qs skipped st r h e =
      let same : ([], skipped, st) ≡ r = cc in
      subst (λ (r : List Partition × ℕ × Progress F). r.1 ≡ skipped + 0) same (omega arith)
  place_pass_skips pass n (p ∷ ps) [] skipped st r h e = cc
  place_pass_skips pass n (p ∷ ps) (q ∷ qs) skipped st r h e =
      let rest = λ (s : Partition × ℕ × Progress F).
        place_pass draw params pass (suc n) ps qs s.1 s.2 >>= λ t. some (s.0 ∷ t.0, t.1, t.2) in
      let (s, got, e1) = >>=-eq-some (place_at draw params pass n p q skipped st) rest e in
      let out = get_elem?-past p.replicas pass (omega arith) in
      let got' : some (q, suc skipped, st) ≡ some s = rw (out, place_at) at got in
      let done : (q, suc skipped, st) ≡ s = cc in
      let one : suc skipped ≡ s.1 = ap (λ (s : Partition × ℕ × Progress F). s.1) done in
      let (t, got'', e2) =
        >>=-eq-some (place_pass draw params pass (suc n) ps qs s.1 s.2)
          (λ t. some (s.0 ∷ t.0, t.1, t.2)) e1 in
      let same : (s.0 ∷ t.0, t.1, t.2) ≡ r = cc in
      let two : t.1 ≡ r.1 = ap (λ (r : List Partition × ℕ × Progress F). r.1) same in
      let later = place_pass_skips pass (suc n) ps qs s.1 s.2 t (omega arith) got'' in
      skips_sum skipped s.1 t.1 r.1 (length ps) one later two

  place_passes_total :
      (fuel pass : ℕ) (ps qs : List Partition) (skipped : ℕ) (st : Progress F)
      → AreFree params.affinities params.bm
      → All (λ p. AreHeld params.bm p.replicas) ps
      → Pairs (Filling params.bm pass) ps qs
      → IsRun params.bm st
      → 1 ≤ fuel
      → (pass ≤ longest ps → longest ps + 2 ≤ fuel + pass)
      → (longest ps < pass → length ps ≤ skipped)
      → (r : List Partition × Progress F) × (place_passes draw params fuel pass ps qs skipped st
          ≡ some r)
  unfolding place_passes
  place_passes_total zero pass ps qs skipped st free held h run some_fuel enough over =
      absurd (omega arith)
  place_passes_total (suc fuel) pass ps qs skipped st free held h run some_fuel enough over =
      let rest = λ (s : List Partition × ℕ × Progress F).
        place_passes draw params fuel (suc pass) ps s.0 s.1 s.2 in
      let more : Bool → Option (List Partition × Progress F) = λ b.
        if b then (place_pass draw params pass 0 ps qs skipped st >>= rest) else some (qs, st) in
      elim (Bool-cases (ltb skipped (length ps))) [
        | inr stop ↦ ((qs, st), ap more stop)
        | inl y ↦
            let early =
              not_over pass (longest ps) skipped (length ps) over (ltb→lt skipped (length ps) y) in
            let (left, enough') = fuel_left fuel pass (longest ps) early (enough early) in
            let (r, e) =
              >>=_total (place_pass draw params pass 0 ps qs skipped st) rest
                (place_pass_total draw params pass 0 ps qs skipped st free h held run)
                (λ s got.
                  let (h', run') =
                    place_pass-Filling draw params pass 0 ps qs skipped st s free h run got in
                  place_passes_total fuel (suc pass) ps s.0 s.1 s.2 free held h' run' left
                    (λ k. enough')
                    (λ k. past_all skipped (length ps) s.1 (
                      place_pass_skips pass 0 ps qs skipped st s
                        (last_pass pass (longest ps) early k) got))) in
            (r, ap more y ∙ e)
      ]

  start_total :
      (ps : List Partition)
      → All (λ p. distinct p.replicas ≡ true) ps
      → All (λ p. AreHeld params.bm p.replicas) ps
      → IsKeyed params.bm
      → distinct (keys params.bm) ≡ true
      → AreFree params.affinities params.bm
      → (r : List Partition × Progress F) × (place_passes draw params
            (longest ps + 2)
            0
            ps
            (map new_partition ps)
            0
            (start draw params)
          ≡ some r)
  start_total ps once held k one free =
      place_passes_total (longest ps + 2) 0 ps (map new_partition ps) 0 (start draw params) free
        held (Filling-start params.bm ps once) (IsRun-start draw params k one) (omega arith)
        (λ h. omega arith) (λ h. absurd (omega arith))

  -- placeByPosition returns a map, on replica sets that name no broker twice and only brokers of the
  -- broker map, with a broker map that holds each broker once at its own ID and substitutes that are
  -- in the map, not the stub broker and not marked for replacement.
  pub place_by_position_total :
      (ps : List Partition)
      → All (λ p. distinct p.replicas ≡ true) ps
      → All (λ p. AreHeld params.bm p.replicas) ps
      → IsKeyed params.bm
      → distinct (keys params.bm) ≡ true
      → AreFree params.affinities params.bm
      → (r : Placed F) × (place_by_position draw params ps ≡ some r)
  unfolding place_by_position placed
  place_by_position_total ps once held k one free =
      >>=_total
        (place_passes draw params (longest ps + 2) 0 ps (map new_partition ps) 0
          (start draw params))
        (λ s. some (placed s.0 s.1)) (start_total ps once held k one free)
        (λ s e. (placed s.0 s.1, refl))

  -- placeByPartition returns a map, on replica sets that name no broker twice and only brokers of
  -- the broker map, with a broker map that holds each broker once at its own ID.
  pub place_by_partition_total :
      (ps : List Partition)
      → All (λ p. distinct p.replicas ≡ true) ps
      → All (λ p. AreHeld params.bm p.replicas) ps
      → IsKeyed params.bm
      → distinct (keys params.bm) ≡ true
      → (r : Placed F) × (place_by_partition draw params ps ≡ some r)
  unfolding place_by_partition placed
  place_by_partition_total ps once held k one =
      >>=_total (place_partitions draw params ps (start draw params)) (λ s. some (placed s.0 s.1))
        (place_partitions_total draw params ps (start draw params) once held
          (IsRun-start draw params k one))
        (λ s e. (placed s.0 s.1, refl))
