-- ===== src/Mapper/Stats.antt =====
-- mapper/stats.go: broker to broker relationships, and statistics of the free storage.
use kafka_kit.Base.{
  ℕ, ◌+◌, ℤ, Bool, true, not, some, none, List, [], ◌∷◌, length, ltb, ltb_ℤ, ◌==◌, ◌&&◌, int_key,
  if◌then◌else◌, map,
}
use kafka_kit.Base.GoMap.{Map, lookup, insert, keys, values}
use kafka_kit.Base.Float.{Float}
use kafka_kit.Base.Sort.{sort}
use kafka_kit.Mapper.Types.{Broker, BrokerMap, Partition, stub_broker_id}
use kafka_kit.Mapper.Brokers.{filter_map}

abbrev pub Neighbours : Type 0
Neighbours = Map ℤ Bool

-- DegreeDistribution.Relationships
abbrev pub Relationships : Type 0
Relationships = Map ℤ Neighbours

abbrev pub neighbours : ℤ → Relationships → Neighbours
neighbours n dd = elim (lookup n dd) [ some ns ↦ ns | none ↦ [] ]

unfoldable pub add_neighbours : ℤ → List ℤ → Neighbours → Neighbours
unfolding insert
add_neighbours node [] ns = ns
add_neighbours node (x ∷ xs) ns =
    add_neighbours node xs (if node == x then ns else insert x true ns)

-- The outer loop of DegreeDistribution.Add.
unfoldable pub add_nodes : List ℤ → List ℤ → Relationships → Relationships
unfolding add_neighbours lookup
add_nodes nodes [] dd = dd
add_nodes nodes (node ∷ rest) dd =
    add_nodes nodes rest (insert node (add_neighbours node nodes (neighbours node dd)) dd)

-- DegreeDistribution.Add
unfoldable pub add_replica_set : List ℤ → Relationships → Relationships
unfolding add_nodes
add_replica_set nodes dd = add_nodes nodes nodes dd

-- DegreeDistribution.Count
unfoldable pub degree : ℤ → Relationships → ℕ
unfolding lookup
degree n dd = elim (lookup n dd) [ some c ↦ length c | none ↦ 0 ]

unfoldable pub add_replica_sets : List Partition → Relationships → Relationships
unfolding add_replica_set
add_replica_sets [] dd = dd
add_replica_sets (p ∷ ps) dd = add_replica_sets ps (add_replica_set p.replicas dd)

-- PartitionMap.DegreeDistribution
unfoldable pub degree_distribution : List Partition → Relationships
unfolding add_replica_sets
degree_distribution ps = add_replica_sets ps []

unfoldable pub sum : List ℕ → ℕ
sum [] = 0
sum (n ∷ ns) = n + sum ns

unfoldable pub last : ℕ → List ℕ → ℕ
last n [] = n
last n (m ∷ ms) = last m ms

pub record DegreeStats (F : Type 0) : Type 0 where
  pub min : F
  pub max : F
  pub avg : F

module _ {F : Type 0} ⦃fl : Float F⦄ where
  -- The statistics of the degrees in ascending order.
  unfoldable pub degree_stats : List ℕ → DegreeStats F
  unfolding sum last
  degree_stats [] = record { min = fl.of_ℕ 0; max = fl.of_ℕ 0; avg = fl.of_ℕ 0 }
  degree_stats (v ∷ vs) = record {
    min = fl.of_ℕ v;
    max = fl.of_ℕ (last v vs);
    avg = fl.div (fl.of_ℕ (sum (v ∷ vs))) (fl.of_ℕ (length (v ∷ vs)));
  }

  -- DegreeDistribution.Stats
  unfoldable pub stats : Relationships → DegreeStats F
  unfolding degree degree_stats sort
  stats dd = degree_stats (sort ltb (map (λ n. degree n dd) (keys dd)))

  -- MinMax: the lowest and the highest free storage.
  unfoldable pub min_max_from : F → F → BrokerMap F → F × F
  min_max_from l h [] = (l, h)
  min_max_from l h ((id, b) ∷ m) =
      let v = b.storage_free in
      let is_stub = id == stub_broker_id in
      min_max_from (if is_stub then l else if fl.lt v l then v else l)
        (if is_stub then h else if fl.lt h v then v else h) m

  unfoldable pub min_max : BrokerMap F → F × F
  unfolding min_max_from
  min_max b = min_max_from fl.max_float (fl.of_ℕ 0) b

  unfoldable pub storage_range : BrokerMap F → F
  unfolding min_max
  storage_range b = let (l, h) = min_max b in fl.sub h l

  unfoldable pub storage_range_spread : BrokerMap F → F
  unfolding min_max
  storage_range_spread b = let (l, h) = min_max b in fl.mul (fl.div (fl.sub h l) l) (fl.of_ℕ 100)

  -- The loops of StorageStdDev: the count and the sum, and the sum of the squares.
  unfoldable pub free_sum : F → F → BrokerMap F → F × F
  free_sum l t [] = (l, t)
  free_sum l t ((id, b) ∷ m) =
      let is_stub = id == stub_broker_id in
      free_sum (if is_stub then l else fl.add l (fl.of_ℕ 1))
        (if is_stub then t else fl.add t b.storage_free) m

  unfoldable pub square_sum : F → F → BrokerMap F → F
  square_sum mean_free s [] = s
  square_sum mean_free s ((id, b) ∷ m) =
      square_sum mean_free
        (if id == stub_broker_id
          then s
          else fl.add s (fl.pow (fl.sub mean_free b.storage_free) (fl.of_ℕ 2)))
        m

  unfoldable pub storage_std_dev : BrokerMap F → F
  unfolding free_sum square_sum
  storage_std_dev b =
      let (l, t) = free_sum (fl.of_ℕ 0) (fl.of_ℕ 0) b in
      fl.sqrt (fl.div (square_sum (fl.div t l) (fl.of_ℕ 0) b) l)

  -- StorageDiff: the absolute difference and that in percent, of the brokers of both maps.
  unfoldable pub storage_diff_from : BrokerMap F → BrokerMap F → Map ℤ (F × F) → Map ℤ (F × F)
  unfolding lookup insert
  storage_diff_from [] b2 d = d
  storage_diff_from ((id, b) ∷ m) b2 d = storage_diff_from m b2 (
      if id == stub_broker_id then d else elim (lookup id b2) [
        | none ↦ d
        | some c ↦
            let diff = fl.sub c.storage_free b.storage_free in
            insert id (diff, fl.mul (fl.div diff b.storage_free) (fl.of_ℕ 100)) d
      ])

  unfoldable pub storage_diff : BrokerMap F → BrokerMap F → Map ℤ (F × F)
  unfolding storage_diff_from
  storage_diff b b2 = storage_diff_from b b2 []

  -- The loop of Mean: the sum of free storage and the count, over the brokers that have any.
  unfoldable pub mean_from : F → F → BrokerMap F → F
  mean_from t c [] = fl.div t c
  mean_from t c ((id, b) ∷ m) =
      let counts = not (b.id == stub_broker_id) && fl.lt (fl.of_ℕ 0) b.storage_free in
      mean_from (if counts then fl.add t b.storage_free else t)
        (if counts then fl.add c (fl.of_ℕ 1) else c) m

  -- Mean
  unfoldable pub mean : BrokerMap F → F
  unfolding mean_from
  mean b = mean_from (fl.of_ℕ 0) (fl.of_ℕ 0) b

  unfoldable pub h_mean_from : F → F → BrokerMap F → F
  h_mean_from t c [] = fl.div c t
  h_mean_from t c ((id, b) ∷ m) =
      let counts = not (b.id == stub_broker_id) && fl.lt (fl.of_ℕ 0) b.storage_free in
      h_mean_from (if counts then fl.add t (fl.div (fl.of_ℕ 1) b.storage_free) else t)
        (if counts then fl.add c (fl.of_ℕ 1) else c) m

  -- HMean
  unfoldable pub h_mean : BrokerMap F → F
  unfolding h_mean_from
  h_mean b = h_mean_from (fl.of_ℕ 0) (fl.of_ℕ 0) b

  -- AboveMeanFn and BelowMeanFn at the mean `m`
  unfoldable pub above_mean_fn : F → F → Broker F → Bool
  above_mean_fn d m b = fl.lt d (fl.div (fl.sub b.storage_free m) m)

  unfoldable pub below_mean_fn : F → F → Broker F → Bool
  below_mean_fn d m b = fl.lt d (fl.div (fl.sub m b.storage_free) m)

  -- AboveMean and BelowMean
  unfoldable pub above_mean : F → F → BrokerMap F → List ℤ
  unfolding above_mean_fn filter_map sort
  above_mean d m b =
      if fl.le d (fl.of_ℕ 0)
      then []
      else sort ltb_ℤ (map (λ x. x.id) (values (filter_map (above_mean_fn d m) b)))

  unfoldable pub below_mean : F → F → BrokerMap F → List ℤ
  unfolding below_mean_fn filter_map sort
  below_mean d m b =
      if fl.le d (fl.of_ℕ 0)
      then []
      else sort ltb_ℤ (map (λ x. x.id) (values (filter_map (below_mean_fn d m) b)))
