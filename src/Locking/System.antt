-- ===== src/Locking/System.antt =====
-- cluster/zookeeper: any number of clients that lock and unlock over one ZooKeeper, interleaved in
-- any order, without a TTL. ZooKeeper numbers the claims in the order of their creation; a claim
-- goes only when a client deletes it, so no session ends while its client goes on.
use kafka_kit.Base.{
  ℕ, suc, ℤ, pos, Bool, true, false, List, [], ◌∷◌, String, none, some, ◌≡◌, ◌==◌, int_key, nat_key,
  Perm, map, if◌then◌else◌, eqb,
}
use kafka_kit.Base.GoMap.{contains}
use kafka_kit.Locking.Entries.{id_from_znode, locks, lock_ahead}
use kafka_kit.Locking.Client.{first_claim}

-- Where a client stands in Lock and Unlock: `looked` has the children that locks() returned, and
-- `blocked` the claim ahead, whose znode the client watches.
pub data Stage : Type 0 where
  idle : Stage
  waiting : ℕ → Stage
  looked : ℕ → List String → Stage
  blocked : ℕ → ℕ → Stage
  holding : ℕ → Stage

pub record System : Type 0 where
  -- The claims' numbers, and the one that the next claim gets
  pub claims : List ℕ
  pub next : ℕ
  pub stage : ℕ → Stage

abbrev pub set_stage : (ℕ → Stage) → ℕ → Stage → ℕ → Stage
set_stage stage i s j = if eqb i j then s else stage j

unfoldable pub remove_claim : ℕ → List ℕ → List ℕ
remove_claim id [] = []
remove_claim id (c ∷ cs) = let rest = remove_claim id cs in if eqb c id then rest else c ∷ rest

-- The numbers of a list of children; junk is passed over.
unfoldable pub ids_in : List String → List ℤ
ids_in [] = []
ids_in (n ∷ ns) =
    let rest = ids_in ns in elim (id_from_znode n) [ some id ↦ id ∷ rest | none ↦ rest ]

-- The children that ZooKeeper may return: one for each claim, in any order.
abbrev pub IsListing : List ℕ → List String → Type 0
IsListing claims nodes = Perm (ids_in nodes) (map pos claims)

pub data Step (path : String) (s : System) : System → Type 0 where
  -- CreateProtectedEphemeralSequential
  claim :
      (i : ℕ)
      → s.stage i ≡ Stage.idle
      → Step path s (record {
        claims = s.next ∷ s.claims;
        next = suc s.next;
        stage = set_stage s.stage i (Stage.waiting s.next);
      })
  -- locks()
  look :
      (i id : ℕ) (nodes : List String)
      → s.stage i ≡ Stage.waiting id
      → IsListing s.claims nodes
      → Step path s (record {
        claims = s.claims;
        next = s.next;
        stage = set_stage s.stage i (Stage.looked id nodes);
      })
  -- thisID == firstClaim
  acquire :
      (i id : ℕ) (nodes : List String)
      → s.stage i ≡ Stage.looked id nodes
      → (pos id == first_claim (locks path nodes)) ≡ true
      → Step path s (record {
        claims = s.claims;
        next = s.next;
        stage = set_stage s.stage i (Stage.holding id);
      })
  -- getLockAheadWait, while the claim ahead is there
  watch :
      (i id ahead : ℕ) (nodes : List String)
      → s.stage i ≡ Stage.looked id nodes
      → (pos id == first_claim (locks path nodes)) ≡ false
      → lock_ahead (locks path nodes) (pos id) ≡ some (pos ahead)
      → contains ahead s.claims ≡ true
      → Step path s (record {
        claims = s.claims;
        next = s.next;
        stage = set_stage s.stage i (Stage.blocked id ahead);
      })
  -- There is no claim ahead to watch, or it has gone since: an error, and the next iteration
  retry :
      (i id : ℕ) (nodes : List String)
      → s.stage i ≡ Stage.looked id nodes
      → (pos id == first_claim (locks path nodes)) ≡ false
      → ((ahead : ℕ)
          → lock_ahead (locks path nodes) (pos id) ≡ some (pos ahead)
          → contains ahead s.claims ≡ false)
      → Step path s (record {
        claims = s.claims;
        next = s.next;
        stage = set_stage s.stage i (Stage.waiting id);
      })
  -- The watch reports that the claim ahead has gone.
  wake :
      (i id ahead : ℕ)
      → s.stage i ≡ Stage.blocked id ahead
      → contains ahead s.claims ≡ false
      → Step path s (record {
        claims = s.claims;
        next = s.next;
        stage = set_stage s.stage i (Stage.waiting id);
      })
  -- The request for the watch fails though the claim ahead is there.
  watch_failed :
      (i id : ℕ) (nodes : List String)
      → s.stage i ≡ Stage.looked id nodes
      → (pos id == first_claim (locks path nodes)) ≡ false
      → Step path s (record {
        claims = s.claims;
        next = s.next;
        stage = set_stage s.stage i (Stage.waiting id);
      })
  -- The watch ends for another reason, as on an event of the session.
  watch_ended :
      (i id ahead : ℕ)
      → s.stage i ≡ Stage.blocked id ahead
      → Step path s (record {
        claims = s.claims;
        next = s.next;
        stage = set_stage s.stage i (Stage.waiting id);
      })
  -- An error: the deferred delete of the claim, which may fail
  give_up :
      (i id : ℕ) (deleted : Bool)
      → s.stage i ≡ Stage.waiting id
      → Step path s (record {
        claims = if deleted then remove_claim id s.claims else s.claims;
        next = s.next;
        stage = set_stage s.stage i Stage.idle;
      })
  -- The context ends before the claim ahead goes.
  time_out :
      (i id ahead : ℕ) (deleted : Bool)
      → s.stage i ≡ Stage.blocked id ahead
      → Step path s (record {
        claims = if deleted then remove_claim id s.claims else s.claims;
        next = s.next;
        stage = set_stage s.stage i Stage.idle;
      })
  -- Unlock
  release :
      (i id : ℕ)
      → s.stage i ≡ Stage.holding id
      → Step path s (record {
        claims = remove_claim id s.claims;
        next = s.next;
        stage = set_stage s.stage i Stage.idle;
      })

abbrev pub initial : System
initial = record { claims = []; next = 0; stage = λ i. Stage.idle }

-- A step that neither a failed request nor the end of a context causes
abbrev pub is_orderly : {path : String} {s t : System} → Step path s t → Bool
is_orderly (claim i e) = true
is_orderly (look i id nodes e listing) = true
is_orderly (acquire i id nodes e won) = true
is_orderly (watch i id ahead nodes e lost found here) = true
is_orderly (retry i id nodes e lost gone) = true
is_orderly (wake i id ahead e gone) = true
is_orderly (watch_failed i id nodes e lost) = false
is_orderly (watch_ended i id ahead e) = false
is_orderly (give_up i id deleted e) = false
is_orderly (time_out i id ahead deleted e) = false
is_orderly (release i id e) = true

pub data Reach (path : String) : System → Type 0 where
  begin : Reach path initial
  later : {s t : System} → Reach path s → Step path s t → Reach path t
