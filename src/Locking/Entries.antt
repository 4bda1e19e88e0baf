-- ===== src/Locking/Entries.antt =====
-- cluster/zookeeper/locks.go, with idFromZnode of zookeeper.go: the claims below the lock's path.
use Prim.Native.String.{◌++◌ as append}
use kafka_kit.Base.{
  ℤ, List, [], ◌∷◌, String, Option, none, some, ◌==◌, int_key, if◌then◌else◌, ltb_ℤ, ◌++◌, ◌>>=◌,
}
use kafka_kit.Base.GoMap.{Map, lookup, insert}
use kafka_kit.Base.Sort.{sort}
use kafka_kit.Base.Strconv.{split, atoi}

pub record LockEntries : Type 0 where
  pub id_to_znode : Map ℤ String
  pub id_list : List ℤ

abbrev last_part : List String → String
last_part [] = ""
last_part (p ∷ []) = p
last_part (p ∷ q ∷ ps) = last_part (q ∷ ps)

-- The number behind the last dash; `none` is ErrInvalidSeqNode.
unfoldable pub id_from_znode : String → Option ℤ
id_from_znode s =
    let id = atoi (last_part (split 45 s)) in if id.failed then none else some id.value

-- One child: junk is passed over.
unfoldable pub add_child : String → String → LockEntries → LockEntries
add_child path n le = elim (id_from_znode n) [
  | some id ↦ record {
    id_to_znode = insert id (append path (append "/" n)) le.id_to_znode;
    id_list = le.id_list ++ id ∷ [];
  }
  | none ↦ le
]

unfoldable pub add_children : String → List String → LockEntries → LockEntries
unfolding add_child
add_children path [] le = le
add_children path (n ∷ ns) le = add_children path ns (add_child path n le)

-- The entries of the children that ZooKeeper returned
unfoldable pub locks : String → List String → LockEntries
unfolding add_children
locks path nodes =
    let found = add_children path nodes (record { id_to_znode = []; id_list = [] }) in
    record { id_to_znode = found.id_to_znode; id_list = sort ltb_ℤ found.id_list }

unfoldable pub ids : LockEntries → List ℤ
ids le = le.id_list

abbrev pub head : List ℤ → Option ℤ
head [] = none
head (id ∷ rest) = some id

unfoldable pub first : LockEntries → Option ℤ
unfolding ids
first le = head (ids le)

unfoldable pub lock_path : LockEntries → ℤ → Option String
lock_path le id = lookup id le.id_to_znode

-- The ID in front of the first occurrence that is not the first entry.
unfoldable pub ahead_in : ℤ → List ℤ → Option ℤ
ahead_in id [] = none
ahead_in id (previous ∷ []) = none
ahead_in id (previous ∷ next ∷ rest) =
    let further = ahead_in id (next ∷ rest) in if next == id then some previous else further

unfoldable pub lock_ahead : LockEntries → ℤ → Option ℤ
unfolding ahead_in
lock_ahead le id = ahead_in id le.id_list

-- lockAheadPath of locking.go
unfoldable pub lock_ahead_path : LockEntries → ℤ → Option String
unfolding lock_ahead lock_path
lock_ahead_path le id = lock_ahead le id >>= lock_path le
