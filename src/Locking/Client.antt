-- ===== src/Locking/Client.antt =====
-- cluster/zookeeper/locking.go: Lock, Unlock and the iteration of Lock's loop, on the answers that
-- ZooKeeper and the clock give. A text stands for an owner.
pub mod Returns
use kafka_kit.Base.{
  ℕ, suc, ℤ, pos, Bool, true, false, ◌&&◌, not, List, [], ◌∷◌, String, string_key, int_key, Option,
  none, some, ◌==◌, if◌then◌else◌, ltb, eqb, take,
}
use kafka_kit.Locking.Entries.{LockEntries, id_from_znode, locks, first, lock_path, lock_ahead_path}

-- What a ZooKeeperLock remembers of the lock that it holds.
pub record LockState : Type 0 where
  pub lock_znode : String
  pub owner : Option String

pub data LockError : Type 0 where
  already_own_lock : LockError
  locking_failed : LockError
  locking_timed_out : LockError
  not_lock_owner : LockError
  unlocking_failed : LockError

-- What one iteration is answered: the children or an error; the metadata's deadline or an error,
-- the time, and whether the purge and the watch succeed; whether the context ends first.
pub record Answers : Type 0 where
  pub children : Option (List String)
  pub deadline : Option ℕ
  pub now : ℕ
  pub purged : Bool
  pub watched : Bool
  pub timed_out : Bool

-- The loop's variables
pub record Attempt : Type 0 where
  pub this_id : ℤ
  pub interval : ℕ
  pub waiting_err : Bool

-- The end of an iteration: the loop goes on, perhaps with the lock state cleared, or returns.
pub data Outcome : Type 0 where
  again : Attempt → Bool → Outcome
  acquired : String → Outcome
  gave_up : LockError → Outcome

-- firstClaim, _ := locks.First(): without entries it is 0.
abbrev pub first_claim : LockEntries → ℤ
first_claim le = elim (first le) [ some id ↦ id | none ↦ pos 0 ]

abbrev path_or_empty : Option String → String
path_or_empty none = ""
path_or_empty (some p) = p

pub data Expiry : Type 0 where
  expired : Expiry
  not_expired : Expiry
  expire_failed : Expiry

unfoldable pub expire_lock_ahead : ℕ → LockEntries → ℤ → Answers → Expiry
expire_lock_ahead ttl le id a =
    if eqb ttl 0 then Expiry.not_expired else elim (lock_ahead_path le id) [
      | none ↦ Expiry.expire_failed
      | some path ↦ elim a.deadline [
        | none ↦ Expiry.expire_failed
        | some deadline ↦
            if ltb a.now deadline
            then Expiry.not_expired
            else if a.purged
            then Expiry.expired
            else Expiry.expire_failed
      ]
    ]

-- Whether there is a watch on the lock ahead
unfoldable pub get_lock_ahead_wait : LockEntries → ℤ → Answers → Bool
get_lock_ahead_wait le id a = elim (lock_ahead_path le id) [ some path ↦ a.watched | none ↦ false ]

abbrev with_error : Attempt → Attempt
with_error at = record { this_id = at.this_id; interval = at.interval; waiting_err = true }

unfoldable pub wait_ahead : LockEntries → Attempt → Answers → Outcome
unfolding get_lock_ahead_wait
wait_ahead le at a =
    if not (get_lock_ahead_wait le at.this_id a)
    then Outcome.again (with_error at) false
    else if a.timed_out
    then Outcome.gave_up LockError.locking_timed_out
    else Outcome.again at false

-- After the lock ahead has been looked at: the next iteration, or the wait
unfoldable pub on_expiry : LockEntries → Attempt → Answers → Expiry → Outcome
unfolding wait_ahead
on_expiry le at a Expiry.expire_failed = Outcome.again (with_error at) false
on_expiry le at a Expiry.expired = Outcome.again at true
on_expiry le at a Expiry.not_expired = wait_ahead le at a

unfoldable pub enqueue : ℕ → LockEntries → Attempt → Answers → Outcome
unfolding expire_lock_ahead on_expiry
enqueue ttl le at a = on_expiry le at a (expire_lock_ahead ttl le at.this_id a)

unfoldable pub try_lock : ℕ → LockEntries → Attempt → Answers → Outcome
unfolding enqueue
try_lock ttl le at a =
    if at.this_id == first_claim le
    then Outcome.acquired (path_or_empty (lock_path le at.this_id))
    else enqueue ttl le at a

-- With the answer of locks()
unfoldable pub on_children : String → ℕ → Attempt → Answers → Option (List String) → Outcome
unfolding try_lock locks
on_children path ttl at a none = Outcome.gave_up LockError.locking_failed
on_children path ttl at a (some nodes) = try_lock ttl (locks path nodes) at a

abbrev pub bumped : Attempt → Attempt
bumped at = record {
  this_id = at.this_id;
  interval = suc at.interval;
  waiting_err = at.waiting_err;
}

-- One iteration of Lock's loop
unfoldable pub iteration : String → ℕ → Attempt → Answers → Outcome
unfolding on_children
iteration path ttl at a =
    if ltb 5 (suc at.interval) && at.waiting_err
    then Outcome.gave_up LockError.locking_failed
    else on_children path ttl (bumped at) a a.children

-- What Lock returns: its error, the state that it leaves, and whether it removes its claim.
pub record LockResult : Type 0 where
  pub error : Option LockError
  pub state : LockState
  pub removes_znode : Bool

abbrev pub unlocked : LockState
unlocked = record { lock_znode = ""; owner = none }

abbrev set_owner : Option String → Option String → Option String
set_owner (some owner) before = some owner
set_owner none before = before

-- Lock's loop, for as long as answers come.
unfoldable pub lock_loop :
    String → ℕ → Option String → Attempt → LockState → List Answers → Option LockResult
unfolding iteration
lock_loop path ttl owner at z [] = none
lock_loop path ttl owner at z (a ∷ rest) = elim (iteration path ttl at a) [
  | again next cleared ↦ lock_loop path ttl owner next (if cleared then unlocked else z) rest
  | acquired znode ↦ some (record {
    error = none;
    state = record { lock_znode = znode; owner = set_owner owner z.owner };
    removes_znode = false;
  })
  | gave_up e ↦ some (record { error = some e; state = z; removes_znode = true })
]

abbrev is_owner : Option String → Option String → Bool
is_owner (some a) (some b) = a == b
is_owner (some a) none = false
is_owner none b = false

-- owner != nil && owner != z.Owner()
abbrev is_other : Option String → Option String → Bool
is_other none b = false
is_other (some a) b = not (is_owner (some a) b)

abbrev failed_with : LockError → LockState → Bool → Option LockResult
failed_with e z removes = some (record { error = some e; state = z; removes_znode = removes })

-- With the claim that ZooKeeper has created
unfoldable pub lock_claimed :
    String → ℕ → Option String → String → LockState → List Answers → Option LockResult
unfolding lock_loop id_from_znode
lock_claimed path ttl owner node z answers = elim (id_from_znode node) [
  | none ↦ failed_with LockError.locking_failed z true
  | some id ↦
      lock_loop path ttl owner (record { this_id = id; interval = 0; waiting_err = false }) z
        answers
]

-- Lock, with the context's owner and the created znode or an error
unfoldable pub lock :
    String → ℕ → Option String → Option String → LockState → List Answers → Option LockResult
unfolding lock_claimed
lock path ttl owner created z answers =
    if is_owner owner z.owner
    then failed_with LockError.already_own_lock z false
    else elim created [
      | none ↦ failed_with LockError.locking_failed z true
      | some node ↦ lock_claimed path ttl owner node z answers
    ]

-- Whether one of the deletes of the znode succeeds
abbrev any_deleted : List Bool → Bool
any_deleted [] = false
any_deleted (d ∷ ds) = if d then true else any_deleted ds

-- Unlock, with the answers to its three deletes
unfoldable pub unlock : Option String → LockState → List Bool → Option LockError × LockState
unlock owner z deletes =
    if is_other owner z.owner
    then (some LockError.not_lock_owner, z)
    else if any_deleted (take 3 deletes)
    then (none, unlocked)
    else (some LockError.unlocking_failed, z)
