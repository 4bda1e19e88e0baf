-- ===== src/Locking/Tests.antt =====
-- The lock's theorems at concrete inputs: two clients, of which the first gets the lock.
use mathlib.Core.List.Perm
use kafka_kit.Base.{
  ℕ, pos, true, false, List, [], ◌∷◌, String, int_key, nat_key, Option, none, some, ◌≡◌, refl, ◌<◌,
  arith, eqb_iff,
}
use kafka_kit.Base.GoMap.{contains, insert, lookup}
use kafka_kit.Base.Sort.{sort}
use kafka_kit.Base.Strconv.{split, atoi}
use kafka_kit.Locking.Entries.{id_from_znode, locks, first, lock_ahead, lock_ahead_path}
use kafka_kit.Locking.Client.{
  LockError, Answers, Attempt, LockResult, unlocked, lock_loop, lock_claimed,
}
use kafka_kit.Locking.Client.Returns.{IsReturned, lock_claimed-IsReturned, lock_loop_bound}
use kafka_kit.Locking.System.{
  idle, waiting, looked, blocked, holding, System, set_stage, remove_claim, ids_in, IsListing,
  claim, look, acquire, watch, release, Reach, begin, later,
}
use kafka_kit.Locking.Invariant.{claim_of}
use kafka_kit.Locking.Mutex.{mutual_exclusion, no_overtaking}
use kafka_kit.Locking.Refinement.{MutexStep, IsHolder, refines_mutex}
use kafka_kit.Locking.Progress.{Steps, no_deadlock}

abbrev path : String
path = "/lock"

abbrev nodes : List String
nodes = "_c_b-lock-0000000001" ∷ "_c_a-lock-0000000000" ∷ []

abbrev queued : System
queued = record {
  claims = 1 ∷ 0 ∷ [];
  next = 2;
  stage = set_stage (set_stage (λ i. idle) 0 (waiting 0)) 1 (waiting 1);
}

queued-Reach : Reach path queued
queued-Reach = later (later begin (claim 0 refl)) (claim 1 refl)

nodes-IsListing : IsListing (1 ∷ 0 ∷ []) nodes
unfolding ids_in id_from_znode split atoi
nodes-IsListing = Perm.rfl

abbrev held : System
held = record {
  claims = 1 ∷ 0 ∷ [];
  next = 2;
  stage = set_stage (set_stage queued.stage 0 (looked 0 nodes)) 0 (holding 0);
}

held-Reach : Reach path held
unfolding first locks sort id_from_znode split atoi insert
held-Reach =
    later (later queued-Reach (look 0 0 nodes refl nodes-IsListing)) (acquire 0 0 nodes refl refl)

mutual_exclusion_example : ◌≡◌ {A = ℕ} 0 0
mutual_exclusion_example = mutual_exclusion path 0 0 0 0 held-Reach refl refl

no_overtaking_example : 0 < 1
no_overtaking_example = no_overtaking path 0 1 0 1 held-Reach refl refl refl

refines_mutex_example :
    (h : Option ℕ) × MutexStep (some 0) h × IsHolder (set_stage held.stage 0 idle) h
refines_mutex_example =
    refines_mutex path {s = held}
      {t = record {
        claims = remove_claim 0 held.claims;
        next = 2;
        stage = set_stage held.stage 0 idle;
      }}
      (some 0) held-Reach (release 0 0 refl) (0, refl)

-- The second client waits for the first one, which then unlocks.
abbrev left : System
left = record {
  claims = remove_claim 0 (1 ∷ 0 ∷ []);
  next = 2;
  stage = set_stage (set_stage (set_stage held.stage 1 (looked 1 nodes)) 1 (blocked 1 0)) 0 idle;
}

left-Reach : Reach path left
unfolding first locks sort id_from_znode split atoi insert contains lock_ahead
left-Reach =
    later
      (later (later held-Reach (look 1 1 nodes refl nodes-IsListing))
        (watch 1 1 0 nodes refl refl refl refl))
      (release 0 0 refl)

abbrev one_node : List String
one_node = "_c_b-lock-0000000001" ∷ []

one_node-IsListing : IsListing left.claims one_node
unfolding ids_in id_from_znode split atoi remove_claim
one_node-IsListing = Perm.rfl

left_owned : (c : ℕ) → contains c left.claims ≡ true → (i : ℕ) × (claim_of (left.stage i) ≡ some c)
unfolding contains remove_claim
left_owned c h = (1, ground (arith, eqb_iff 1 c))

no_deadlock_example : (i id : ℕ) × (t : System) × Steps path left t × (t.stage i ≡ holding id)
unfolding remove_claim
no_deadlock_example =
    no_deadlock path left 1 [] one_node left-Reach refl one_node-IsListing left_owned

-- The lock ahead is there at first, then the claim is in front.
abbrev waited : Answers
waited = record {
  children = some nodes;
  deadline = none;
  now = 0;
  purged = false;
  watched = true;
  timed_out = false;
}

abbrev served : Answers
served = record {
  children = some ("_c_b-lock-0000000001" ∷ []);
  deadline = none;
  now = 0;
  purged = false;
  watched = true;
  timed_out = false;
}

second_served :
    lock_claimed path 0 none "_c_b-lock-0000000001" unlocked (waited ∷ served ∷ [])
    ≡ some (record {
      error = none;
      state = record { lock_znode = "/lock/_c_b-lock-0000000001"; owner = none };
      removes_znode = false;
    })
unfolding lock_claimed first locks sort id_from_znode split atoi insert lookup lock_ahead_path
second_served = refl

lock_claimed-IsReturned_example :
    IsReturned path
      (pos 1)
      (waited ∷ served ∷ [])
      (lock_claimed path 0 none "_c_b-lock-0000000001" unlocked (waited ∷ served ∷ []))
unfolding id_from_znode split atoi
lock_claimed-IsReturned_example =
    lock_claimed-IsReturned path 0 none "_c_b-lock-0000000001" (pos 1) unlocked
      (waited ∷ served ∷ []) refl

abbrev after_error : Attempt
after_error = record { this_id = pos 1; interval = 3; waiting_err = true }

lock_loop_bound_example :
    (r : LockResult) × (lock_loop path 0 none after_error unlocked (waited ∷ waited ∷ waited ∷ [])
      ≡ some r)
lock_loop_bound_example =
    lock_loop_bound path 0 none after_error unlocked (waited ∷ waited ∷ waited ∷ []) refl
      (omega arith) (omega arith)

-- A wait that goes well does not clear an earlier error: the sixth iteration fails.
healthy_waits_fail :
    lock_loop path 0 none after_error unlocked (waited ∷ waited ∷ served ∷ [])
    ≡ some
        (record { error = some LockError.locking_failed; state = unlocked; removes_znode = true })
unfolding lock_loop first locks sort id_from_znode split atoi insert lookup lock_ahead_path
healthy_waits_fail = refl
