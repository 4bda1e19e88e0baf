-- ===== src/Locking/Client/Returns.antt =====
-- cluster/zookeeper/locking.go: what a call of Lock comes to, and when its loop must end.
use kafka_kit.Base.{
  ℕ, suc, ◌+◌, ◌≤◌, ◌<◌, ℤ, Bool, true, false, ◌&&◌, not, List, [], ◌∷◌, length, String, int_key,
  Option, none, some, ◌≡◌, ◌⊎◌, inl, inr, refl, ◌∙◌, subst, ◌==◌, if◌then◌else◌, if_ind, ltb, arith,
  Bool-cases, Option-cases,
}
use kafka_kit.Locking.Entries.{LockEntries, id_from_znode, locks}
use kafka_kit.Locking.Client.{
  LockState, LockError, Answers, Attempt, Outcome, again, acquired, gave_up, first_claim, Expiry,
  expired, not_expired, expire_failed, expire_lock_ahead, get_lock_ahead_wait, wait_ahead, enqueue,
  try_lock, iteration, LockResult, unlocked, lock_loop, lock_claimed, on_expiry, on_children,
  bumped,
}

-- The loop's next variables: the same claim, and an error that it has met stays.
abbrev IsNext : Attempt → Outcome → Type 0
IsNext at (again next cleared) =
    (next.this_id ≡ at.this_id)
    × (next.interval ≡ at.interval)
    × (at.waiting_err ≡ true → next.waiting_err ≡ true)
IsNext at (acquired znode) = ⊥
IsNext at (gave_up e) = Unit

wait_ahead-IsNext : (le : LockEntries) (at : Attempt) (a : Answers) → IsNext at (wait_ahead le at a)
unfolding wait_ahead
wait_ahead-IsNext le at a =
    if_ind (IsNext at) (not (get_lock_ahead_wait le at.this_id a)) _ _
      (λ e. (refl, refl, λ h. refl))
      (λ e. if_ind (IsNext at) a.timed_out _ _ (λ f. tt) (λ f. (refl, refl, λ h. h)))

on_expiry-IsNext :
    (le : LockEntries) (at : Attempt) (a : Answers) (x : Expiry) → IsNext at (on_expiry le at a x)
unfolding on_expiry
on_expiry-IsNext le at a expire_failed = (refl, refl, λ h. refl)
on_expiry-IsNext le at a expired = (refl, refl, λ h. h)
on_expiry-IsNext le at a not_expired = wait_ahead-IsNext le at a

enqueue-IsNext :
    (ttl : ℕ) (le : LockEntries) (at : Attempt) (a : Answers) → IsNext at (enqueue ttl le at a)
unfolding enqueue
enqueue-IsNext ttl le at a = on_expiry-IsNext le at a (expire_lock_ahead ttl le at.this_id a)

-- The children that an iteration was answered have the claim in front.
abbrev pub IsServed : String → ℤ → Answers → Type 0
IsServed path id a =
    (nodes : List String) × (a.children ≡ some nodes)
    × ((id == first_claim (locks path nodes)) ≡ true)

-- What an iteration may come to
abbrev IsIterated : String → Attempt → Answers → Outcome → Type 0
IsIterated path at a (again next cleared) =
    (next.this_id ≡ at.this_id)
    × (next.interval ≡ suc at.interval)
    × (at.waiting_err ≡ true → next.waiting_err ≡ true)
IsIterated path at a (acquired znode) = IsServed path at.this_id a
IsIterated path at a (gave_up e) = Unit

queued-IsIterated :
    (path : String) (at : Attempt) (a : Answers) (o : Outcome)
    → IsNext (bumped at) o
    → IsIterated path at a o
queued-IsIterated path at a (again next cleared) h = h
queued-IsIterated path at a (acquired znode) h = absurd h
queued-IsIterated path at a (gave_up e) h = tt

on_children-IsIterated :
    (path : String) (ttl : ℕ) (at : Attempt) (a : Answers) (answer : Option (List String))
    → a.children ≡ answer
    → IsIterated path at a (on_children path ttl (bumped at) a answer)
unfolding on_children try_lock
on_children-IsIterated path ttl at a none e = tt
on_children-IsIterated path ttl at a (some nodes) e =
    let le = locks path nodes in
    if_ind (IsIterated path at a) (at.this_id == first_claim le) _ _ (λ g. (nodes, e, g))
      (λ g.
        queued-IsIterated path at a (enqueue ttl le (bumped at) a)
          (enqueue-IsNext ttl le (bumped at) a))

iteration-IsIterated :
    (path : String) (ttl : ℕ) (at : Attempt) (a : Answers)
    → IsIterated path at a (iteration path ttl at a)
unfolding iteration
iteration-IsIterated path ttl at a =
    if_ind (IsIterated path at a) (ltb 5 (suc at.interval) && at.waiting_err) _ _ (λ e. tt)
      (λ e. on_children-IsIterated path ttl at a a.children refl)

-- Some iteration was served.
abbrev pub IsServedIn : String → ℤ → List Answers → Type 0
IsServedIn path id [] = ⊥
IsServedIn path id (a ∷ rest) = IsServed path id a ⊎ IsServedIn path id rest

-- Either the lock is taken and the claim stays, or there is an error and the claim is removed.
abbrev pub IsReturned : String → ℤ → List Answers → Option LockResult → Type 0
IsReturned path id answers none = Unit
IsReturned path id answers (some r) =
    ((r.error ≡ none) × (r.removes_znode ≡ false) × IsServedIn path id answers)
    ⊎ ((e : LockError) × (r.error ≡ some e) × (r.removes_znode ≡ true))

Outcome-cases :
    (o : Outcome)
    → ((next : Attempt) × (cleared : Bool) × (o ≡ again next cleared))
      ⊎ (((znode : String) × (o ≡ acquired znode)) ⊎ ((e : LockError) × (o ≡ gave_up e)))
Outcome-cases (again next cleared) = inl (next, cleared, refl)
Outcome-cases (acquired znode) = inr (inl (znode, refl))
Outcome-cases (gave_up e) = inr (inr (e, refl))

IsReturned-cons :
    (path : String) (id : ℤ) (a : Answers) (rest : List Answers) (r : Option LockResult)
    → IsReturned path id rest r
    → IsReturned path id (a ∷ rest) r
IsReturned-cons path id a rest none h = tt
IsReturned-cons path id a rest (some r) (inl (e, f, served)) = inl (e, f, inr served)
IsReturned-cons path id a rest (some r) (inr h) = inr h

lock_loop-IsReturned :
    (path : String) (ttl : ℕ) (owner : Option String) (at : Attempt) (z : LockState)
    (answers : List Answers)
    → IsReturned path at.this_id answers (lock_loop path ttl owner at z answers)
unfolding lock_loop
lock_loop-IsReturned path ttl owner at z [] = tt
lock_loop-IsReturned path ttl owner at z (a ∷ rest) =
    let step = iteration-IsIterated path ttl at a in
    elim (Outcome-cases (iteration path ttl at a)) [
      | inl (next, cleared, e) ↦
          let z' = if cleared then unlocked else z in
          let (same, count, stays) = subst (IsIterated path at a) e step in
          rw (lock_loop, e)
            (subst
              (λ (id : ℤ). IsReturned path id (a ∷ rest) (lock_loop path ttl owner next z' rest))
              same
              (IsReturned-cons path next.this_id a rest (lock_loop path ttl owner next z' rest)
                (lock_loop-IsReturned path ttl owner next z' rest)))
      | inr (inl (znode, e)) ↦
          rw (lock_loop, e) (inl (refl, refl, inl (subst (IsIterated path at a) e step)))
      | inr (inr (err, e)) ↦ rw (lock_loop, e) (inr (err, refl, refl))
    ]

-- A call of Lock with a claim that returns has the lock, keeps its claim and has seen it in front
-- of all children, or it returns an error and removes its claim.
pub lock_claimed-IsReturned :
    (path : String) (ttl : ℕ) (owner : Option String) (node : String) (id : ℤ) (z : LockState)
    (answers : List Answers)
    → id_from_znode node ≡ some id
    → IsReturned path id answers (lock_claimed path ttl owner node z answers)
unfolding lock_claimed
lock_claimed-IsReturned path ttl owner node id z answers e =
    rw (lock_claimed, e)
      (lock_loop-IsReturned path ttl owner
        (record { this_id = id; interval = 0; waiting_err = false }) z answers)

-- With an error, an iteration beyond the fifth does not go on.
not_last :
    (path : String) (ttl : ℕ) (at : Attempt) (a : Answers) (next : Attempt) (cleared : Bool)
    → at.waiting_err ≡ true
    → iteration path ttl at a ≡ again next cleared
    → at.interval < 5
unfolding iteration
not_last path ttl at a next cleared err e = elim (Bool-cases (ltb 5 (suc at.interval))) [
  | inl late ↦
      let stopped : gave_up LockError.locking_failed ≡ again next cleared =
        rw (iteration, late, err) at e in
      cc
  | inr early ↦ ground arith
]

lock_loop_again :
    (path : String) (ttl : ℕ) (owner : Option String) (at next : Attempt) (z : LockState)
    (a : Answers) (rest : List Answers) (cleared : Bool)
    → iteration path ttl at a ≡ again next cleared
    → lock_loop path ttl owner at z (a ∷ rest)
      ≡ lock_loop path ttl owner next (if cleared then unlocked else z) rest
unfolding lock_loop
lock_loop_again path ttl owner at next z a rest cleared e = rw (lock_loop, e) refl

-- Once an iteration has met an error while it waits, the loop returns by the sixth iteration,
-- whether later waits go well or not.
pub lock_loop_bound :
    (path : String) (ttl : ℕ) (owner : Option String) (at : Attempt) (z : LockState)
    (answers : List Answers)
    → at.waiting_err ≡ true
    → at.interval ≤ 5
    → 6 ≤ length answers + at.interval
    → (r : LockResult) × (lock_loop path ttl owner at z answers ≡ some r)
unfolding lock_loop
lock_loop_bound path ttl owner at z [] err low enough = absurd (omega (arith, low, enough))
lock_loop_bound path ttl owner at z (a ∷ rest) err low enough =
    let step = iteration-IsIterated path ttl at a in
    elim (Outcome-cases (iteration path ttl at a)) [
      | inl (next, cleared, e) ↦
          let (same, count, stays) = subst (IsIterated path at a) e step in
          let below : at.interval < 5 = not_last path ttl at a next cleared err e in
          let z' = if cleared then unlocked else z in
          let (r, found) =
            lock_loop_bound path ttl owner next z' rest (stays err) (omega (arith, count, below))
              (omega (arith, count, enough)) in
          (r, lock_loop_again path ttl owner at next z a rest cleared e ∙ found)
      | inr (inl (znode, e)) ↦ elim (Option-cases (lock_loop path ttl owner at z (a ∷ rest))) [
        | inl n ↦ let impossible = rw (lock_loop, e) at n in cc
        | inr found ↦ found
      ]
      | inr (inr (err', e)) ↦ elim (Option-cases (lock_loop path ttl owner at z (a ∷ rest))) [
        | inl n ↦ let impossible = rw (lock_loop, e) at n in cc
        | inr found ↦ found
      ]
    ]
