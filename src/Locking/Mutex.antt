-- ===== src/Locking/Mutex.antt =====
-- cluster/zookeeper: the invariant in every reachable state, and what it gives: one holder at a
-- time, in the order of the claims, and a client that can go on.
use kafka_kit.Base.{
  ℕ, ◌<◌, true, false, String, some, ◌≡◌, ◌≢◌, sym, ◌∙◌, ap, subst, int_key, nat_key, eqb, eqb_iff,
  arith, Bool-cases, inl, inr,
}
use kafka_kit.Locking.System.{
  idle, waiting, looked, blocked, holding, System, set_stage, remove_claim, Step, claim, look,
  acquire, watch, retry, wake, watch_failed, watch_ended, give_up, time_out, release, Reach, begin,
  later,
}
use kafka_kit.Locking.Invariant.{
  claim_of, IsCurrent, Inv, contains-remove_claim, copies-remove_claim, initial-Inv, keep_claim,
  leave, new_claim,
}
use kafka_kit.Locking.First.{first_claim-IsFirst}
use kafka_kit.Locking.Ahead.{lock_ahead-less}

module _ (path : String) where
  removed :
      (s : System) (i id : ℕ)
      → Inv path s
      → claim_of (s.stage i) ≡ some id
      → Inv path (record {
        claims = remove_claim id s.claims;
        next = s.next;
        stage = set_stage s.stage i idle;
      })
  removed s i id inv e =
      leave path s i (remove_claim id s.claims) inv
        (λ c k. ground (arith, contains-remove_claim id c s.claims))
        (λ c. copies-remove_claim id c s.claims)
        (λ j id' apart f. elim (Bool-cases (eqb id id')) [
          | inl same ↦
              let path' : id ≡ id' = (eqb_iff id id').0 same in
              let one : i ≡ j = inv.unique i j id' (e ∙ ap some path') f in
              absurd (ground (arith, eqb_iff i j))
          | inr other ↦ ground (arith, contains-remove_claim id id' s.claims, inv.present j id' f)
        ])

  -- A client returns and leaves its claim behind.
  kept_claims :
      (s : System) (i : ℕ)
      → Inv path s
      → Inv path (record { claims = s.claims; next = s.next; stage = set_stage s.stage i idle })
  kept_claims s i inv =
      leave path s i s.claims inv (λ c k. k) (λ c. omega arith) (λ j id apart f. inv.present j id f)

  pub Step-Inv : {s t : System} → Inv path s → Step path s t → Inv path t
  Step-Inv {s = s} inv (claim i e) = new_claim path s i inv
  Step-Inv {s = s} inv (look i id nodes e listing) =
      keep_claim path s i (looked id nodes) inv (sym (ap claim_of e)) (
        first_claim-IsFirst path s.claims nodes id listing,
        λ ahead. lock_ahead-less path s.claims nodes id ahead listing (inv.once id),
      )
  Step-Inv {s = s} inv (acquire i id nodes e won) =
      keep_claim path s i (holding id) inv (sym (ap claim_of e))
        ((subst (IsCurrent path s.claims) e (inv.current i)).0 won)
  Step-Inv {s = s} inv (watch i id ahead nodes e lost found here) =
      keep_claim path s i (blocked id ahead) inv (sym (ap claim_of e))
        ((subst (IsCurrent path s.claims) e (inv.current i)).1 ahead found)
  Step-Inv {s = s} inv (retry i id nodes e lost gone) =
      keep_claim path s i (waiting id) inv (sym (ap claim_of e)) tt
  Step-Inv {s = s} inv (wake i id ahead e gone) =
      keep_claim path s i (waiting id) inv (sym (ap claim_of e)) tt
  Step-Inv {s = s} inv (watch_failed i id nodes e lost) =
      keep_claim path s i (waiting id) inv (sym (ap claim_of e)) tt
  Step-Inv {s = s} inv (watch_ended i id ahead e) =
      keep_claim path s i (waiting id) inv (sym (ap claim_of e)) tt
  Step-Inv {s = s} inv (give_up i id true e) = removed s i id inv (ap claim_of e)
  Step-Inv {s = s} inv (give_up i id false e) = kept_claims s i inv
  Step-Inv {s = s} inv (time_out i id ahead true e) = removed s i id inv (ap claim_of e)
  Step-Inv {s = s} inv (time_out i id ahead false e) = kept_claims s i inv
  Step-Inv {s = s} inv (release i id e) = removed s i id inv (ap claim_of e)

  pub Reach-Inv : {s : System} → Reach path s → Inv path s
  Reach-Inv begin = initial-Inv path
  Reach-Inv (later r step) = Step-Inv (Reach-Inv r) step

-- Two clients never hold the lock at the same time.
pub mutual_exclusion :
    (path : String) {s : System} (i j a b : ℕ)
    → Reach path s
    → s.stage i ≡ holding a
    → s.stage j ≡ holding b
    → i ≡ j
mutual_exclusion path {s = s} i j a b r e f =
    let inv = Reach-Inv path r in
    let here = inv.present i a (ap claim_of e) in
    let there = inv.present j b (ap claim_of f) in
    let one = subst (IsCurrent path s.claims) e (inv.current i) b there in
    let two = subst (IsCurrent path s.claims) f (inv.current j) a here in
    let same : a ≡ b = omega (arith, one, two) in
    inv.unique i j b (ap claim_of e ∙ ap some same) (ap claim_of f)

-- Clients hold the lock in the order of their claims: every other client that waits while one holds
-- the lock has made its claim later.
pub no_overtaking :
    (path : String) {s : System} (i j a b : ℕ)
    → Reach path s
    → s.stage i ≡ holding a
    → claim_of (s.stage j) ≡ some b
    → eqb i j ≡ false
    → a < b
no_overtaking path {s = s} i j a b r e f apart =
    let inv = Reach-Inv path r in
    let least = subst (IsCurrent path s.claims) e (inv.current i) b (inv.present j b f) in
    let differ : a ≢ b = λ same.
      let one = inv.unique i j b (ap claim_of e ∙ ap some same) f in ground (arith, eqb_iff i j) in
    omega (arith, least, differ)
