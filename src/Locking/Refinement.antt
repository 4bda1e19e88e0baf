-- ===== src/Locking/Refinement.antt =====
-- cluster/zookeeper: the clients over ZooKeeper behave as one mutex that a client takes and frees.
use kafka_kit.Base.{
  ℕ, Bool, true, false, String, Option, none, some, ◌≡◌, ◌≢◌, refl, sym, ◌∙◌, ap, subst, eqb,
  eqb_iff, arith, Bool-cases, inl, inr,
}
use kafka_kit.Locking.System.{
  Stage, idle, waiting, looked, blocked, holding, System, set_stage, Step, claim, look, acquire,
  watch, retry, wake, watch_failed, watch_ended, give_up, time_out, release, Reach, later,
}
use kafka_kit.Locking.Invariant.{set_stage_here}
use kafka_kit.Locking.Mutex.{mutual_exclusion}

-- The abstract lock is its holder. What a client does before and after it holds the lock is no step
-- of it.
pub data MutexStep : Option ℕ → Option ℕ → Type 0 where
  take : (i : ℕ) → MutexStep none (some i)
  free : (i : ℕ) → MutexStep (some i) none
  stay : (h : Option ℕ) → MutexStep h h

-- The holder among the clients' stages
abbrev pub IsHolder : (ℕ → Stage) → Option ℕ → Type 0
IsHolder stage none = (i a : ℕ) → stage i ≢ holding a
IsHolder stage (some i) = (a : ℕ) × (stage i ≡ holding a)

abbrev is_holding : Stage → Bool
is_holding (holding id) = true
is_holding idle = false
is_holding (waiting id) = false
is_holding (looked id nodes) = false
is_holding (blocked id ahead) = false

-- A client that neither holds the lock before nor after
same-IsHolder :
    (stage : ℕ → Stage) (i : ℕ) (st : Stage) (h : Option ℕ)
    → is_holding (stage i) ≡ false
    → is_holding st ≡ false
    → IsHolder stage h
    → IsHolder (set_stage stage i st) h
same-IsHolder stage i st none before after h = λ j a f. elim (Bool-cases (eqb i j)) [
  | inl same ↦
      let here : st ≡ holding a = rw same at f in
      let holds : is_holding st ≡ true = ap is_holding here in cc
  | inr apart ↦ h j a (rw apart at f)
]
same-IsHolder stage i st (some j) before after (a, h) = (
  a,
  elim (Bool-cases (eqb i j)) [
    | inl same ↦
        let path : i ≡ j = (eqb_iff i j).0 same in
        let holds : is_holding (stage j) ≡ true = ap is_holding h in
        let not_before : is_holding (stage j) ≡ false =
          subst (λ (k : ℕ). is_holding (stage k) ≡ false) path before in
        cc
    | inr apart ↦ rw apart h
  ],
)

module _ (path : String) where
  -- Another client's stage after a client's step
  elsewhere :
      (stage : ℕ → Stage) (i j a : ℕ) (st : Stage)
      → is_holding (stage i) ≡ false
      → stage j ≡ holding a
      → set_stage stage i st j ≡ holding a
  elsewhere stage i j a st before h = elim (Bool-cases (eqb i j)) [
    | inl same ↦
        let holds : is_holding (stage i) ≡ true =
          subst (λ (k : ℕ). is_holding (stage k) ≡ true) (sym ((eqb_iff i j).0 same))
            (ap is_holding h) in
        cc
    | inr apart ↦ rw apart h
  ]

  taken :
      (s t : System) (i id : ℕ) (h : Option ℕ)
      → Reach path s
      → Step path s t
      → IsHolder s.stage h
      → is_holding (s.stage i) ≡ false
      → t.stage ≡ set_stage s.stage i (holding id)
      → h ≡ none
  taken s t i id none r step held before after = refl
  taken s t i id (some k) r step (a, held) before after =
      let at = λ (j : ℕ). ap (λ (f : ℕ → Stage). f j) after in
      let mine = at i ∙ set_stage_here s.stage i (holding id) in
      let other = at k ∙ elsewhere s.stage i k a (holding id) before held in
      let same : i ≡ k = mutual_exclusion path i k id a (later r step) mine other in
      let holds : is_holding (s.stage i) ≡ true =
        subst (λ (j : ℕ). is_holding (s.stage j) ≡ true) (sym same) (ap is_holding held) in
      cc

  freed :
      (s : System) (i id : ℕ) (h : Option ℕ)
      → Reach path s
      → s.stage i ≡ holding id
      → IsHolder s.stage h
      → (h ≡ some i) × IsHolder (set_stage s.stage i idle) none
  freed s i id none r e held = absurd (held i id e)
  freed s i id (some k) r e (a, held) = (
    ap some (mutual_exclusion path k i a id r held e),
    λ j b f. elim (Bool-cases (eqb i j)) [
      | inl same ↦ let no_holder : idle ≡ holding b = rw same at f in cc
      | inr apart ↦
          let one : i ≡ j = mutual_exclusion path i j id b r e (rw apart at f) in
          ground (arith, eqb_iff i j)
    ],
  )

  -- Every step of the clients over ZooKeeper is a step of one mutex, or none of it, and the mutex
  -- is always held by the client that believes to hold the lock.
  pub refines_mutex :
      {s t : System} (h : Option ℕ)
      → Reach path s
      → Step path s t
      → IsHolder s.stage h
      → (h' : Option ℕ) × MutexStep h h' × IsHolder t.stage h'
  refines_mutex {s = s} h r (claim i e) held =
      (h, stay h, same-IsHolder s.stage i (waiting s.next) h (ap is_holding e) refl held)
  refines_mutex {s = s} h r (look i id nodes e listing) held =
      (h, stay h, same-IsHolder s.stage i (looked id nodes) h (ap is_holding e) refl held)
  refines_mutex {s = s} h r (acquire i id nodes e won) held =
      let t : System = record {
        claims = s.claims;
        next = s.next;
        stage = set_stage s.stage i (holding id);
      } in
      let none_before = taken s t i id h r (acquire i id nodes e won) held (ap is_holding e) refl in
      (
        some i,
        subst (λ (g : Option ℕ). MutexStep g (some i)) (sym none_before) (take i),
        (id, set_stage_here s.stage i (holding id)),
      )
  refines_mutex {s = s} h r (watch i id ahead nodes e lost found here) held =
      (h, stay h, same-IsHolder s.stage i (blocked id ahead) h (ap is_holding e) refl held)
  refines_mutex {s = s} h r (retry i id nodes e lost gone) held =
      (h, stay h, same-IsHolder s.stage i (waiting id) h (ap is_holding e) refl held)
  refines_mutex {s = s} h r (wake i id ahead e gone) held =
      (h, stay h, same-IsHolder s.stage i (waiting id) h (ap is_holding e) refl held)
  refines_mutex {s = s} h r (watch_failed i id nodes e lost) held =
      (h, stay h, same-IsHolder s.stage i (waiting id) h (ap is_holding e) refl held)
  refines_mutex {s = s} h r (watch_ended i id ahead e) held =
      (h, stay h, same-IsHolder s.stage i (waiting id) h (ap is_holding e) refl held)
  refines_mutex {s = s} h r (time_out i id ahead deleted e) held =
      (h, stay h, same-IsHolder s.stage i idle h (ap is_holding e) refl held)
  refines_mutex {s = s} h r (give_up i id deleted e) held =
      (h, stay h, same-IsHolder s.stage i idle h (ap is_holding e) refl held)
  refines_mutex {s = s} h r (release i id e) held =
      let (mine, after) = freed s i id h r e held in
      (none, subst (λ (g : Option ℕ). MutexStep g none) (sym mine) (free i), after)
