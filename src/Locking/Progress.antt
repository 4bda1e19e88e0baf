-- ===== src/Locking/Progress.antt =====
-- cluster/zookeeper: while somebody claims the lock, somebody gets it.
use kafka_kit.Base.{
  ℕ, ◌<◌, pos, false, true, List, [], ◌∷◌, String, some, ◌≡◌, refl, sym, ◌∙◌, ap, subst, ◌==◌,
  int_key, nat_key, eqb, leb, arith, Bool-cases, inl, inr,
}
use kafka_kit.Base.GoMap.{contains}
use kafka_kit.Locking.Entries.{locks, lock_ahead}
use kafka_kit.Locking.Client.{first_claim}
use kafka_kit.Locking.System.{
  Stage, idle, waiting, looked, blocked, holding, System, set_stage, IsListing, Step, look, acquire,
  retry, wake, is_orderly, Reach,
}
use kafka_kit.Locking.Invariant.{claim_of, IsFirst, IsCurrent, set_stage_here}
use kafka_kit.Locking.First.{IsFirst-first_claim}
use kafka_kit.Locking.Mutex.{Reach-Inv}

-- Orderly steps from one state to another
pub data Steps (path : String) (s : System) : System → Type 0 where
  here : Steps path s s
  after :
      {t u : System}
      → Steps path s t
      → (step : Step path t u) → is_orderly step ≡ true
      → Steps path s u

-- Some claim has the smallest number.
least_claim :
    (d : ℕ) (claims : List ℕ)
    → (id : ℕ) × (contains id (d ∷ claims) ≡ true) × IsFirst id (d ∷ claims)
unfolding contains
least_claim d [] = (d, ground arith, λ c k. ground arith)
least_claim d (e ∷ claims) =
    let (id, found, least) = least_claim e claims in
    elim (Bool-cases (leb d id)) [
      | inl le ↦ (
        d,
        ground arith,
        λ c k. elim (Bool-cases (eqb d c)) [
          | inl same ↦ ground arith
          | inr other ↦ ground (arith, least c (ground arith))
        ],
      )
      | inr gt ↦ (
        id,
        ground arith,
        λ c k. elim (Bool-cases (eqb d c)) [
          | inl same ↦ ground arith
          | inr other ↦ least c (ground arith)
        ],
      )
    ]

-- A claim with a smaller number than the first one has gone.
gone_ahead :
    (id ahead : ℕ) (claims : List ℕ)
    → IsFirst id claims
    → ahead < id
    → contains ahead claims ≡ false
gone_ahead id ahead claims least lt = elim (Bool-cases (contains ahead claims)) [
  | inl e ↦ let le = least ahead e in absurd (omega (arith, le, lt))
  | inr e ↦ e
]

module _ (path : String) {origin : System} where
  from_waiting :
      (s : System) (i id : ℕ) (nodes : List String)
      → Steps path origin s
      → s.stage i ≡ waiting id
      → IsListing s.claims nodes
      → contains id s.claims ≡ true
      → IsFirst id s.claims
      → (t : System) × Steps path origin t × (t.stage i ≡ holding id)
  from_waiting s i id nodes before e listing found least =
      let seen : System = record {
        claims = s.claims;
        next = s.next;
        stage = set_stage s.stage i (looked id nodes);
      } in
      let won = IsFirst-first_claim path s.claims nodes id listing found least in
      (
        record { claims = s.claims; next = s.next; stage = set_stage seen.stage i (holding id) },
        after (after before (look i id nodes e listing) refl)
            (acquire i id nodes (set_stage_here s.stage i (looked id nodes)) won) refl,
        set_stage_here seen.stage i (holding id),
      )

  from_blocked :
      (s : System) (i id ahead : ℕ) (nodes : List String)
      → Steps path origin s
      → s.stage i ≡ blocked id ahead
      → IsCurrent path s.claims (blocked id ahead)
      → IsListing s.claims nodes
      → contains id s.claims ≡ true
      → IsFirst id s.claims
      → (t : System) × Steps path origin t × (t.stage i ≡ holding id)
  from_blocked s i id ahead nodes before e current listing found least =
      from_waiting
        (record { claims = s.claims; next = s.next; stage = set_stage s.stage i (waiting id) }) i id
        nodes (after before (wake i id ahead e (gone_ahead id ahead s.claims least current)) refl)
        (set_stage_here s.stage i (waiting id)) listing found least

  from_looked :
      (s : System) (i id : ℕ) (seen nodes : List String)
      → Steps path origin s
      → s.stage i ≡ looked id seen
      → IsCurrent path s.claims (looked id seen)
      → IsListing s.claims nodes
      → contains id s.claims ≡ true
      → IsFirst id s.claims
      → (t : System) × Steps path origin t × (t.stage i ≡ holding id)
  from_looked s i id seen nodes before e current listing found least =
      let gone = λ (ahead : ℕ) (h : lock_ahead (locks path seen) (pos id) ≡ some (pos ahead)).
        gone_ahead id ahead s.claims least (current.1 ahead h) in
      elim (Bool-cases (pos id == first_claim (locks path seen))) [
        | inl won ↦ (
          record { claims = s.claims; next = s.next; stage = set_stage s.stage i (holding id) },
          after before (acquire i id seen e won) refl,
          set_stage_here s.stage i (holding id),
        )
        | inr lost ↦
            from_waiting
              (record {
                claims = s.claims;
                next = s.next;
                stage = set_stage s.stage i (waiting id);
              })
              i id nodes (after before (retry i id seen e lost gone) refl)
              (set_stage_here s.stage i (waiting id)) listing found least
      ]

  from_stage :
      (s : System) (i id : ℕ) (nodes : List String) (st : Stage)
      → Steps path origin s
      → s.stage i ≡ st
      → IsCurrent path s.claims st
      → claim_of st ≡ some id
      → IsListing s.claims nodes
      → contains id s.claims ≡ true
      → IsFirst id s.claims
      → (t : System) × Steps path origin t × (t.stage i ≡ holding id)
  from_stage s i id nodes idle before e current own listing found least = cc
  from_stage s i id nodes (waiting n) before e current own listing found least =
      from_waiting s i id nodes before (e ∙ ap waiting (number own)) listing found least
    where
      number : some n ≡ some id → n ≡ id
      number h = cc
  from_stage s i id nodes (looked n seen) before e current own listing found least =
      from_looked s i id seen nodes before (e ∙ ap (λ m. looked m seen) (number own))
        (subst (λ m. IsCurrent path s.claims (looked m seen)) (number own) current) listing found
        least
    where
      number : some n ≡ some id → n ≡ id
      number h = cc
  from_stage s i id nodes (blocked n ahead) before e current own listing found least =
      from_blocked s i id ahead nodes before (e ∙ ap (λ m. blocked m ahead) (number own))
        (subst (λ m. IsCurrent path s.claims (blocked m ahead)) (number own) current) listing found
        least
    where
      number : some n ≡ some id → n ≡ id
      number h = cc
  from_stage s i id nodes (holding n) before e current own listing found least =
      (s, before, e ∙ ap holding (number own))
    where
      number : some n ≡ some id → n ≡ id
      number h = cc

-- In a reachable state with a claim, where each claim belongs to a client and a list of children names
-- the claims, some client holds the lock, at once or after further steps in which no request fails and
-- no context ends: a client that waits for the claim ahead of its own goes on only once that claim has
-- gone. The number of iterations after which Lock gives up is left out.
pub no_deadlock :
    (path : String) (s : System) (d : ℕ) (claims : List ℕ) (nodes : List String)
    → Reach path s
    → s.claims ≡ d ∷ claims
    → IsListing s.claims nodes
    → ((c : ℕ) → contains c s.claims ≡ true → (i : ℕ) × (claim_of (s.stage i) ≡ some c))
    → (i id : ℕ) × (t : System) × Steps path s t × (t.stage i ≡ holding id)
no_deadlock path s d claims nodes reached e listing owned =
    let (id, found, least) = least_claim d claims in
    let present : contains id s.claims ≡ true =
      subst (λ (cs : List ℕ). contains id cs ≡ true) (sym e) found in
    let first : IsFirst id s.claims = subst (IsFirst id) (sym e) least in
    let (i, own) = owned id present in
    let current = (Reach-Inv path reached).current i in
    let (t, steps, holds) =
      from_stage path s i id nodes (s.stage i) here refl current own listing present first in
    (i, id, t, steps, holds)
