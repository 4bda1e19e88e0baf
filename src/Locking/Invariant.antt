-- ===== src/Locking/Invariant.antt =====
-- cluster/zookeeper: what holds in every state that the clients reach.
use kafka_kit.Base.{
  ℕ, suc, pos, ◌≤◌, ◌<◌, true, false, List, [], ◌∷◌, String, Option, none, some, ◌≡◌, refl, sym,
  ◌==◌, int_key, nat_key, if◌then◌else◌, eqb, arith, Bool-cases, inl, inr, if_ind, ◌∙◌, eqb_iff,
  subst, ◌⊎◌,
}
use kafka_kit.Base.GoMap.{contains}
use kafka_kit.Locking.Entries.{locks, lock_ahead}
use kafka_kit.Locking.Client.{first_claim}
use kafka_kit.Locking.System.{
  Stage, idle, waiting, looked, blocked, holding, System, set_stage, remove_claim, initial,
}

-- The number of a client's claim
abbrev pub claim_of : Stage → Option ℕ
claim_of idle = none
claim_of (waiting id) = some id
claim_of (looked id nodes) = some id
claim_of (blocked id ahead) = some id
claim_of (holding id) = some id

-- No claim has a smaller number.
abbrev pub IsFirst : ℕ → List ℕ → Type 0
IsFirst id claims = (c : ℕ) → contains c claims ≡ true → id ≤ c

-- How often a number stands in a list
abbrev pub copies : ℕ → List ℕ → ℕ
copies id [] = 0
copies id (c ∷ cs) = let rest = copies id cs in if eqb id c then suc rest else rest

-- What a client has seen still holds: it is the first when it has seen so, and the claim ahead of it
-- has a smaller number.
abbrev pub IsCurrent : String → List ℕ → Stage → Type 0
IsCurrent path claims idle = Unit
IsCurrent path claims (waiting id) = Unit
IsCurrent path claims (looked id nodes) =
    ((pos id == first_claim (locks path nodes)) ≡ true → IsFirst id claims)
    × ((ahead : ℕ) → lock_ahead (locks path nodes) (pos id) ≡ some (pos ahead) → ahead < id)
IsCurrent path claims (blocked id ahead) = ahead < id
IsCurrent path claims (holding id) = IsFirst id claims

pub record Inv (path : String) (s : System) : Type 0 where
  pub fresh : (c : ℕ) → contains c s.claims ≡ true → c < s.next
  pub present : (i id : ℕ) → claim_of (s.stage i) ≡ some id → contains id s.claims ≡ true
  pub unique :
      (i j id : ℕ) → claim_of (s.stage i) ≡ some id → claim_of (s.stage j) ≡ some id → i ≡ j
  pub once : (id : ℕ) → copies id s.claims ≤ 1
  pub current : (i : ℕ) → IsCurrent path s.claims (s.stage i)

pub contains-remove_claim :
    (id c : ℕ) (cs : List ℕ)
    → contains c (remove_claim id cs) ≡ (if eqb id c then false else contains c cs)
unfolding contains remove_claim
contains-remove_claim id c [] = ground arith
contains-remove_claim id c (d ∷ cs) = ground (arith, contains-remove_claim id c cs)

pub copies-remove_claim : (id c : ℕ) (cs : List ℕ) → copies c (remove_claim id cs) ≤ copies c cs
unfolding remove_claim
copies-remove_claim id c [] = omega arith
copies-remove_claim id c (d ∷ cs) = ground (arith, copies-remove_claim id c cs)

copies_absent : (id : ℕ) (cs : List ℕ) → contains id cs ≡ false → copies id cs ≡ 0
unfolding contains
copies_absent id [] h = refl
copies_absent id (c ∷ cs) h = ground (arith, copies_absent id cs)

-- A number above all others stands once.
new_copies :
    (id next : ℕ) (cs : List ℕ)
    → (contains id cs ≡ true → id < next)
    → copies id cs ≤ 1
    → copies id (next ∷ cs) ≤ 1
new_copies id next cs below once = elim (Bool-cases (contains id cs)) [
  | inl e ↦ let lt = below e in ground arith
  | inr e ↦ ground (arith, copies_absent id cs e)
]

contains-cons :
    (c d : ℕ) (cs : List ℕ) → contains c (d ∷ cs) ≡ (if eqb d c then true else contains c cs)
unfolding contains
contains-cons c d cs = refl

pub set_stage_here : (stage : ℕ → Stage) (i : ℕ) (st : Stage) → set_stage stage i st i ≡ st
set_stage_here stage i st = let same : eqb i i ≡ true = (eqb_iff i i).1 refl in rw same refl

pub initial-Inv : (path : String) → Inv path initial
unfolding contains
initial-Inv path = record {
  fresh = λ c h. cc;
  present = λ i id h. cc;
  unique = λ i j id h k. cc;
  once = λ id. omega arith;
  current = λ i. tt;
}

IsFirst-cons : (id next : ℕ) (cs : List ℕ) → id < next → IsFirst id cs → IsFirst id (next ∷ cs)
IsFirst-cons id next cs lt h c k = elim (Bool-cases (eqb next c)) [
  | inl e ↦ ground (arith)
  | inr e ↦ h c (ground (arith, contains-cons c next cs))
]

module _ (path : String) where
  -- Fewer claims, none of them new
  shrink-IsCurrent :
      (cs ds : List ℕ) (st : Stage)
      → ((c : ℕ) → contains c ds ≡ true → contains c cs ≡ true)
      → IsCurrent path cs st
      → IsCurrent path ds st
  shrink-IsCurrent cs ds idle sub h = tt
  shrink-IsCurrent cs ds (waiting id) sub h = tt
  shrink-IsCurrent cs ds (looked id nodes) sub h = (λ e c k. h.0 e c (sub c k), h.1)
  shrink-IsCurrent cs ds (blocked id ahead) sub h = h
  shrink-IsCurrent cs ds (holding id) sub h = λ c k. h c (sub c k)

  -- One more claim, with a larger number than the client's
  grow-IsCurrent :
      (cs : List ℕ) (next : ℕ) (st : Stage)
      → ((id : ℕ) → claim_of st ≡ some id → id < next)
      → IsCurrent path cs st
      → IsCurrent path (next ∷ cs) st
  unfolding contains
  grow-IsCurrent cs next idle own h = tt
  grow-IsCurrent cs next (waiting id) own h = tt
  grow-IsCurrent cs next (looked id nodes) own h =
      (λ e. IsFirst-cons id next cs (own id refl) (h.0 e), h.1)
  grow-IsCurrent cs next (blocked id ahead) own h = h
  grow-IsCurrent cs next (holding id) own h = IsFirst-cons id next cs (own id refl) h

  -- A client goes on with the same claim.
  pub keep_claim :
      (s : System) (i : ℕ) (st : Stage)
      → Inv path s
      → claim_of st ≡ claim_of (s.stage i)
      → IsCurrent path s.claims st
      → Inv path (record { claims = s.claims; next = s.next; stage = set_stage s.stage i st })
  keep_claim s i st inv same cur = record {
    fresh = inv.fresh;
    present = λ j id e. inv.present j id (claims_same j ∙ e);
    unique = λ j k id e f. inv.unique j k id (claims_same j ∙ e) (claims_same k ∙ f);
    once = inv.once;
    current = λ j.
        if_ind (IsCurrent path s.claims) (eqb i j) st (s.stage j) (λ e. cur) (λ e. inv.current j);
  }
    where
      claims_same : (j : ℕ) → claim_of (s.stage j) ≡ claim_of (set_stage s.stage i st j)
      claims_same j = elim (Bool-cases (eqb i j)) [
        | inl e ↦
            let path : i ≡ j = (eqb_iff i j).0 e in
            rw e (subst (λ (k : ℕ). claim_of (s.stage k) ≡ claim_of st) path (sym same))
        | inr e ↦ rw e refl
      ]

  -- A client returns; only claims that no other client has may go.
  pub leave :
      (s : System) (i : ℕ) (ds : List ℕ)
      → Inv path s
      → ((c : ℕ) → contains c ds ≡ true → contains c s.claims ≡ true)
      → ((id : ℕ) → copies id ds ≤ copies id s.claims)
      → ((j id : ℕ) → eqb i j ≡ false → claim_of (s.stage j) ≡ some id → contains id ds ≡ true)
      → Inv path (record { claims = ds; next = s.next; stage = set_stage s.stage i idle })
  leave s i ds inv sub fewer kept = record {
    fresh = λ c k. inv.fresh c (sub c k);
    present = λ j id e. let (apart, f) = other j id e in kept j id apart f;
    unique = λ j k id e f.
        let (apart, g) = other j id e in let (apart', h) = other k id f in inv.unique j k id g h;
    once = λ id. omega (arith, fewer id, inv.once id);
    current = λ j.
        if_ind (IsCurrent path ds) (eqb i j) idle (s.stage j) (λ e. tt)
          (λ e. shrink-IsCurrent s.claims ds (s.stage j) sub (inv.current j));
  }
    where
      other :
          (j id : ℕ)
          → claim_of (set_stage s.stage i idle j) ≡ some id
          → (eqb i j ≡ false) × (claim_of (s.stage j) ≡ some id)
      other j id e = elim (Bool-cases (eqb i j)) [
        | inl same ↦ let no_claim : none ≡ some id = rw same at e in cc
        | inr apart ↦ (apart, rw apart at e)
      ]

  -- A new claim has the largest number.
  pub new_claim :
      (s : System) (i : ℕ)
      → Inv path s
      → Inv path (record {
        claims = s.next ∷ s.claims;
        next = suc s.next;
        stage = set_stage s.stage i (waiting s.next);
      })
  new_claim s i inv = record {
    fresh = λ c k. ground (arith, contains-cons c s.next s.claims, inv.fresh c);
    present = λ j id e. elim (mine j id e) [
      | inl (same, path') ↦ ground (arith, contains-cons id s.next s.claims)
      | inr (apart, f) ↦ ground (arith, contains-cons id s.next s.claims, inv.present j id f)
    ];
    unique = λ j k id e f. elim (mine j id e) [
      | inl (same, mine_id) ↦ elim (mine k id f) [
        | inl (same', mine_id') ↦ ground (arith, eqb_iff i j, eqb_iff i k)
        | inr (apart', g) ↦ absurd (below k id g mine_id)
      ]
      | inr (apart, g) ↦ elim (mine k id f) [
        | inl (same', mine_id') ↦ absurd (below j id g mine_id')
        | inr (apart', h) ↦ inv.unique j k id g h
      ]
    ];
    once = λ id. new_copies id s.next s.claims (inv.fresh id) (inv.once id);
    current = λ j.
        if_ind (IsCurrent path (s.next ∷ s.claims)) (eqb i j) (waiting s.next) (s.stage j) (λ e. tt)
          (λ e.
            grow-IsCurrent s.claims s.next (s.stage j) (λ id f. inv.fresh id (inv.present j id f))
              (inv.current j));
  }
    where
      mine :
          (j id : ℕ)
          → claim_of (set_stage s.stage i (waiting s.next) j) ≡ some id
          → ((eqb i j ≡ true) × (s.next ≡ id))
            ⊎ ((eqb i j ≡ false) × (claim_of (s.stage j) ≡ some id))
      mine j id e = elim (Bool-cases (eqb i j)) [
        | inl same ↦ let number : some s.next ≡ some id = rw same at e in inl (same, cc)
        | inr apart ↦ inr (apart, rw apart at e)
      ]

      below : (j id : ℕ) → claim_of (s.stage j) ≡ some id → s.next ≡ id → ⊥
      below j id e f = let lt = inv.fresh id (inv.present j id e) in omega (arith, lt, f)
