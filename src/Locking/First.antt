-- ===== src/Locking/First.antt =====
-- cluster/zookeeper/locks.go: the first entry has the smallest number of all children.
use Prim.Native.String.{◌++◌ as append}
use mathlib.Core.Bool.{Bool-set}
use mathlib.Core.List.{append-nil, append_assoc}
use mathlib.Core.List.Perm
use kafka_kit.Base.{
  ℕ, ℤ, pos, true, false, List, [], ◌∷◌, ◌++◌, String, none, some, ◌≡◌, refl, sym, ap, subst, ◌∙◌,
  ◌==◌, int_key, nat_key, beq_iff, map, eqb, ltb_ℤ, ltb_ℤ_asym, ltb_ℤ_not_trans, negsuc, eqb_iff,
  ◌≢◌, arith, Bool-cases, Option-cases, inl, inr, All, All-perm,
}
use kafka_kit.Base.GoMap.{contains, insert}
use kafka_kit.Base.Sort.{IsStrictWeak, IsSorted, sort, sort-perm, sort-IsSorted}
use kafka_kit.Locking.Entries.{
  LockEntries, id_from_znode, add_child, add_children, locks, first, ids, head,
}
use kafka_kit.Locking.Client.{first_claim}
use kafka_kit.Locking.System.{ids_in, IsListing}
use kafka_kit.Locking.Invariant.{IsFirst}

add_children-ids :
    (path : String) (ns : List String) (le : LockEntries)
    → (add_children path ns le).id_list ≡ le.id_list ++ ids_in ns
unfolding add_children add_child ids_in
add_children-ids path [] le = sym (append-nil le.id_list)
add_children-ids path (n ∷ ns) le = elim (Option-cases (id_from_znode n)) [
  | inl e ↦ rw (add_children, add_child, ids_in, e) (add_children-ids path ns le)
  | inr (id, e) ↦
      let grown : LockEntries = record {
        id_to_znode = insert id (append path (append "/" n)) le.id_to_znode;
        id_list = le.id_list ++ id ∷ [];
      } in
      let opened : add_child path n le ≡ grown = rw (add_child, e) refl in
      let one : ids_in (n ∷ ns) ≡ id ∷ ids_in ns = rw (ids_in, e) refl in
      ap (λ (f : LockEntries). (add_children path ns f).id_list) opened
      ∙ add_children-ids path ns grown
      ∙ append_assoc le.id_list (id ∷ []) (ids_in ns)
      ∙ ap (λ (xs : List ℤ). le.id_list ++ xs) (sym one)
]

pub locks-ids :
    (path : String) (nodes : List String) → (locks path nodes).id_list ≡ sort ltb_ℤ (ids_in nodes)
unfolding locks
locks-ids path nodes =
    ap (sort ltb_ℤ) (add_children-ids path nodes (record { id_to_znode = []; id_list = [] }))

pub ltb_ℤ-IsStrictWeak : IsStrictWeak ltb_ℤ
ltb_ℤ-IsStrictWeak = record { asym = ltb_ℤ_asym; not_trans = ltb_ℤ_not_trans }

ltb_ℤ_irrefl : (a : ℤ) → ltb_ℤ a a ≡ false
ltb_ℤ_irrefl (pos a) = ground arith
ltb_ℤ_irrefl (negsuc a) = ground arith

-- The head of a sorted list, or 0, is its least element.
abbrev head_or_zero : List ℤ → ℤ
head_or_zero [] = pos 0
head_or_zero (x ∷ xs) = x

sorted_least : (xs : List ℤ) → IsSorted ltb_ℤ xs → All (λ y. ltb_ℤ y (head_or_zero xs) ≡ false) xs
sorted_least [] h = tt
sorted_least (x ∷ xs) (h, hs) = (ltb_ℤ_irrefl x, h)

first_claim_head :
    (path : String) (nodes : List String)
    → first_claim (locks path nodes) ≡ head_or_zero (locks path nodes).id_list
unfolding first ids
first_claim_head path nodes = from_list (locks path nodes).id_list
  where
    from_list : (xs : List ℤ) → (elim (head xs) [ some id ↦ id | none ↦ pos 0 ]) ≡ head_or_zero xs
    from_list [] = refl
    from_list (x ∷ xs) = refl

contains-All :
    (id : ℕ) (claims : List ℕ)
    → All (λ y. ltb_ℤ y (pos id) ≡ false) (map pos claims)
    → IsFirst id claims
unfolding contains
contains-All id [] h c k = cc
contains-All id (d ∷ claims) (h, hs) c k = ground (arith, contains-All id claims hs c)

-- A client whose claim is the first of what locks() returned has the smallest number of all.
pub first_claim-IsFirst :
    (path : String) (claims : List ℕ) (nodes : List String) (id : ℕ)
    → IsListing claims nodes
    → (pos id == first_claim (locks path nodes)) ≡ true
    → IsFirst id claims
first_claim-IsFirst path claims nodes id listing e =
    let xs = sort ltb_ℤ (ids_in nodes) in
    let least = sorted_least xs (sort-IsSorted ltb_ℤ ltb_ℤ-IsStrictWeak (ids_in nodes)) in
    let here : head_or_zero xs ≡ pos id = sym (
      (beq_iff (pos id) (first_claim (locks path nodes))).0 e
      ∙ first_claim_head path nodes
      ∙ ap head_or_zero (locks-ids path nodes)) in
    let mine : All (λ y. ltb_ℤ y (pos id) ≡ false) xs =
      subst (λ (a : ℤ). All (λ y. ltb_ℤ y a ≡ false) xs) here least in
    let prop = λ (y : ℤ). Bool-set (ltb_ℤ y (pos id)) false in
    let all = Perm.trans (sort-perm ltb_ℤ (ids_in nodes)) listing in
    contains-All id claims (All-perm (λ y. ltb_ℤ y (pos id) ≡ false) prop all mine)

All-claims :
    (id : ℕ) (claims : List ℕ)
    → IsFirst id claims
    → All (λ y. ltb_ℤ y (pos id) ≡ false) (map pos claims)
unfolding contains
All-claims id [] h = tt
All-claims id (d ∷ claims) h =
    (ground (arith, h d (ground arith)), All-claims id claims (λ c k. h c (ground arith)))

All-contained {κ} :
    (P : ℤ → Type κ) (id : ℕ) (claims : List ℕ)
    → contains id claims ≡ true
    → All P (map pos claims)
    → P (pos id)
unfolding contains
All-contained P id [] k h = cc
All-contained P id (d ∷ claims) k (h, hs) = elim (Bool-cases (eqb d id)) [
  | inl same ↦ subst (λ (n : ℕ). P (pos n)) ((eqb_iff d id).0 same) h
  | inr other ↦ All-contained P id claims (ground arith) hs
]

head_satisfies {κ} : (P : ℤ → Type κ) (xs : List ℤ) → xs ≢ [] → All P xs → P (head_or_zero xs)
head_satisfies P [] some_entry h = absurd (some_entry refl)
head_satisfies P (x ∷ xs) some_entry (h, hs) = h

antisymmetric : (a b : ℤ) → ltb_ℤ a b ≡ false → ltb_ℤ b a ≡ false → a ≡ b
antisymmetric (pos a) (pos b) h k = ground arith
antisymmetric (pos a) (negsuc b) h k = ground arith
antisymmetric (negsuc a) (pos b) h k = ground arith
antisymmetric (negsuc a) (negsuc b) h k = ground arith

-- The smallest of the claims is the first of any listing of them.
pub IsFirst-first_claim :
    (path : String) (claims : List ℕ) (nodes : List String) (id : ℕ)
    → IsListing claims nodes
    → contains id claims ≡ true
    → IsFirst id claims
    → (pos id == first_claim (locks path nodes)) ≡ true
IsFirst-first_claim path claims nodes id listing here least =
    let xs = sort ltb_ℤ (ids_in nodes) in
    let all = Perm.trans (sort-perm ltb_ℤ (ids_in nodes)) listing in
    let prop = λ (a : ℤ) (y : ℤ). Bool-set (ltb_ℤ y a) false in
    let small = sorted_least xs (sort-IsSorted ltb_ℤ ltb_ℤ-IsStrictWeak (ids_in nodes)) in
    let below : ltb_ℤ (pos id) (head_or_zero xs) ≡ false =
      All-contained (λ y. ltb_ℤ y (head_or_zero xs) ≡ false) id claims here
        (All-perm (λ y. ltb_ℤ y (head_or_zero xs) ≡ false) (prop (head_or_zero xs)) all small) in
    let some_entry : xs ≢ [] = λ empty.
      let impossible : All (λ y. true ≡ false) (map pos claims) =
        All-perm (λ y. true ≡ false) (λ y. Bool-set true false) all
          (subst (All (λ y. true ≡ false)) (sym empty) tt) in
      let contradiction = All-contained (λ y. true ≡ false) id claims here impossible in cc in
    let above : ltb_ℤ (head_or_zero xs) (pos id) ≡ false =
      head_satisfies (λ y. ltb_ℤ y (pos id) ≡ false) xs some_entry
        (All-perm (λ y. ltb_ℤ y (pos id) ≡ false) (prop (pos id)) (Perm.symm all)
          (All-claims id claims least)) in
    (beq_iff (pos id) (first_claim (locks path nodes))).1 (
      antisymmetric (pos id) (head_or_zero xs) below above
      ∙ sym (first_claim_head path nodes ∙ ap head_or_zero (locks-ids path nodes)))
