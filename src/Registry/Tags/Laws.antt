-- ===== src/Registry/Tags/Laws.antt =====
-- internal/registry/server/tag.go: tag sets written as tags and read back, and what the comparisons
-- decide.
use Prim.Native.String.{◌++◌ as append, ◌∷◌}
use Prim.Native.String.append
use kafka_kit.Base.{
  true, false, List, [], ◌++◌, String, string_key, some, ◌≡◌, ◌≢◌, ◌↔◌, refl, sym, subst, ap, ◌∙◌,
  ◌==◌, beq_iff, length, if◌then◌else◌, inl, inr, Bool-cases, Option-cases, eqb_iff, All, All_of,
  arith,
}
use kafka_kit.Base.GoMap.{lookup, insert, has, has-nil}
use kafka_kit.Base.Strconv.{is_without, split, split-append, split-is_without}
use kafka_kit.Base.GoMap.Extensional.{IsDistinct, IsSubmap, length-submap, lookup-submap}
use kafka_kit.Registry.Types.{TagSet, ok}
use kafka_kit.Registry.Tags.{
  value_of, match_all, equal_tag_set, tag, tags, add_tag, tag_set_from, tag_set,
}
use mathlib.Core.List.{append-nil, append_assoc}

-- Neither keys nor values have a colon.
abbrev pub IsPlain : TagSet → Type 0
IsPlain ts = All (λ e. (is_without 58 e.0 ≡ true) × (is_without 58 e.1 ≡ true)) ts

split-tag :
    (k v : String)
    → is_without 58 k ≡ true
    → is_without 58 v ≡ true
    → split 58 (tag k v) ≡ List.◌∷◌ k (List.◌∷◌ v [])
split-tag k v hk hv =
    let colon : append ":" v ≡ ":" ∷ v = append.cons ":" "" v ∙ ap (λ t. ":" ∷ t) (append.nil v) in
    let first : split 58 (append k (":" ∷ v)) ≡ List.◌∷◌ k (split 58 v) = split-append ":" k v hk in
    let last : split 58 v ≡ List.◌∷◌ v [] = split-is_without 58 v hv in cc

insert-absent :
    (k v : String) (ts : TagSet) → has k ts ≡ false → insert k v ts ≡ ts ++ List.◌∷◌ (k, v) []
unfolding insert has lookup
insert-absent k v [] h = refl
insert-absent k v (List.◌∷◌ (j, w) ts) h = ground (arith, insert-absent k v ts)

has-snoc :
    (j k v : String) (ts : TagSet)
    → has j (ts ++ List.◌∷◌ (k, v) []) ≡ (if k == j then true else has j ts)
unfolding has lookup
has-snoc j k v [] = ground arith
has-snoc j k v (List.◌∷◌ (i, w) ts) = ground (arith, has-snoc j k v ts)

-- A key that a set does not have differs from each of its keys.
absent_keys : (k : String) (ts : TagSet) → has k ts ≡ false → All (λ e. (k == e.0) ≡ false) ts
unfolding has lookup
absent_keys k [] h = tt
absent_keys k (List.◌∷◌ (j, w) ts) h =
    (ground (arith, beq_iff j k, beq_iff k j), absent_keys k ts (ground arith))

absent_snoc :
    (k v : String) (done ts : TagSet)
    → All (λ e. has e.0 done ≡ false) ts
    → All (λ e. (k == e.0) ≡ false) ts
    → All (λ e. has e.0 (done ++ List.◌∷◌ (k, v) []) ≡ false) ts
absent_snoc k v done [] h d = tt
absent_snoc k v done (List.◌∷◌ (j, w) ts) (h, hs) (d, ds) =
    (ground (arith, has-snoc j k v done), absent_snoc k v done ts hs ds)

tag_set_from_step :
    (done more : TagSet) (t : String) (rest : List String)
    → add_tag (split 58 t) done ≡ ok more
    → tag_set_from done (List.◌∷◌ t rest) ≡ tag_set_from more rest
unfolding tag_set_from
tag_set_from_step done more t rest e = rw (tag_set_from, e) refl

tag_set_from-tags :
    (done ts : TagSet)
    → IsPlain ts
    → IsDistinct ts
    → All (λ e. has e.0 done ≡ false) ts
    → tag_set_from done (tags ts) ≡ ok (done ++ ts)
unfolding tag_set_from add_tag
tag_set_from-tags done [] p d h = ap ok (sym (append-nil done))
tag_set_from-tags done (List.◌∷◌ (k, v) ts) ((pk, pv), p) (d, ds) (h, hs) =
    let grown = done ++ List.◌∷◌ (k, v) [] in
    let put : insert k v done ≡ grown = insert-absent k v done h in
    let added : add_tag (split 58 (tag k v)) done ≡ ok grown =
      subst (λ (parts : List String). add_tag parts done ≡ ok grown) (sym (split-tag k v pk pv))
        (ap ok put) in
    tag_set_from_step done grown (tag k v) (tags ts) added
    ∙ tag_set_from-tags grown ts p ds (absent_snoc k v done ts hs (absent_keys k ts d))
    ∙ ap ok (append_assoc done (List.◌∷◌ (k, v) []) ts)

-- The tags that a tag set is written as read back as the tag set, if its keys are distinct and
-- neither keys nor values have a colon.
pub tag_set-tags : (ts : TagSet) → IsPlain ts → IsDistinct ts → tag_set (tags ts) ≡ ok ts
unfolding tag_set
tag_set-tags ts p d = tag_set_from-tags [] ts p d (All_of (λ e. has-nil String e.0) ts)

value_found : (k w : String) (t : TagSet) → value_of k t ≡ w → w ≢ "" → lookup k t ≡ some w
unfolding value_of
value_found k w t e h = elim (Option-cases (lookup k t)) [
  | inl absent ↦ absurd (h (sym (rw (value_of, absent) at e)))
  | inr (v, found) ↦ let path : v ≡ w = rw (value_of, found) at e in cc
]

match_all_head :
    (t : TagSet) (k v : String) (kv : TagSet)
    → match_all t (List.◌∷◌ (k, v) kv) ≡ true
    → (value_of k t ≡ v) × (match_all t kv ≡ true)
unfolding match_all
match_all_head t k v kv m = ground (arith, beq_iff (value_of k t) v)

match_all-IsSubmap :
    (t kv : TagSet) → All (λ e. e.1 ≢ "") kv → match_all t kv ≡ true → IsSubmap kv t
unfolding lookup
match_all-IsSubmap t [] h m j v e = cc
match_all-IsSubmap t (List.◌∷◌ (k, w) kv) (h, hs) m j v e =
    let (value, rest) = match_all_head t k w kv m in
    elim (Bool-cases (k == j)) [
      | inl same ↦
          let path : k ≡ j = (beq_iff k j).0 same in
          let entry : some w ≡ some v = rw same at e in let found = value_found k w t value h in cc
      | inr other ↦ match_all-IsSubmap t kv hs rest j v (rw other at e)
    ]

match_all_of : (t kv : TagSet) → IsDistinct kv → IsSubmap kv t → match_all t kv ≡ true
unfolding match_all value_of lookup has
match_all_of t [] d sub = refl
match_all_of t (List.◌∷◌ (k, w) kv) (d, ds) sub =
    let found : lookup k t ≡ some w = sub k w (ground (arith, beq_iff k k)) in
    let rest = match_all_of t kv ds (λ j v e. sub j v (ground (arith, beq_iff k j))) in
    ground (arith, beq_iff w w)

-- TagSet.Equal decides whether the two sets have the same entries, in any order, if the first has
-- no empty value; the keys of each set are distinct.
pub equal_tag_set_iff :
    (t1 t2 : TagSet)
    → IsDistinct t1
    → IsDistinct t2
    → All (λ e. e.1 ≢ "") t1
    → (equal_tag_set t1 t2 ≡ true) ↔ ((j : String) → lookup j t1 ≡ lookup j t2)
unfolding equal_tag_set
equal_tag_set_iff t1 t2 d1 d2 h = (
  λ e.
      let (same, m) = both_hold e in
      lookup-submap t1 t2 d1 d2 (match_all-IsSubmap t2 t1 h m) (omega (arith, same)),
  λ agree.
      let sub : IsSubmap t1 t2 = λ j v e. sym (agree j) ∙ e in
      let back : IsSubmap t2 t1 = λ j v e. agree j ∙ e in
      let one = length-submap t1 t2 d1 d2 sub in
      let two = length-submap t2 t1 d2 d1 back in
      let m = match_all_of t2 t1 d1 sub in ground (arith, eqb_iff (length t1) (length t2)),
)
  where
    both_hold : equal_tag_set t1 t2 ≡ true → (length t1 ≡ length t2) × (match_all t2 t1 ≡ true)
    both_hold e = ground (arith, eqb_iff (length t1) (length t2))
