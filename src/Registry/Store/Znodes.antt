-- ===== src/Registry/Store/Znodes.antt =====
-- internal/registry/server/tagstorage_zk.go: each object has a znode of its own.
use Prim.Native.Char.{Char}
use Prim.Native.String.{◌++◌ as append, ◌∷◌}
use Prim.Native.String.append
use kafka_kit.Base.{
  true, String, string_key, ◌≡◌, ◌≢◌, ◌⊎◌, inl, inr, sym, ap, subst, ◌∙◌, beq_iff, arith,
}
use kafka_kit.Registry.Types.{KafkaObject, is_valid, is_complete}
use kafka_kit.Registry.Store.{Storage, znode}

-- The rest of a text that is not empty
abbrev tail : String → String
tail String.[] = ""
tail (c ∷ s) = s

append_cancel : (p s t : String) → append p s ≡ append p t → s ≡ t
append_cancel String.[] s t h = sym (append.nil s) ∙ h ∙ append.nil t
append_cancel (c ∷ p) s t h =
    append_cancel p s t (ap tail (sym (append.cons c p s) ∙ h ∙ append.cons c p t))

abbrev first : String → String
first String.[] = ""
first (c ∷ s) = c ∷ ""

-- Two texts that begin with different characters differ.
append_first :
    (c d : Char) (p q s t : String) → append (c ∷ p) s ≡ append (d ∷ q) t → (c ∷ "") ≡ (d ∷ "")
append_first c d p q s t h = ap first (sym (append.cons c p s) ∙ h ∙ append.cons d q t)

valid_type :
    (o : KafkaObject)
    → is_complete o ≡ true
    → (o.object_type ≡ "broker") ⊎ (o.object_type ≡ "topic")
unfolding is_complete is_valid
valid_type o h = ground (arith, beq_iff o.object_type "broker", beq_iff o.object_type "topic")

-- From the znode, the part behind the prefix
abbrev typed_id : KafkaObject → String
typed_id o = append o.object_type (append "/" o.object_id)

typed_id-eq : (t : Storage) (o p : KafkaObject) → znode t o ≡ znode t p → typed_id o ≡ typed_id p
typed_id-eq t o p h = append_cancel "/" (typed_id o) (typed_id p) (
    append_cancel t.prefix (append "/" (typed_id o)) (append "/" (typed_id p)) (
      append_cancel "/" (append t.prefix (append "/" (typed_id o)))
        (append t.prefix (append "/" (typed_id p))) h))

same_id : (ty a b : String) → append ty (append "/" a) ≡ append ty (append "/" b) → a ≡ b
same_id ty a b h = append_cancel "/" a b (append_cancel ty (append "/" a) (append "/" b) h)

other_type : (a b : String) → append "broker" a ≢ append "topic" b
other_type a b h =
    let first_differ = append_first "b" "t" "roker" "opic" a b h in
    ground (arith, beq_iff {A = String} "b" "t")

same_type : (o p : KafkaObject) → o.object_type ≡ p.object_type → typed_id o ≡ typed_id p → o ≡ p
same_type o p e h =
    let ids : o.object_id ≡ p.object_id =
      same_id p.object_type o.object_id p.object_id
        (subst (λ (ty : String). append ty (append "/" o.object_id) ≡ typed_id p) e h) in
    cc

differ :
    (o p : KafkaObject)
    → o.object_type ≡ "broker"
    → p.object_type ≡ "topic"
    → typed_id o ≢ typed_id p
differ o p e f h = other_type (append "/" o.object_id) (append "/" p.object_id) (
    subst
      (λ (ty : String).
        append "broker" (append "/" o.object_id) ≡ append ty (append "/" p.object_id))
      f (subst (λ (ty : String). append ty (append "/" o.object_id) ≡ typed_id p) e h))

-- Objects with one znode are one object.
pub znode_injective :
    (t : Storage) (o p : KafkaObject)
    → is_complete o ≡ true
    → is_complete p ≡ true
    → znode t o ≡ znode t p
    → o ≡ p
znode_injective t o p ho hp h =
    let same = typed_id-eq t o p h in
    elim (valid_type o ho) [
      | inl b ↦ elim (valid_type p hp) [
        | inl c ↦ same_type o p (b ∙ sym c) same
        | inr c ↦ absurd (differ o p b c same)
      ]
      | inr b ↦ elim (valid_type p hp) [
        | inl c ↦ absurd (differ p o c b (sym same))
        | inr c ↦ same_type o p (b ∙ sym c) same
      ]
    ]
