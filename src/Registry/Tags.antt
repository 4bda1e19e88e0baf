-- ===== src/Registry/Tags.antt =====
-- internal/registry/server/tag.go: tag sets and the lists of "key:value" texts.
pub mod Laws
use Prim.Native.String.{◌++◌ as append}
use kafka_kit.Base.{
  Bool, true, false, List, [], ◌∷◌, String, string_key, Option, none, some, ◌==◌, length,
  if◌then◌else◌, map, eqb,
}
use kafka_kit.Base.GoMap.{Map, lookup, insert, keys}
use kafka_kit.Base.Strconv.{split}
use kafka_kit.Registry.Types.{Tags, TagSet, Error, Result, ok, failed}

-- ts[k], where a missing key reads as the empty text
unfoldable pub value_of : String → TagSet → String
value_of k ts = elim (lookup k ts) [ some v ↦ v | none ↦ "" ]

unfoldable pub match_all : TagSet → TagSet → Bool
unfolding value_of
match_all t [] = true
match_all t ((k, v) ∷ kv) = if value_of k t == v then match_all t kv else false

unfoldable pub equal_tag_set : TagSet → TagSet → Bool
unfolding match_all
equal_tag_set t1 t2 = if eqb (length t1) (length t2) then match_all t2 t1 else false

-- fmt.Sprintf("%s:%s", k, v)
abbrev pub tag : String → String → String
tag k v = append k (append ":" v)

abbrev pub tags : TagSet → Tags
tags ts = map (λ e. tag e.0 e.1) ts

abbrev pub first_part : List String → String
first_part [] = ""
first_part (p ∷ ps) = p

unfoldable pub tag_keys : Tags → List String
tag_keys [] = []
tag_keys (t ∷ ts) = first_part (split 58 t) ∷ tag_keys ts

-- One tag, added to the set
unfoldable pub add_tag : List String → TagSet → Result TagSet
add_tag (k ∷ v ∷ []) ts = ok (insert k v ts)
add_tag _ ts = failed Error.invalid_tag

unfoldable pub tag_set_from : TagSet → Tags → Result TagSet
unfolding add_tag
tag_set_from ts [] = ok ts
tag_set_from ts (t ∷ rest) = elim (add_tag (split 58 t) ts) [
  | ok more ↦ tag_set_from more rest
  | failed e ↦ failed e
]

unfoldable pub tag_set : Tags → Result TagSet
unfolding tag_set_from
tag_set t = tag_set_from [] t
