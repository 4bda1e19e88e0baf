-- ===== src/Base/Strconv.antt =====
-- strconv and strings: Split by a character, Atoi and Itoa, on native strings.
use Prim.Native.Nat.{ℕ, zero, suc, ◌+◌, ◌-◌, ◌*◌, ◌/◌, ◌%◌, ◌^◌}
use Prim.Native.Char.{Char, code}
use Prim.Native.String.{String, char_at, ◌++◌ as append}
use Prim.Native.String.append
use mathlib.Core.Path.{◌≡◌, refl, sym, subst}
use mathlib.Core.Bool.{Bool, true, false, ◌&&◌}
use mathlib.Core.List.{List, [], ◌∷◌}
use mathlib.Core.Logic.{inl, inr}
use native.Mathlib.Omega.{arith}
use kafka_kit.Base.Tests.{if◌then◌else◌, ltb, leb, eqb, Bool-cases, eqb_iff}
use kafka_kit.Base.Int.{ℤ, pos, negsuc}

-- The first part of a split grows at its front.
abbrev on_first : Char → List String → List String
on_first c [] = String.◌∷◌ c String.[] ∷ []
on_first c (p ∷ ps) = String.◌∷◌ c p ∷ ps

-- strings.Split by one character: the parts between its occurrences
unfoldable pub split : ℕ → String → List String
split sep String.[] = String.[] ∷ []
split sep (String.◌∷◌ c s) =
    let parts = split sep s in if eqb (code c) sep then String.[] ∷ parts else on_first c parts

-- The character does not occur.
unfoldable pub is_without : ℕ → String → Bool
is_without sep String.[] = true
is_without sep (String.◌∷◌ c s) = if eqb (code c) sep then false else is_without sep s

pub split-is_without : (sep : ℕ) (s : String) → is_without sep s ≡ true → split sep s ≡ s ∷ []
unfolding split is_without
split-is_without sep String.[] h = refl
split-is_without sep (String.◌∷◌ c s) h = elim (Bool-cases (eqb (code c) sep)) [
  | inl e ↦ ground arith
  | inr e ↦
      let rest : split sep s ≡ s ∷ [] = split-is_without sep s (rw e at h) in rw (e, rest) refl
]

-- A text without the separator, the separator and more text: the text is the first part.
pub split-append :
    (sep : Char) (s t : String)
    → is_without (code sep) s ≡ true
    → split (code sep) (append s (String.◌∷◌ sep t)) ≡ s ∷ split (code sep) t
unfolding split is_without
split-append sep String.[] t h =
    let head : append String.[] (String.◌∷◌ sep t) ≡ String.◌∷◌ sep t =
      append.nil (String.◌∷◌ sep t) in
    let same : eqb (code sep) (code sep) ≡ true = (eqb_iff (code sep) (code sep)).1 refl in
    subst (λ (x : String). split (code sep) x ≡ String.[] ∷ split (code sep) t) (sym head)
      (rw same refl)
split-append sep (String.◌∷◌ c s) t h = elim (Bool-cases (eqb (code c) (code sep))) [
  | inl e ↦ ground arith
  | inr e ↦
      let rest : split (code sep) (append s (String.◌∷◌ sep t)) ≡ s ∷ split (code sep) t =
        split-append sep s t (rw e at h) in
      let head : append (String.◌∷◌ c s) (String.◌∷◌ sep t)
          ≡ String.◌∷◌ c (append s (String.◌∷◌ sep t)) =
        append.cons c s (String.◌∷◌ sep t) in
      subst (λ (x : String). split (code sep) x ≡ String.◌∷◌ c s ∷ split (code sep) t) (sym head)
        (rw (e, rest) refl)
]

-- What strconv.Atoi returns: its value, which it gives with a range error too, and whether it failed.
pub record Parsed : Type 0 where
  pub value : ℤ
  pub failed : Bool

pub data Digits : Type 0 where
  number : ℕ → Digits
  not_a_number : Digits
  too_large : Digits

-- strconv.ParseUint in base 10 with 64 bits: the digits from the left
unfoldable pub parse_digits : ℕ → String → Digits
parse_digits n String.[] = Digits.number n
parse_digits n (String.◌∷◌ c s) =
    let next = n * 10 + (code c - 48) in
    let rest = parse_digits next s in
    if (leb 48 (code c) && leb (code c) 57)
    then if ltb next (2 ^ 64) then rest else Digits.too_large
    else Digits.not_a_number

-- An empty text is no number.
parse_uint : String → Digits
parse_uint String.[] = Digits.not_a_number
parse_uint s = parse_digits 0 s

abbrev negated : ℕ → ℤ
negated zero = pos 0
negated (suc n) = negsuc n

-- strconv.ParseInt's bounds on the value behind the sign
abbrev bounded : Bool → Digits → Parsed
bounded negative Digits.not_a_number = record { value = pos 0; failed = true }
bounded true Digits.too_large = record { value = negsuc (2 ^ 63 - 1); failed = true }
bounded false Digits.too_large = record { value = pos (2 ^ 63 - 1); failed = true }
bounded true (Digits.number n) =
    if leb n (2 ^ 63)
    then record { value = negated n; failed = false }
    else record { value = negsuc (2 ^ 63 - 1); failed = true }
bounded false (Digits.number n) =
    if ltb n (2 ^ 63)
    then record { value = pos n; failed = false }
    else record { value = pos (2 ^ 63 - 1); failed = true }

-- strconv.Atoi
unfoldable pub atoi : String → Parsed
unfolding parse_uint parse_digits
atoi String.[] = record { value = pos 0; failed = true }
atoi (String.◌∷◌ c s) =
    if eqb (code c) 45
    then bounded true (parse_uint s)
    else if eqb (code c) 43
    then bounded false (parse_uint s)
    else bounded false (parse_uint (String.◌∷◌ c s))

atoi_examples :
    (atoi "42" ≡ record { value = pos 42; failed = false })
    × (atoi "-3" ≡ record { value = negsuc 2; failed = false })
    × (atoi "x" ≡ record { value = pos 0; failed = true })
unfolding atoi
atoi_examples = (refl, refl, refl)

-- The decimal digits of a number in front of a text; a 64-bit number has at most 20.
itoa_onto : ℕ → ℕ → String → String
itoa_onto zero n s = s
itoa_onto (suc fuel) n s =
    let grown = String.◌∷◌ (char_at "0123456789" (n % 10)) s in
    let rest = itoa_onto fuel (n / 10) grown in if ltb n 10 then grown else rest

-- strconv.Itoa, and "%d" in a format, of a number that is not negative
unfoldable pub itoa : ℕ → String
unfolding itoa_onto
itoa n = itoa_onto 20 n ""

itoa_examples : (itoa 0 ≡ "0") × (itoa 1700000000 ≡ "1700000000")
unfolding itoa
itoa_examples = (refl, refl)
