-- ===== src/Base/Text.antt =====
-- Go's order of strings: by bytes, which for UTF-8 is the order of the code points.
use Prim.Native.Nat.{Ordering}
use Prim.Native.String.{String, compare}
use mathlib.Core.Bool.{Bool, true, false}

abbrev pub ltb_text : String → String → Bool
ltb_text s t = elim (compare s t) [ Ordering.lt ↦ true | _ ↦ false ]
