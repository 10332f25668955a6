-- ===== src/Prelude/Chars.antt =====
-- The text that has given code points.
use Prim.Native.Nat.{Ordering, compare}
use Prim.Native.Char.{Char, char, nul}
use sentinal.Prelude.{ℕ, String, List, [], ◌∷◌}

abbrev IsScalarAt : Ordering → Ordering → Ordering → Type 0
IsScalarAt Ordering.lt o p = Unit
IsScalarAt Ordering.eq Ordering.lt Ordering.lt = Unit
IsScalarAt Ordering.gt Ordering.lt Ordering.lt = Unit
IsScalarAt _ _ _ = ⊥

unfoldable pub with_scalar : (a b c : Ordering) → (IsScalarAt a b c → Char) → Char
with_scalar Ordering.lt b c make = make tt
with_scalar Ordering.eq Ordering.lt Ordering.lt make = make tt
with_scalar Ordering.gt Ordering.lt Ordering.lt make = make tt
with_scalar _ _ _ make = nul

unfoldable pub chr : ℕ → Char
unfolding with_scalar
chr n = with_scalar (compare n 55296) (compare 57343 n) (compare n 1114112) (char n)

unfoldable pub text : List ℕ → String
unfolding chr
text [] = String.[]
text (c ∷ s) = String.◌∷◌ (chr c) (text s)
