-- ===== src/Validation/Utf8.antt =====
-- `_is_decodable_text` of backend/app/utils/file_validation.py, with the strict UTF-8 decoder of
-- the Python library as an automaton over the bytes.
use sentinal.Prelude.{
  ℕ, zero, suc, ◌≡◌, refl, Bool, true, false, not, ◌&&◌, ◌||◌, List, [], ◌∷◌, ◌++◌, leb, ltb, ◌==◌,
  if◌then◌else◌, any,
}

-- `fresh`: between characters. `after lo hi more`: the next byte must be in `lo..hi`, and `more`
-- continuation bytes come behind it.
pub data Utf8 : Type 0 where
  fresh malformed : Utf8
  after : ℕ → ℕ → ℕ → Utf8

abbrev between : ℕ → ℕ → ℕ → Bool
between lo hi b = leb lo b && leb b hi

-- The well-formed byte sequences of the Unicode standard, by their first byte.
abbrev first_byte : ℕ → Utf8
first_byte b =
    if leb b 0x7f
    then fresh
    else if between 0xc2 0xdf b
    then after 0x80 0xbf 0
    else if b == 0xe0
    then after 0xa0 0xbf 1
    else if b == 0xed
    then after 0x80 0x9f 1
    else if between 0xe1 0xef b
    then after 0x80 0xbf 1
    else if b == 0xf0
    then after 0x90 0xbf 2
    else if between 0xf1 0xf3 b
    then after 0x80 0xbf 2
    else if b == 0xf4
    then after 0x80 0x8f 2
    else malformed

abbrev continue : ℕ → Utf8
continue zero = fresh
continue (suc more) = after 0x80 0xbf more

unfoldable pub next_byte : Utf8 → ℕ → Utf8
next_byte fresh b = first_byte b
next_byte malformed b = malformed
next_byte (after lo hi more) b = if between lo hi b then continue more else malformed

abbrev pub at_boundary : Utf8 → Bool
at_boundary fresh = true
at_boundary _ = false

unfoldable pub utf8_from : Utf8 → List ℕ → Utf8
unfolding next_byte
utf8_from s [] = s
utf8_from s (b ∷ bs) = utf8_from (next_byte s b) bs

-- `bs.decode("utf-8", errors="strict")` does not raise
unfoldable pub is_utf8 : List ℕ → Bool
unfolding utf8_from
is_utf8 bs = at_boundary (utf8_from fresh bs)

-- A C0 control other than TAB, LF and CR, or DEL.
unfoldable pub is_binary_control : ℕ → Bool
is_binary_control b = (ltb b 0x20 && not (b == 0x09 || b == 0x0a || b == 0x0d)) || b == 0x7f

unfoldable pub is_decodable_text : List ℕ → Bool
unfolding is_utf8 is_binary_control
is_decodable_text bs = is_utf8 bs && not (any is_binary_control bs)

pub utf8_from-append :
    (s : Utf8) (bs cs : List ℕ) → utf8_from s (bs ++ cs) ≡ utf8_from (utf8_from s bs) cs
unfolding utf8_from
utf8_from-append s [] cs = refl
utf8_from-append s (b ∷ bs) cs = utf8_from-append (next_byte s b) bs cs
