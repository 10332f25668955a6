-- ===== src/Prelude/Case.antt =====
-- `str.lower` and `str.upper`, on ASCII: what Python's tables make of other letters is not in the
-- code, and a text with such letters is outside the models that change its case.
use Prim.Native.Char.{Char, code}
use sentinal.Prelude.{String, Bool, true, ◌&&◌, ltb, ◌==◌, if◌then◌else◌}

-- ASCII letters change case; every other character is left as it is.
swap_in : Char → String → String → Char
swap_in c String.[] targets = c
swap_in c (String.◌∷◌ a sources) String.[] = c
swap_in c (String.◌∷◌ a sources) (String.◌∷◌ b targets) =
    let rest = swap_in c sources targets in if code c == code a then b else rest

abbrev lower_letters : String
lower_letters = "abcdefghijklmnopqrstuvwxyz"

abbrev upper_letters : String
upper_letters = "ABCDEFGHIJKLMNOPQRSTUVWXYZ"

-- whether the case changes below are Python's
unfoldable pub is_ascii : String → Bool
is_ascii String.[] = true
is_ascii (String.◌∷◌ c s) = ltb (code c) 128 && is_ascii s

-- `s.lower()`
unfoldable pub lower : String → String
unfolding swap_in
lower String.[] = String.[]
lower (String.◌∷◌ c s) = String.◌∷◌ (swap_in c upper_letters lower_letters) (lower s)

-- `s.upper()`
unfoldable pub upper : String → String
unfolding swap_in
upper String.[] = String.[]
upper (String.◌∷◌ c s) = String.◌∷◌ (swap_in c lower_letters upper_letters) (upper s)
