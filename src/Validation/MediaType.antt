-- ===== src/Validation/MediaType.antt =====
-- `normalize_content_type` and `validate_declared_mime_type` of
-- backend/app/utils/file_validation.py.
-- A header's text is in Latin-1, so its code points are below 256.
use sentinal.Prelude.{
  ℕ, ◌+◌, ◌≡◌, ◌↔◌, refl, Bool, true, false, not, ◌&&◌, ◌||◌, List, [], ◌∷◌, map, leb, ◌==◌,
  if◌then◌else◌, any, arith, String,
}
use Prim.Native.Char.{code}
use sentinal.Prelude.Outcome.{Result, ok, err}

abbrev pub Text : Type 0
Text = List ℕ

-- The code points of a literal.
abbrev pub codes : String → Text
codes String.[] = []
codes (String.◌∷◌ c s) = code c ∷ codes s

unfoldable pub text_eq : Text → Text → Bool
text_eq [] [] = true
text_eq (a ∷ s) (b ∷ t) = a == b && text_eq s t
text_eq _ _ = false

-- `text.split(";", 1)[0]`
unfoldable pub before_semicolon : Text → Text
before_semicolon [] = []
before_semicolon (c ∷ s) = let rest = before_semicolon s in if c == b';' then [] else c ∷ rest

-- `str.isspace`, on Latin-1
unfoldable pub is_space : ℕ → Bool
is_space c = (leb 0x09 c && leb c 0x0d) || (leb 0x1c c && leb c 0x20) || c == 0x85 || c == 0xa0

unfoldable pub lstrip : Text → Text
unfolding is_space
lstrip [] = []
lstrip (c ∷ s) = let rest = lstrip s in if is_space c then rest else c ∷ s

abbrev is_nil : Text → Bool
is_nil [] = true
is_nil (c ∷ s) = false

unfoldable pub rstrip : Text → Text
unfolding is_space
rstrip [] = []
rstrip (c ∷ s) = let rest = rstrip s in if is_space c && is_nil rest then [] else c ∷ rest

-- `str.lower`, on Latin-1
unfoldable pub lower : ℕ → ℕ
lower c =
    if leb b'A' c && leb c b'Z' || leb 0xc0 c && leb c 0xde && not (c == 0xd7) then c + 32 else c

unfoldable pub normalize_content_type : Text → Text
unfolding before_semicolon lstrip rstrip lower
normalize_content_type s = map lower (rstrip (lstrip (before_semicolon s)))

pub data FileValidationError : Type 0 where
  mime_type_not_allowed mime_type_mismatch truncated_file : Text → FileValidationError
  undecodable_content : FileValidationError

-- `normalized not in allowed`, for the set of the normalized entries
unfoldable pub validate_declared_mime_type : Text → List Text → Result FileValidationError Text
validate_declared_mime_type declared allowed =
    let normalized = normalize_content_type declared in
    if any (λ entry. text_eq (normalize_content_type entry) normalized) allowed
    then ok normalized
    else err (mime_type_not_allowed normalized)

pub text_eq_iff : (s t : Text) → (text_eq s t ≡ true) ↔ (s ≡ t)
unfolding text_eq
text_eq_iff [] [] = (λ _. refl, λ _. refl)
text_eq_iff [] (b ∷ t) = (λ h. cc, λ h. cc)
text_eq_iff (a ∷ s) [] = (λ h. cc, λ h. cc)
text_eq_iff (a ∷ s) (b ∷ t) =
    (λ h. ground (arith, (text_eq_iff s t).0), λ h. ground (arith, (text_eq_iff s t).1))

lower-lower : (c : ℕ) → lower (lower c) ≡ lower c
unfolding lower
lower-lower c = ground arith

is_space-lower : (c : ℕ) → is_space (lower c) ≡ is_space c
unfolding lower is_space
is_space-lower c = ground arith

semicolon-lower : (c : ℕ) → (lower c == b';') ≡ (c == b';')
unfolding lower
semicolon-lower c = ground arith

map-lower-lower : (s : Text) → map lower (map lower s) ≡ map lower s
map-lower-lower [] = refl
map-lower-lower (c ∷ s) = cc (lower-lower c, map-lower-lower s)

before_semicolon-lower :
    (s : Text) → before_semicolon (map lower s) ≡ map lower (before_semicolon s)
unfolding before_semicolon
before_semicolon-lower [] = refl
before_semicolon-lower (c ∷ s) = ground (arith, semicolon-lower c, before_semicolon-lower s)

lstrip-lower : (s : Text) → lstrip (map lower s) ≡ map lower (lstrip s)
unfolding lstrip
lstrip-lower [] = refl
lstrip-lower (c ∷ s) = simp (is_space-lower, lstrip-lower s) (ground arith)

is_nil-lower : (s : Text) → is_nil (map lower s) ≡ is_nil s
is_nil-lower [] = refl
is_nil-lower (c ∷ s) = refl

rstrip-lower : (s : Text) → rstrip (map lower s) ≡ map lower (rstrip s)
unfolding rstrip
rstrip-lower [] = refl
rstrip-lower (c ∷ s) = simp (is_space-lower, rstrip-lower s, is_nil-lower) (ground arith)

-- No semicolon stands in the text.
abbrev NoSemicolon : Text → Type 0
NoSemicolon [] = Unit {0}
NoSemicolon (c ∷ s) = ((c == b';') ≡ false) × NoSemicolon s

before_semicolon-NoSemicolon : (s : Text) → NoSemicolon (before_semicolon s)
unfolding before_semicolon
before_semicolon-NoSemicolon [] = tt
before_semicolon-NoSemicolon (c ∷ s) = ground (arith, before_semicolon-NoSemicolon s)

lstrip-NoSemicolon : (s : Text) → NoSemicolon s → NoSemicolon (lstrip s)
unfolding lstrip
lstrip-NoSemicolon [] h = tt
lstrip-NoSemicolon (c ∷ s) h = ground (arith, lstrip-NoSemicolon s h.1)

rstrip-NoSemicolon : (s : Text) → NoSemicolon s → NoSemicolon (rstrip s)
unfolding rstrip
rstrip-NoSemicolon [] h = tt
rstrip-NoSemicolon (c ∷ s) h = ground (arith, rstrip-NoSemicolon s h.1)

before_semicolon_self : (s : Text) → NoSemicolon s → before_semicolon s ≡ s
unfolding before_semicolon
before_semicolon_self [] h = refl
before_semicolon_self (c ∷ s) h = ground (arith, before_semicolon_self s h.1)

rstrip-rstrip : (s : Text) → rstrip (rstrip s) ≡ rstrip s
unfolding rstrip
rstrip-rstrip [] = refl
rstrip-rstrip (c ∷ s) = ground (arith, rstrip-rstrip s)

lstrip-rstrip-lstrip : (s : Text) → lstrip (rstrip (lstrip s)) ≡ rstrip (lstrip s)
unfolding lstrip rstrip
lstrip-rstrip-lstrip [] = refl
lstrip-rstrip-lstrip (c ∷ s) = ground (arith, lstrip-rstrip-lstrip s)

-- Normalizing a content type a second time changes nothing.
pub normalize-normalize :
    (s : Text) → normalize_content_type (normalize_content_type s) ≡ normalize_content_type s
unfolding normalize_content_type
normalize-normalize s =
    let once : NoSemicolon (rstrip (lstrip (before_semicolon s))) =
      rstrip-NoSemicolon _ (lstrip-NoSemicolon _ (before_semicolon-NoSemicolon s)) in
    rw
      (
        before_semicolon-lower,
        lstrip-lower,
        rstrip-lower,
        map-lower-lower,
        before_semicolon_self _ once,
        lstrip-rstrip-lstrip,
        rstrip-rstrip,
      )
      refl

-- What is returned is the normalized form of what was declared.
pub validate_declared_lem :
    (declared : Text) (allowed : List Text) (m : Text)
    → validate_declared_mime_type declared allowed ≡ ok m
    → m ≡ normalize_content_type declared
unfolding validate_declared_mime_type
validate_declared_lem declared allowed m h = ground arith
