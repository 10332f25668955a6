-- ===== src/Intake/Names.antt =====
-- File names in object keys (`_derive_storage_key` of
-- backend/app/application/services/upload_service.py).
use sentinal.Prelude.{
  ℕ, ◌+◌, ◌≡◌, inl, inr, refl, ap, ◌∙◌, Bool, true, false, ◌&&◌, ◌||◌, [], ◌∷◌, ◌++◌, ◌==◌, all,
  arith, Bool-cases, if◌then◌else◌,
}
use sentinal.Validation.MediaType.{Text, codes}
use sentinal.Intake.{is_usual, sub_unusual, sub_dots, lstrip_dots, safe_name, derive_storage_key}

abbrev starts_dot : Text → Bool
starts_dot [] = false
starts_dot (c ∷ s) = c == b'.'

-- Two dots in a row.
unfoldable pub has_dots : Text → Bool
has_dots [] = false
has_dots (c ∷ s) = (c == b'.' && starts_dot s) || has_dots s

-- Only usual characters, so no slash; no two dots in a row; no dot in front.
pub record IsSafe (s : Text) : Type 0 where
  pub usual : all is_usual s ≡ true
  pub no_dots : has_dots s ≡ false
  pub no_dot : starts_dot s ≡ false

underscore_usual : is_usual b'_' ≡ true
unfolding is_usual
underscore_usual = refl

sub_unusual_usual : (in_run : Bool) (s : Text) → all is_usual (sub_unusual in_run s) ≡ true
unfolding sub_unusual
sub_unusual_usual in_run [] = refl
sub_unusual_usual in_run (c ∷ s) =
    let outside = sub_unusual_usual false s in
    let inside = sub_unusual_usual true s in
    elim (Bool-cases (is_usual c)) [
      | inl u ↦ rw u (rw (all, u) outside)
      | inr o ↦ elim (Bool-cases in_run) [
        | inl r ↦ rw (o, r) inside
        | inr r ↦ rw (o, r) (rw (all, underscore_usual) inside)
      ]
    ]

sub_dots_usual :
    (after_dot : Bool) (s : Text)
    → all is_usual s ≡ true
    → all is_usual (sub_dots after_dot s) ≡ true
unfolding sub_dots
sub_dots_usual after_dot [] h = refl
sub_dots_usual after_dot (c ∷ s) h = ground (arith, sub_dots_usual true s, sub_dots_usual false s)

sub_dots-has_dots :
    (after_dot : Bool) (s : Text)
    → (has_dots (sub_dots after_dot s) ≡ false)
      × ((after_dot && starts_dot (sub_dots after_dot s)) ≡ false)
unfolding sub_dots has_dots
sub_dots-has_dots after_dot [] = (refl, ground arith)
sub_dots-has_dots after_dot (c ∷ s) =
    let (behind, next) = sub_dots-has_dots true s in
    let (other, any_next) = sub_dots-has_dots false s in (ground arith, ground arith)

lstrip_dots_usual : (s : Text) → all is_usual s ≡ true → all is_usual (lstrip_dots s) ≡ true
unfolding lstrip_dots
lstrip_dots_usual [] h = refl
lstrip_dots_usual (c ∷ s) h = ground (arith, lstrip_dots_usual s)

lstrip_dots_dots :
    (s : Text)
    → has_dots s ≡ false
    → (has_dots (lstrip_dots s) ≡ false) × (starts_dot (lstrip_dots s) ≡ false)
unfolding lstrip_dots has_dots
lstrip_dots_dots [] h = (refl, refl)
lstrip_dots_dots (c ∷ s) h = ground (arith, lstrip_dots_dots s)

safe_name-IsSafe : (filename : Text) → IsSafe (safe_name filename)
unfolding safe_name
safe_name-IsSafe filename =
    let usual =
      sub_dots_usual false (sub_unusual false filename) (sub_unusual_usual false filename) in
    let dots = (sub_dots-has_dots false (sub_unusual false filename)).0 in
    let (no_dots, no_dot) = lstrip_dots_dots (sub_dots false (sub_unusual false filename)) dots in
    record {
      usual = lstrip_dots_usual (sub_dots false (sub_unusual false filename)) usual;
      no_dots = no_dots;
      no_dot = no_dot;
    }

-- A name of usual characters is left alone.
sub_unusual_same : (in_run : Bool) (s : Text) → all is_usual s ≡ true → sub_unusual in_run s ≡ s
unfolding sub_unusual
sub_unusual_same in_run [] h = refl
sub_unusual_same in_run (c ∷ s) h = ground (arith, sub_unusual_same false s)

sub_dots_same :
    (after_dot : Bool) (s : Text)
    → has_dots s ≡ false
    → (after_dot && starts_dot s) ≡ false
    → sub_dots after_dot s ≡ s
unfolding sub_dots has_dots
sub_dots_same after_dot [] h g = refl
sub_dots_same after_dot (c ∷ s) h g = ground (arith, sub_dots_same true s, sub_dots_same false s)

lstrip_dots_same : (s : Text) → starts_dot s ≡ false → lstrip_dots s ≡ s
unfolding lstrip_dots
lstrip_dots_same [] h = refl
lstrip_dots_same (c ∷ s) h = ground arith

safe_name_same : (s : Text) → IsSafe s → safe_name s ≡ s
unfolding safe_name
safe_name_same s k =
    ap (λ t. lstrip_dots (sub_dots false t)) (sub_unusual_same false s k.usual)
    ∙ ap lstrip_dots (sub_dots_same false s k.no_dots refl)
    ∙ lstrip_dots_same s k.no_dot

unfoldable pub count_slashes : Text → ℕ
count_slashes [] = 0
count_slashes (c ∷ s) = (if c == b'/' then 1 else 0) + count_slashes s

count_slashes-append : (s t : Text) → count_slashes (s ++ t) ≡ count_slashes s + count_slashes t
unfolding count_slashes
count_slashes-append [] t = omega arith
count_slashes-append (c ∷ s) t = omega (arith, count_slashes-append s t)

slash_unusual : (c : ℕ) → is_usual c ≡ true → (c == b'/') ≡ false
unfolding is_usual
slash_unusual c h = ground arith

count_slashes_usual : (s : Text) → all is_usual s ≡ true → count_slashes s ≡ 0
unfolding count_slashes
count_slashes_usual [] h = refl
count_slashes_usual (c ∷ s) h = ground (arith, slash_unusual c, count_slashes_usual s)

count_slashes-derive_storage_key :
    (date upload_id filename : Text)
    → count_slashes (derive_storage_key date upload_id filename)
      ≡ 3 + (count_slashes date + count_slashes upload_id)
unfolding derive_storage_key count_slashes
count_slashes-derive_storage_key date upload_id filename =
    let name = safe_name filename in
    let day = codes "uploads/" ++ date in
    omega (
      arith,
      count_slashes-append day (codes "/"),
      count_slashes-append (day ++ codes "/") upload_id,
      count_slashes-append (day ++ codes "/" ++ upload_id) (codes "/"),
      count_slashes-append (day ++ codes "/" ++ upload_id ++ codes "/") name,
      count_slashes-append (codes "uploads/") date,
      count_slashes_usual name (safe_name-IsSafe filename).usual,
    )

-- Whatever the file is called, its name in the object key has only letters, digits, dots, underscores
-- and dashes, so no slash, it has no two dots in a row and no dot in front; a name that is already
-- like this is kept; and the key has the slashes of its date and its identifier and three more, so
-- the name adds no level to it.
pub safe_name_sanitizes :
    (date upload_id filename : Text)
    → IsSafe (safe_name filename)
      × (safe_name (safe_name filename) ≡ safe_name filename)
      × (count_slashes (derive_storage_key date upload_id filename)
          ≡ 3 + (count_slashes date + count_slashes upload_id))
safe_name_sanitizes date upload_id filename =
    let safe = safe_name-IsSafe filename in
    (
      safe,
      safe_name_same (safe_name filename) safe,
      count_slashes-derive_storage_key date upload_id filename,
    )
