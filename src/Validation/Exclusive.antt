-- ===== src/Validation/Exclusive.antt =====
-- Two binary types that the same content is accepted for.
use mathlib.Core.List.{flatten}
use sentinal.Prelude.{
  ℕ, ◌≡◌, ◌≢◌, ◌⊎◌, refl, sym, ap, ◌∙◌, true, false, Option, none, some, List, [], ◌∷◌, ◌++◌,
  length, if◌then◌else◌, arith, ◌==◌, inl, inr,
}
use sentinal.Prelude.Outcome.{ok}
use sentinal.Validation.MediaType.{Text, normalize_content_type}
use sentinal.Validation.Signature.{
  pdf_mime, png_mime, jpeg_mime, gif_mime, webp_mime, zip_mime, docx_mime, xlsx_mime, pptx_mime,
  text_mime,
}
use sentinal.Validation.Stream.{validate_upload_stream}
use sentinal.Validation.Spoofing.{
  BytesAt, Carries, pdf, png, jpeg, gif, webp, zip, office, Genuine, accepted-Genuine,
}

abbrev first : List ℕ → Option ℕ
first [] = none
first (b ∷ bs) = some b

first-BytesAt : (b : ℕ) (bs content : List ℕ) → BytesAt 0 (b ∷ bs) content → first content ≡ some b
first-BytesAt b bs content found = rw found.split (no_offset found.before found.at)
  where
    no_offset :
        (before : List ℕ) → length before ≡ 0 → first (before ++ (b ∷ bs ++ found.rest)) ≡ some b
    no_offset [] e = refl
    no_offset (x ∷ xs) e = absurd (omega arith)

abbrev pub IsZip : Text → Type 0
IsZip m = (m ≡ zip_mime) ⊎ (m ≡ docx_mime) ⊎ (m ≡ xlsx_mime) ⊎ (m ≡ pptx_mime)

-- The type that a first byte belongs to, but for the ZIP family.
type_of : ℕ → Text
type_of b =
    if b == 0x25
    then pdf_mime
    else if b == 0x89
    then png_mime
    else if b == 0xff
    then jpeg_mime
    else if b == 0x47
    then gif_mime
    else webp_mime

record Leads (content : List ℕ) (m : Text) : Type 0 where
  byte : ℕ
  leads : first content ≡ some byte
  kind : ((byte == 0x50 ≡ false) × (m ≡ type_of byte)) ⊎ ((byte == 0x50 ≡ true) × IsZip m)

BytesAt-Leads :
    (b : ℕ) (bs content : List ℕ) (m : Text)
    → BytesAt 0 (b ∷ bs) content
    → ((b == 0x50 ≡ false) × (m ≡ type_of b)) ⊎ ((b == 0x50 ≡ true) × IsZip m)
    → Leads content m
BytesAt-Leads b bs content m found k = record {
  byte = b;
  leads = first-BytesAt b bs content found;
  kind = k;
}

Carries-Leads : (content : List ℕ) (m : Text) → Carries content m → Leads content m
unfolding type_of
Carries-Leads content m (pdf e a) = BytesAt-Leads 0x25 _ content m a (inl (refl, e))
Carries-Leads content m (png e a) = BytesAt-Leads 0x89 _ content m a (inl (refl, e))
Carries-Leads content m (jpeg e a) = BytesAt-Leads 0xff _ content m a (inl (refl, e))
Carries-Leads content m (gif e (inl a)) = BytesAt-Leads 0x47 _ content m a (inl (refl, e))
Carries-Leads content m (gif e (inr a)) = BytesAt-Leads 0x47 _ content m a (inl (refl, e))
Carries-Leads content m (webp e a b) = BytesAt-Leads 0x52 _ content m a (inl (refl, e))
Carries-Leads content m (zip e (inl a)) = BytesAt-Leads 0x50 _ content m a (inr (refl, inl e))
Carries-Leads content m (zip e (inr (inl a))) = BytesAt-Leads 0x50 _ content m a (inr (refl, inl e))
Carries-Leads content m (zip e (inr (inr a))) = BytesAt-Leads 0x50 _ content m a (inr (refl, inl e))
Carries-Leads content m (office e a) = BytesAt-Leads 0x50 _ content m a (inr (refl, inr e))

abbrev Kind : ℕ → Text → Type 0
Kind b m = ((b == 0x50 ≡ false) × (m ≡ type_of b)) ⊎ ((b == 0x50 ≡ true) × IsZip m)

Kind-agree : (a b : ℕ) (m n : Text) → a ≡ b → Kind a m → Kind b n → (m ≡ n) ⊎ (IsZip m × IsZip n)
Kind-agree a b m n e (inl (x, p)) (inl (y, q)) = inl (p ∙ ap type_of e ∙ sym q)
Kind-agree a b m n e (inl (x, p)) (inr (y, q)) = absurd (ground arith)
Kind-agree a b m n e (inr (x, p)) (inl (y, q)) = absurd (ground arith)
Kind-agree a b m n e (inr (x, p)) (inr (y, q)) = inr (p, q)

Leads-agree :
    (content : List ℕ) (m n : Text)
    → Leads content m
    → Leads content n
    → (m ≡ n) ⊎ (IsZip m × IsZip n)
Leads-agree content m n l k = Kind-agree l.byte k.byte m n (cc (l.leads, k.leads)) l.kind k.kind

binary-Leads : (content : List ℕ) (m : Text) → m ≢ text_mime → Genuine content m → Leads content m
binary-Leads content m h (inl (e, _)) = absurd (h e)
binary-Leads content m h (inr c) = Carries-Leads content m c

-- If the same bytes pass under two declared types, neither of them plain text, then the types are
-- one, or both belong to the ZIP family (ZIP and the three Office formats).
pub accepted_types_agree :
    (stream one two : List (List ℕ)) (declared other : Text) (allowed : List Text)
    → normalize_content_type declared ≢ text_mime
    → normalize_content_type other ≢ text_mime
    → validate_upload_stream stream declared allowed ≡ ok one
    → validate_upload_stream stream other allowed ≡ ok two
    → (normalize_content_type declared ≡ normalize_content_type other)
      ⊎ (IsZip (normalize_content_type declared) × IsZip (normalize_content_type other))
accepted_types_agree stream one two declared other allowed h k p q =
    let (same_one, genuine_one) = accepted-Genuine stream one declared allowed p in
    let (same_two, genuine_two) = accepted-Genuine stream two other allowed q in
    Leads-agree (flatten stream) (normalize_content_type declared) (normalize_content_type other)
      (binary-Leads _ _ h (rw same_one at genuine_one))
      (binary-Leads _ _ k (rw same_two at genuine_two))
