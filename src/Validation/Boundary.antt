-- ===== src/Validation/Boundary.antt =====
-- Where the sniffing window of backend/app/utils/file_validation.py cuts a character in two.
use mathlib.Core.List.{flatten}
use sentinal.Prelude.{
  ap, ◌∙◌, ℕ, zero, suc, if◌then◌else◌, ◌≡◌, refl, Bool, true, false, List, [], ◌∷◌, take, arith,
  not, ◌&&◌, any,
}
use sentinal.Prelude.Outcome.{ok, err, refuse}
use sentinal.Validation.Utf8.{fresh, at_boundary, utf8_from, is_decodable_text}
use sentinal.Validation.Utf8.{is_binary_control}
use sentinal.Validation.Characters.{IsText, ends_between, text_whole, text_cut}
use sentinal.Validation.MediaType.{
  text_eq, undecodable_content, normalize_content_type, validate_declared_mime_type,
}
use sentinal.Validation.Signature.{validate_magic_bytes, text_mime, is_text_type, is_nil}
use sentinal.Validation.Stream.{sniff_bytes, validate_whole}

any-take : (p : ℕ → Bool) (n : ℕ) (bs : List ℕ) → any p bs ≡ false → any p (take n bs) ≡ false
any-take p zero bs h = refl
any-take p (suc n) [] h = refl
any-take p (suc n) (b ∷ bs) h = ground (arith, any-take p n bs)

-- The first bytes of decodable text are decodable exactly when they end between two characters.
is_decodable_text-take :
    (n : ℕ) (content : List ℕ)
    → is_decodable_text content ≡ true
    → is_decodable_text (take n content) ≡ at_boundary (utf8_from fresh (take n content))
unfolding is_decodable_text
is_decodable_text-take n content h = ground (arith, any-take is_binary_control n content)

check_text :
    (window : List ℕ) (cut : Bool)
    → is_decodable_text window ≡ cut
    → cut ≡ at_boundary (utf8_from fresh window)
    → refuse (not (is_nil window) && not (is_decodable_text window)) undecodable_content
      ≡ (if at_boundary (utf8_from fresh window) then ok tt else err undecodable_content)
check_text [] cut d e = unfold utf8_from in refl
check_text (b ∷ bs) cut d e = rw (d, ← e) (ground arith)

-- A text in the UTF-8 of the Unicode standard, given character by character and without binary
-- controls, declared as plain text, is accepted exactly when its first sixteen bytes end between two
-- characters; where they cut a character it is refused as undecodable.
pub text_verdict :
    (cs : List (List ℕ))
    → IsText cs
    → any is_binary_control (flatten cs) ≡ false
    → validate_whole (flatten cs) text_mime (text_mime ∷ [])
      ≡ (if ends_between 16 cs then ok tt else err undecodable_content)
unfolding validate_whole validate_declared_mime_type validate_magic_bytes is_text_type
    normalize_content_type text_eq is_decodable_text
text_verdict cs t clean =
    let decodable : is_decodable_text (flatten cs) ≡ true = rw (text_whole cs t, clean) refl in
    check_text (take sniff_bytes (flatten cs)) _ refl
      (is_decodable_text-take sniff_bytes (flatten cs) decodable)
    ∙ ap (λ b. if b then ok tt else err undecodable_content) (text_cut sniff_bytes cs t)
