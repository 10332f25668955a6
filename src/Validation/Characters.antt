-- ===== src/Validation/Characters.antt =====
-- UTF-8 as the Unicode standard defines it, by the scalar values that the bytes stand for: the
-- independent description of a text that the decoder of Validation/Utf8 is compared with.
use mathlib.Core.List.{flatten}
use sentinal.Prelude.{
  ℕ, zero, suc, ◌+◌, ◌*◌, ◌-◌, ◌≤◌, ◌<◌, if◌then◌else◌, ◌≡◌, ◌⊎◌, inl, inr, refl, ap, ◌∙◌, Bool,
  true, false, List, [], ◌∷◌, ◌++◌, take, take-append_le, Bool-cases, arith, leb, length, ◌==◌,
}
use sentinal.Validation.Utf8.{fresh, next_byte, at_boundary, utf8_from, utf8_from-append}

-- `bs` are the bytes of the scalar value `c`: the bits of `c` in groups of six, and no more bytes than
-- it needs.
pub data IsEncoded (c : ℕ) : List ℕ → Type 0 where
  one : c < 0x80 → IsEncoded c (c ∷ [])
  two :
      (p q : ℕ)
      → c ≡ p * 64 + q
      → q < 64
      → 0x80 ≤ c
      → c < 0x800
      → IsEncoded c ((0xc0 + p) ∷ (0x80 + q) ∷ [])
  three :
      (p q r : ℕ)
      → c ≡ p * 4096 + q * 64 + r
      → q < 64
      → r < 64
      → 0x800 ≤ c
      → c < 0x10000
      → (c < 0xd800) ⊎ (0xe000 ≤ c)
      → IsEncoded c ((0xe0 + p) ∷ (0x80 + q) ∷ (0x80 + r) ∷ [])
  four :
      (p q r s : ℕ)
      → c ≡ p * 262144 + q * 4096 + r * 64 + s
      → q < 64
      → r < 64
      → s < 64
      → 0x10000 ≤ c
      → c < 0x110000
      → IsEncoded c ((0xf0 + p) ∷ (0x80 + q) ∷ (0x80 + r) ∷ (0x80 + s) ∷ [])

encoded_two :
    (p q : ℕ) → 2 ≤ p → p < 32 → q < 64 → utf8_from fresh ((0xc0 + p) ∷ (0x80 + q) ∷ []) ≡ fresh
unfolding utf8_from next_byte
encoded_two p q h h' k = ground arith

encoded_three :
    (p q r : ℕ)
    → p < 16
    → q < 64
    → r < 64
    → 32 ≤ p * 64 + q
    → (p * 64 + q < 864) ⊎ (896 ≤ p * 64 + q)
    → utf8_from fresh ((0xe0 + p) ∷ (0x80 + q) ∷ (0x80 + r) ∷ []) ≡ fresh
unfolding utf8_from next_byte
encoded_three p q r h h' h'' k k' = ground arith

encoded_four :
    (p q r s : ℕ)
    → q < 64
    → r < 64
    → s < 64
    → 16 ≤ p * 64 + q
    → p * 64 + q < 272
    → utf8_from fresh ((0xf0 + p) ∷ (0x80 + q) ∷ (0x80 + r) ∷ (0x80 + s) ∷ []) ≡ fresh
unfolding utf8_from next_byte
encoded_four p q r s h h' h'' k k' = ground arith

encoded_whole : (c : ℕ) (bs : List ℕ) → IsEncoded c bs → utf8_from fresh bs ≡ fresh
unfolding utf8_from next_byte
encoded_whole c _ (one h) = ground arith
encoded_whole c _ (two p q e h k k') = encoded_two p q (omega arith) (omega arith) h
encoded_whole c _ (three p q r e h h' k k' (inl x)) =
    encoded_three p q r (omega arith) h h' (omega arith) (inl (omega arith))
encoded_whole c _ (three p q r e h h' k k' (inr x)) =
    encoded_three p q r (omega arith) h h' (omega arith) (inr (omega arith))
encoded_whole c _ (four p q r s e h h' h'' k k') =
    encoded_four p q r s h h' h'' (omega arith) (omega arith)

cut_one : (b : ℕ) → 0xc0 ≤ b → at_boundary (utf8_from fresh (b ∷ [])) ≡ false
unfolding utf8_from next_byte
cut_one b h = ground arith

cut_two : (b b' : ℕ) → 0xe0 ≤ b → at_boundary (utf8_from fresh (b ∷ b' ∷ [])) ≡ false
unfolding utf8_from next_byte
cut_two b b' h = ground arith

cut_three : (b b' b'' : ℕ) → 0xf0 ≤ b → at_boundary (utf8_from fresh (b ∷ b' ∷ b'' ∷ [])) ≡ false
unfolding utf8_from next_byte
cut_three b b' b'' h = ground arith

encoded_cut :
    (n c : ℕ) (bs : List ℕ)
    → IsEncoded c bs
    → 0 < n
    → n < length bs
    → at_boundary (utf8_from fresh (take n bs)) ≡ false
encoded_cut zero c bs k h h' = absurd (omega arith)
encoded_cut (suc zero) c _ (one _) h h' = absurd (omega arith)
encoded_cut (suc zero) c _ (two p q _ _ _ _) h h' = cut_one (0xc0 + p) (omega arith)
encoded_cut (suc zero) c _ (three p q r _ _ _ _ _ _) h h' = cut_one (0xe0 + p) (omega arith)
encoded_cut (suc zero) c _ (four p q r s _ _ _ _ _ _) h h' = cut_one (0xf0 + p) (omega arith)
encoded_cut (suc (suc zero)) c _ (three p q r _ _ _ _ _ _) h h' =
    cut_two (0xe0 + p) (0x80 + q) (omega arith)
encoded_cut (suc (suc zero)) c _ (four p q r s _ _ _ _ _ _) h h' =
    cut_two (0xf0 + p) (0x80 + q) (omega arith)
encoded_cut (suc (suc zero)) c _ (one _) h h' = absurd (omega arith)
encoded_cut (suc (suc zero)) c _ (two p q _ _ _ _) h h' = absurd (omega arith)
encoded_cut (suc (suc (suc zero))) c _ (four p q r s _ _ _ _ _ _) h h' =
    cut_three (0xf0 + p) (0x80 + q) (0x80 + r) (omega arith)
encoded_cut (suc (suc (suc zero))) c _ (one _) h h' = absurd (omega arith)
encoded_cut (suc (suc (suc zero))) c _ (two p q _ _ _ _) h h' = absurd (omega arith)
encoded_cut (suc (suc (suc zero))) c _ (three p q r _ _ _ _ _ _) h h' = absurd (omega arith)
encoded_cut (suc (suc (suc (suc n)))) c _ (one _) h h' = absurd (omega arith)
encoded_cut (suc (suc (suc (suc n)))) c _ (two p q _ _ _ _) h h' = absurd (omega arith)
encoded_cut (suc (suc (suc (suc n)))) c _ (three p q r _ _ _ _ _ _) h h' = absurd (omega arith)
encoded_cut (suc (suc (suc (suc n)))) c _ (four p q r s _ _ _ _ _ _) h h' = absurd (omega arith)

-- a text, character by character
pub data IsText : List (List ℕ) → Type 0 where
  nothing : IsText []
  character :
      {bs : List ℕ} {cs : List (List ℕ)} → (c : ℕ) → IsEncoded c bs → IsText cs → IsText (bs ∷ cs)

-- whether the first `n` bytes of the text end between two characters
unfoldable pub ends_between : ℕ → List (List ℕ) → Bool
ends_between n [] = true
ends_between n (bs ∷ cs) =
    let rest = ends_between (n - length bs) cs in
    if n == 0 then true else if leb (length bs) n then rest else false

encoded_some : (c : ℕ) (bs : List ℕ) → IsEncoded c bs → 0 < length bs
encoded_some c _ (one _) = omega arith
encoded_some c _ (two p q _ _ _ _) = omega arith
encoded_some c _ (three p q r _ _ _ _ _ _) = omega arith
encoded_some c _ (four p q r s _ _ _ _ _ _) = omega arith

take-append_ge :
    (n : ℕ) (xs ys : List ℕ) → length xs ≤ n → take n (xs ++ ys) ≡ xs ++ take (n - length xs) ys
take-append_ge n [] ys h = let same : n ≡ n - 0 = omega arith in ap (λ k. take k ys) same
take-append_ge zero (x ∷ xs) ys h = absurd (omega arith)
take-append_ge (suc n) (x ∷ xs) ys h =
    let same : n - length xs ≡ suc n - suc (length xs) = omega arith in
    ap (λ l. x ∷ l) (take-append_ge n xs ys (omega arith) ∙ ap (λ k. xs ++ take k ys) same)

pub text_whole : (cs : List (List ℕ)) → IsText cs → utf8_from fresh (flatten cs) ≡ fresh
unfolding utf8_from flatten
text_whole _ nothing = refl
text_whole _ (character {bs = bs} {cs = cs} c k t) =
    utf8_from-append fresh bs (flatten cs)
    ∙ ap (λ s. utf8_from s (flatten cs)) (encoded_whole c bs k)
    ∙ text_whole cs t

pub text_cut :
    (n : ℕ) (cs : List (List ℕ))
    → IsText cs
    → at_boundary (utf8_from fresh (take n (flatten cs))) ≡ ends_between n cs
unfolding ends_between flatten utf8_from
text_cut zero _ nothing = refl
text_cut (suc n) _ nothing = refl
text_cut zero _ (character {bs = bs} {cs = cs} c k t) = ground arith
text_cut (suc n) _ (character {bs = bs} {cs = cs} c k t) =
    elim (Bool-cases (leb (length bs) (suc n))) [
      | inl e ↦
          let fits : length bs ≤ suc n = ground arith in
          let rest = text_cut (suc n - length bs) cs t in
          rw (take-append_ge (suc n) bs (flatten cs) fits) (
            rw (utf8_from-append fresh bs (take (suc n - length bs) (flatten cs)))
              (rw (encoded_whole c bs k) (ground (arith, rest))))
      | inr e ↦
          let short : suc n < length bs = ground arith in
          rw (take-append_le (suc n) bs (flatten cs) (omega arith))
            (ground (arith, encoded_cut (suc n) c bs k (omega arith) short))
    ]
