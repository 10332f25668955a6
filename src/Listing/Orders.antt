-- ===== src/Listing/Orders.antt =====
-- What `ORDER BY` leaves open (the query of `list` in
-- backend/app/infrastructure/database/repositories/base.py): rows are in the order of the column, and
-- those with the same value may stand in any order, another one in every query.
use mathlib.Core.Bool.{Bool-set}
use mathlib.Core.Logic.{∥∥₁_elim}
use mathlib.Core.List.{Perm, Permᴰ, Memᴰ}
use mathlib.Core.List.Perm
use mathlib.Core.List.Memᴰ
use sentinal.Prelude.{
  ℕ, ◌≡◌, refl, sym, ap, ◌∙◌, Bool, true, ◌&&◌, List, [], ◌∷◌, arith, inl, inr, all, length, suc,
}
use sentinal.Listing.{Sorting, precedes}

all_swap : (p q r : Bool) → (p && (q && r)) ≡ (q && (p && r))
all_swap p q r = ground arith

module _ {A : Type 0} where
  -- every row is before, or level with, each row behind it
  unfoldable pub is_ordered : (is_before : A → A → Bool) → List A → Bool
  is_ordered is_before [] = true
  is_ordered is_before (a ∷ rows) = all (is_before a) rows && is_ordered is_before rows

  member : {a : A} {xs ys : List A} → Permᴰ xs ys → Memᴰ a xs → Memᴰ a ys
  member Permᴰ.nil m = m
  member (Permᴰ.cons e d) m = elim (Memᴰ.cases_cons m) [
    | inl h ↦ Memᴰ.head (h ∙ e)
    | inr t ↦ Memᴰ.tail (member d t)
  ]
  member (Permᴰ.swap e f) m = elim (Memᴰ.cases_cons m) [
    | inl h ↦ Memᴰ.tail (Memᴰ.head (h ∙ e))
    | inr t ↦ elim (Memᴰ.cases_cons t) [
      | inl h ↦ Memᴰ.head (h ∙ f)
      | inr u ↦ Memᴰ.tail (Memᴰ.tail u)
    ]
  ]
  member (Permᴰ.trans d e) m = member e (member d m)

  pub length-permuted : {xs ys : List A} → Permᴰ xs ys → length xs ≡ length ys
  length-permuted Permᴰ.nil = refl
  length-permuted (Permᴰ.cons e d) = ap suc (length-permuted d)
  length-permuted (Permᴰ.swap e f) = refl
  length-permuted (Permᴰ.trans d e) = length-permuted d ∙ length-permuted e

  pub all-permuted : (p : A → Bool) {xs ys : List A} → Permᴰ xs ys → all p xs ≡ all p ys
  all-permuted p Permᴰ.nil = refl
  all-permuted p (Permᴰ.cons {b = b} e d) = rw (e, all-permuted p d) refl
  all-permuted p (Permᴰ.swap {a = a} {b = b} {l = l} e f) =
      rw (← e, ← f) (all_swap (p a) (p b) (all p l))
  all-permuted p (Permᴰ.trans d e) = all-permuted p d ∙ all-permuted p e

  all-perm : (p : A → Bool) {xs ys : List A} → Perm xs ys → all p xs ≡ all p ys
  all-perm p {xs} {ys} h = ∥∥₁_elim h (Bool-set (all p xs) (all p ys)) (λ d. all-permuted p d)

-- What the database documents of `ORDER BY`: it gives back the rows, in the order of the column.
pub record Sorts {A : Type 0} (sort : Sorting A) : Type 0 where
  pub permutes :
      (is_desc : Bool) (column : A → ℕ) (rows : List A) → Permᴰ (sort is_desc column rows) rows
  pub orders :
      (is_desc : Bool) (column : A → ℕ) (rows : List A)
      → is_ordered (precedes is_desc column) (sort is_desc column rows) ≡ true

-- No two of the rows have the same value in the column.
abbrev pub AreDistinct : {A : Type 0} → (A → ℕ) → List A → Type 0
AreDistinct {A} column rows = (a b : A) → Memᴰ a rows → Memᴰ b rows → column a ≡ column b → a ≡ b

module _ {A : Type 0} (is_desc : Bool) (column : A → ℕ) (rows : List A)
    (distinct : AreDistinct column rows) where
  level :
      (a b : A)
      → precedes is_desc column a b ≡ true
      → precedes is_desc column b a ≡ true
      → column a ≡ column b
  level a b h h' = ground arith

  first_of_all :
      (a : A) (xs : List A)
      → is_ordered (precedes is_desc column) (a ∷ xs) ≡ true
      → (all (precedes is_desc column a) (a ∷ xs) ≡ true)
        × (is_ordered (precedes is_desc column) xs ≡ true)
  unfolding is_ordered
  first_of_all a xs h = (ground arith, ground arith)

  head_of : (p : A → Bool) (a : A) (xs : List A) → all p (a ∷ xs) ≡ true → p a ≡ true
  head_of p a xs h = ground arith

  -- Two answers to a query whose column tells the rows apart are the same.
  pub ordered_unique :
      (xs ys : List A)
      → ((a : A) → Memᴰ a xs → Memᴰ a rows)
      → ((a : A) → Memᴰ a ys → Memᴰ a rows)
      → is_ordered (precedes is_desc column) xs ≡ true
      → is_ordered (precedes is_desc column) ys ≡ true
      → Perm xs ys
      → xs ≡ ys
  ordered_unique [] ys _ _ _ _ p = Perm.nil-eq p
  ordered_unique (a ∷ xs) [] _ _ _ _ p = Perm.eq-nil p
  ordered_unique (a ∷ xs) (b ∷ ys) sub sub' o o' p =
      let before = precedes is_desc column in
      let (above, later) = first_of_all a xs o in
      let (above', later') = first_of_all b ys o' in
      let here = head_of (before a) b ys (sym (all-perm (before a) p) ∙ above) in
      let there = head_of (before b) a xs (all-perm (before b) p ∙ above') in
      let same : a ≡ b =
        distinct a b (sub a (Memᴰ.head refl)) (sub' b (Memᴰ.head refl)) (level a b here there) in
      let rest =
        ordered_unique xs ys (λ c m. sub c (Memᴰ.tail m)) (λ c m. sub' c (Memᴰ.tail m)) later later'
          (Perm.cons_inv (Perm.trans p (Perm.cons' (sym same) (Perm.refl ys)))) in
      λ i. same i ∷ rest i

  pub same_order :
      (s t : Sorting A) → Sorts s → Sorts t → s is_desc column rows ≡ t is_desc column rows
  same_order s t k l =
      let d = k.permutes is_desc column rows in
      let e = l.permutes is_desc column rows in
      ordered_unique (s is_desc column rows) (t is_desc column rows) (λ a m. member d m)
        (λ a m. member e m) (k.orders is_desc column rows) (l.orders is_desc column rows)
        (Perm.trans ∣ d ∣₁ (Perm.symm ∣ e ∣₁))
