-- ===== src/Listing/Pages.antt =====
-- The pages of a list put together (`list` of
-- backend/app/infrastructure/database/repositories/base.py).
use sentinal.Prelude.{
  ℕ, zero, suc, ◌+◌, ◌*◌, ◌≤◌, ◌≡◌, refl, sym, ap, ◌∙◌, Bool, List, [], ◌∷◌, ◌++◌, take, drop,
  length, take_all, arith, inl, inr,
}
use sentinal.Prelude.Outcome.{Result, ok, err, ◌>>=◌, Result-cases}
use sentinal.Listing.{Sorting, where_, read_rows, with_total, list_rows}
use sentinal.Listing.Orders.{Sorts, AreDistinct, same_order, length-permuted}

module _ {A : Type 0} where
  drop_none : (n : ℕ) → drop {A = A} n [] ≡ []
  drop_none zero = refl
  drop_none (suc n) = refl

  take_plus : (m n : ℕ) (xs : List A) → take (m + n) xs ≡ take m xs ++ take n (drop m xs)
  take_plus zero n xs = let same : 0 + n ≡ n = omega arith in ap (λ k. take k xs) same
  take_plus (suc m) n [] = take_all (suc m + n) [] (omega arith) ∙ sym (take_all n [] (omega arith))
  take_plus (suc m) n (x ∷ xs) =
      let next : suc m + n ≡ suc (m + n) = omega arith in
      ap (λ k. take k (x ∷ xs)) next ∙ ap (λ l. x ∷ l) (take_plus m n xs)

  drop_plus : (m n : ℕ) (xs : List A) → drop (m + n) xs ≡ drop n (drop m xs)
  drop_plus zero n xs = let same : 0 + n ≡ n = omega arith in ap (λ k. drop k xs) same
  drop_plus (suc m) n [] = drop_none (suc m + n) ∙ sym (drop_none n)
  drop_plus (suc m) n (x ∷ xs) =
      let next : suc m + n ≡ suc (m + n) = omega arith in
      ap (λ k. drop k (x ∷ xs)) next ∙ drop_plus m n xs

ok_equal : {E A : Type 0} (a b : A) → ◌≡◌ {A = Result E A} (ok a) (ok b) → a ≡ b
ok_equal a b h = ground arith

err_apart : {E A : Type 0} (e : E) (a : A) → ◌≡◌ {A = Result E A} (err e) (ok a) → ⊥
err_apart e a h = ground arith

module _ {A E V : Type 0} (to_domain : A → Result E V) where
  read_nothing : read_rows to_domain [] ≡ ok []
  unfolding read_rows
  read_nothing = refl

  nothing_read : (vs : List V) → read_rows to_domain [] ≡ ok vs → [] ≡ vs
  nothing_read vs h = ok_equal [] vs (sym read_nothing ∙ h)

  read_parts :
      (a : A) (rows : List A) (vs : List V)
      → read_rows to_domain (a ∷ rows) ≡ ok vs
      → (v : V) × (rest : List V) × (to_domain a ≡ ok v)
        × (read_rows to_domain rows ≡ ok rest)
        × (v ∷ rest ≡ vs)
  unfolding read_rows
  read_parts a rows vs h = elim (Result-cases (to_domain a)) [
    | inl (v, e) ↦ elim (Result-cases (read_rows to_domain rows)) [
      | inl (rest, f) ↦
          let runs : read_rows to_domain (a ∷ rows) ≡ ok (v ∷ rest) = rw (e, f) refl in
          (v, rest, e, f, ok_equal (v ∷ rest) vs (sym runs ∙ h))
      | inr (x, f) ↦
          let runs : read_rows to_domain (a ∷ rows) ≡ err x = rw (e, f) refl in
          absurd (err_apart x vs (sym runs ∙ h))
    ]
    | inr (x, e) ↦
        let runs : read_rows to_domain (a ∷ rows) ≡ err x = rw e refl in
        absurd (err_apart x vs (sym runs ∙ h))
  ]

  read_rows_cons :
      (a : A) (v : V) (rows : List A) (rest : List V)
      → to_domain a ≡ ok v
      → read_rows to_domain rows ≡ ok rest
      → read_rows to_domain (a ∷ rows) ≡ ok (v ∷ rest)
  unfolding read_rows
  read_rows_cons a v rows rest e f = rw (e, f) refl

  read_rows-take :
      (n : ℕ) (rows : List A) (vs : List V)
      → read_rows to_domain rows ≡ ok vs
      → read_rows to_domain (take n rows) ≡ ok (take n vs)
  read_rows-take zero rows vs h = read_nothing
  read_rows-take (suc n) [] vs h = read_nothing ∙ ap (λ l. ok (take (suc n) l)) (nothing_read vs h)
  read_rows-take (suc n) (a ∷ rows) vs h =
      let (v, rest, e, f, same) = read_parts a rows vs h in
      read_rows_cons a v (take n rows) (take n rest) e (read_rows-take n rows rest f)
      ∙ ap (λ l. ok (take (suc n) l)) same

  read_rows-drop :
      (n : ℕ) (rows : List A) (vs : List V)
      → read_rows to_domain rows ≡ ok vs
      → read_rows to_domain (drop n rows) ≡ ok (drop n vs)
  read_rows-drop zero rows vs h = h
  read_rows-drop (suc n) [] vs h = read_nothing ∙ ap (λ l. ok (drop (suc n) l)) (nothing_read vs h)
  read_rows-drop (suc n) (a ∷ rows) vs h =
      let (v, rest, e, f, same) = read_parts a rows vs h in
      read_rows-drop n rows rest f ∙ ap (λ l. ok (drop (suc n) l)) same

module _ {A E V : Type 0} (to_domain : A → Result E V) (sorts : ℕ → Sorting A) (is_desc : Bool)
    (column : A → ℕ) (test : A → Bool) (rows : List A) where
  -- A client that asks for one page after the other: the query of the page that skips `skip` entries
  -- has the order `sorts skip`.
  unfoldable pub pages_from : (limit pages skip : ℕ) → Result E (List V)
  unfolding list_rows
  pages_from limit zero skip = ok []
  pages_from limit (suc pages) skip = do
    page ← list_rows to_domain (sorts skip) is_desc column test skip limit rows
    rest ← pages_from limit pages (skip + limit)
    ok (page.0 ++ rest)

  module _ (sound : (skip : ℕ) → Sorts (sorts skip))
      (distinct : AreDistinct column (where_ test rows)) where
    one_page :
        (skip limit : ℕ) (vs : List V)
        → read_rows to_domain (sorts 0 is_desc column (where_ test rows)) ≡ ok vs
        → list_rows to_domain (sorts skip) is_desc column test skip limit rows
          ≡ ok (take limit (drop skip vs), length (where_ test rows))
    unfolding list_rows
    one_page skip limit vs h =
        let same =
          same_order is_desc column (where_ test rows) distinct (sorts skip) (sorts 0) (sound skip)
            (sound 0) in
        ap (with_total to_domain (length (where_ test rows))) (
          read_rows-take to_domain limit _ (drop skip vs)
            (read_rows-drop to_domain skip _ vs (ap (read_rows to_domain) same ∙ h)))

    next_page : (pages limit : ℕ) → (suc pages * limit) ≡ limit + pages * limit
    next_page pages limit = omega arith

    pages_taken :
        (limit pages skip : ℕ) (vs : List V)
        → read_rows to_domain (sorts 0 is_desc column (where_ test rows)) ≡ ok vs
        → pages_from limit pages skip ≡ ok (take (pages * limit) (drop skip vs))
    unfolding pages_from
    pages_taken limit zero skip vs h =
        let none_left : zero * limit ≡ 0 = omega arith in
        ap (λ k. ok (take k (drop skip vs))) (sym none_left)
    pages_taken limit (suc pages) skip vs h =
        let here = one_page skip limit vs h in
        let later = pages_taken limit pages (skip + limit) vs h in
        let joined : take limit (drop skip vs) ++ take (pages * limit) (drop (skip + limit) vs)
            ≡ take (suc pages * limit) (drop skip vs) =
          ap (λ l. take limit (drop skip vs) ++ take (pages * limit) l) (drop_plus skip limit vs)
          ∙ sym (take_plus limit (pages * limit) (drop skip vs))
          ∙ ap (λ k. take k (drop skip vs)) (sym (next_page pages limit)) in
        rw (here, later) (ap ok joined)

    length-read_rows :
        (given : List A) (vs : List V)
        → read_rows to_domain given ≡ ok vs
        → length vs ≡ length given
    length-read_rows [] vs h = sym (ap length (nothing_read to_domain vs h))
    length-read_rows (a ∷ given) vs h =
        let (v, rest, e, f, same) = read_parts to_domain a given vs h in
        sym (ap length same) ∙ ap suc (length-read_rows given rest f)

    -- Where every query gives back the rows in the order of the column, each in a way of its own, and
    -- the rows of the list, no two of which have the same value in the column, can be read: each page
    -- carries the number of all entries, and the pages that a client asks for one after the other, as
    -- many as that number needs, make up the whole list in that order, every entry once.
    pub list_rows_pages :
        (limit pages : ℕ) (vs : List V)
        → read_rows to_domain (sorts 0 is_desc column (where_ test rows)) ≡ ok vs
        → length vs ≤ pages * limit
        → (pages_from limit pages 0 ≡ ok vs)
          × ((skip : ℕ)
              → list_rows to_domain (sorts skip) is_desc column test skip limit rows
                ≡ ok (take limit (drop skip vs), length vs))
    list_rows_pages limit pages vs h enough =
        let all_rows = where_ test rows in
        let total : length all_rows ≡ length vs = sym (
          length-read_rows (sorts 0 is_desc column all_rows) vs h
          ∙ length-permuted ((sound 0).permutes is_desc column all_rows)) in
        (
          pages_taken limit pages 0 vs h ∙ ap ok (take_all (pages * limit) vs enough),
          λ skip. one_page skip limit vs h ∙ ap (λ n. ok (take limit (drop skip vs), n)) total,
        )
