-- ===== src/Tests/Listings.antt =====
-- Paginated lists: backend/app/infrastructure/database/repositories/base.py and upload.py.
use mathlib.Core.List.{Permᴰ, Memᴰ}
use mathlib.Core.List.Permᴰ
use sentinal.Prelude.{
  ℕ, ◌≡◌, refl, sym, ◌∙◌, Bool, Bool-cases, true, false, none, some, List, [], ◌∷◌, if◌then◌else◌,
  inl, inr, ◌⊎◌, all, take, drop, arith,
}
use sentinal.Prelude.Outcome.{ok}
use sentinal.Upload
use sentinal.Intake.Tables.{read_upload, same_user}
use sentinal.Listing.{Sorting, precedes, where_, read_rows, list_rows, list_uploads_by_user}
use sentinal.Listing.Orders.{Sorts, AreDistinct, is_ordered, all-permuted}
use sentinal.Listing.Pages.{pages_from, list_rows_pages}

abbrev at_time : ℕ → Upload.Upload
at_time now = record {
  id = now;
  user_id = some 1;
  original_filename = "r.pdf";
  storage_key = "uploads/r.pdf";
  content_type = "application/pdf";
  file_size_bytes = 0;
  upload_status = Upload.pending;
  created_at = now;
  checksum_sha256 = none;
  digital_asset_id = none;
  idempotency_key = none;
  completed_at = none;
  updated_at = none;
  deleted_at = none;
}

abbrev of_another : Upload.Upload
of_another = record (at_time 6) { user_id = some 2 }

abbrev table : List Upload.Upload
table = at_time 5 ∷ of_another ∷ at_time 9 ∷ at_time 7 ∷ []

abbrev newest_first : List Upload.Upload
newest_first = at_time 9 ∷ at_time 7 ∷ at_time 5 ∷ []

-- a database to run the queries with: sorting by insertion
unfoldable pub insert_row : {A : Type 0} → (A → A → Bool) → A → List A → List A
insert_row is_before a [] = a ∷ []
insert_row is_before a (b ∷ rows) =
    let later = insert_row is_before a rows in if is_before a b then a ∷ b ∷ rows else b ∷ later

unfoldable pub order_by : {A : Type 0} → (A → A → Bool) → List A → List A
unfolding insert_row
order_by is_before [] = []
order_by is_before (a ∷ rows) = insert_row is_before a (order_by is_before rows)

insert_row-permutes :
    {A : Type 0} (is_before : A → A → Bool) (a : A) (rows : List A)
    → Permᴰ (insert_row is_before a rows) (a ∷ rows)
unfolding insert_row
insert_row-permutes is_before a [] = Permᴰ.refl (a ∷ [])
insert_row-permutes is_before a (b ∷ rows) = elim (Bool-cases (is_before a b)) [
  | inl e ↦ rw e (Permᴰ.refl (a ∷ b ∷ rows))
  | inr e ↦
      rw e (
        Permᴰ.trans (Permᴰ.cons refl (insert_row-permutes is_before a rows)) (Permᴰ.swap refl refl))
]

order_by-permutes :
    {A : Type 0} (is_before : A → A → Bool) (rows : List A) → Permᴰ (order_by is_before rows) rows
unfolding order_by
order_by-permutes is_before [] = Permᴰ.nil
order_by-permutes is_before (a ∷ rows) =
    Permᴰ.trans (insert_row-permutes is_before a (order_by is_before rows))
      (Permᴰ.cons refl (order_by-permutes is_before rows))

all_above :
    {A : Type 0} (is_desc : Bool) (column : A → ℕ) (a b : A) (rows : List A)
    → precedes is_desc column a b ≡ true
    → all (precedes is_desc column b) rows ≡ true
    → all (precedes is_desc column a) rows ≡ true
all_above is_desc column a b [] h k = refl
all_above is_desc column a b (c ∷ rows) h k =
    let k' : all (precedes is_desc column b) rows ≡ true = ground arith in
    let rest = all_above is_desc column a b rows h k' in
    let first : precedes is_desc column b c ≡ true = ground arith in
    let here : precedes is_desc column a c ≡ true = ground arith in rw (here, rest) refl

insert_row-is_ordered :
    {A : Type 0} (is_desc : Bool) (column : A → ℕ) (a : A) (rows : List A)
    → is_ordered (precedes is_desc column) rows ≡ true
    → is_ordered (precedes is_desc column) (insert_row (precedes is_desc column) a rows) ≡ true
unfolding insert_row is_ordered
insert_row-is_ordered is_desc column a [] h = refl
insert_row-is_ordered is_desc column a (b ∷ rows) h =
    let before = precedes is_desc column in
    let above : all (before b) rows ≡ true = ground arith in
    let later : is_ordered before rows ≡ true = ground arith in
    elim (Bool-cases (before a b)) [
      | inl e ↦ rw (e, e, all_above is_desc column a b rows e above, above, later) refl
      | inr e ↦
          let other : before b a ≡ true = ground arith in
          let among : all (before b) (insert_row before a rows) ≡ true =
            all-permuted (before b) (insert_row-permutes before a rows) ∙ rw (other, above) refl in
          rw (e, among, insert_row-is_ordered is_desc column a rows later) refl
    ]

order_by-is_ordered :
    {A : Type 0} (is_desc : Bool) (column : A → ℕ) (rows : List A)
    → is_ordered (precedes is_desc column) (order_by (precedes is_desc column) rows) ≡ true
unfolding order_by is_ordered
order_by-is_ordered is_desc column [] = refl
order_by-is_ordered is_desc column (a ∷ rows) =
    insert_row-is_ordered is_desc column a (order_by (precedes is_desc column) rows)
      (order_by-is_ordered is_desc column rows)

abbrev inserting : {A : Type 0} → Sorting A
inserting is_desc column rows = order_by (precedes is_desc column) rows

inserting-Sorts : {A : Type 0} → Sorts {A = A} inserting
inserting-Sorts = record {
  permutes = λ is_desc column rows. order_by-permutes (precedes is_desc column) rows;
  orders = order_by-is_ordered;
}

-- The second page of two.
second_page :
    list_uploads_by_user 1 inserting true
      (λ u. u.created_at)
      2
      2
      (record {
        committed = record { uploads = []; assets = []; audit = [] };
        tables = record { uploads = table; assets = []; audit = [] };
        is_broken = false;
      })
    ≡ ok (at_time 5 ∷ [], 3)
unfolding list_uploads_by_user Upload.construct order_by
second_page = refl

abbrev mine : Upload.Upload → Bool
mine u = same_user u.user_id (some 1)

table_read :
    read_rows (λ u. read_upload u) (inserting true (λ u. u.created_at) (where_ mine table))
    ≡ ok newest_first
unfolding read_rows order_by where_ same_user Upload.construct
table_read = refl

my_rows : where_ mine table ≡ at_time 5 ∷ at_time 9 ∷ at_time 7 ∷ []
unfolding where_ same_user
my_rows = refl

one_of_three : {A : Type 0} {a x y z : A} → Memᴰ a (x ∷ y ∷ z ∷ []) → (a ≡ x) ⊎ ((a ≡ y) ⊎ (a ≡ z))
one_of_three (Memᴰ.head e) = inl e
one_of_three (Memᴰ.tail (Memᴰ.head e)) = inr (inl e)
one_of_three (Memᴰ.tail (Memᴰ.tail (Memᴰ.head e))) = inr (inr e)
one_of_three (Memᴰ.tail (Memᴰ.tail (Memᴰ.tail m))) = elim m [ ]

three_distinct :
    AreDistinct (λ (u : Upload.Upload). u.created_at) (at_time 5 ∷ at_time 9 ∷ at_time 7 ∷ [])
three_distinct a b m n h = elim (one_of_three m) [
  | inl e ↦ elim (one_of_three n) [
    | inl f ↦ e ∙ sym f
    | inr (inl f) ↦ absurd (ground arith)
    | inr (inr f) ↦ absurd (ground arith)
  ]
  | inr (inl e) ↦ elim (one_of_three n) [
    | inl f ↦ absurd (ground arith)
    | inr (inl f) ↦ e ∙ sym f
    | inr (inr f) ↦ absurd (ground arith)
  ]
  | inr (inr e) ↦ elim (one_of_three n) [
    | inl f ↦ absurd (ground arith)
    | inr (inl f) ↦ absurd (ground arith)
    | inr (inr f) ↦ e ∙ sym f
  ]
]

rows_distinct : AreDistinct (λ (u : Upload.Upload). u.created_at) (where_ mine table)
rows_distinct = rw my_rows three_distinct

list_rows_pages_example :
    (pages_from (λ u. read_upload u) (λ skip. inserting) true (λ u. u.created_at) mine table 2 2 0
      ≡ ok newest_first)
    × ((skip : ℕ)
        → list_rows (λ u. read_upload u) inserting true (λ u. u.created_at) mine skip 2 table
          ≡ ok (take 2 (drop skip newest_first), 3))
list_rows_pages_example =
    list_rows_pages (λ u. read_upload u) (λ skip. inserting) true (λ u. u.created_at) mine table
      (λ skip. inserting-Sorts) rows_distinct 2 2 newest_first table_read (omega arith)
