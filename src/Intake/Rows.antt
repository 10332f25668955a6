-- ===== src/Intake/Rows.antt =====
-- The row of an upload by its idempotency key (backend/app/infrastructure/database/repositories/upload.py
-- and base.py).
use sentinal.Prelude.{
  ℕ, String, ◌≡◌, inl, inr, refl, sym, ap, ◌∙◌, Bool, true, false, ◌&&◌, none, some, List, [], ◌∷◌,
  ◌++◌, any, ◌==◌, is_none, arith, Bool-cases, if◌then◌else◌,
}
use sentinal.Upload
use sentinal.Intake.Tables.{
  find_upload, write_upload, find_idempotent, upload_clashes, same_key, same_user,
}

-- A live row has the user and the idempotency key.
unfoldable pub has_key : (user_id : ℕ) (key : String) → Upload.Upload → Bool
unfolding same_key same_user
has_key user_id key u =
    same_user u.user_id (some user_id)
    && same_key u.idempotency_key (some key)
    && is_none u.deleted_at

pub find_upload_id :
    (id : ℕ) (uploads : List Upload.Upload) (u : Upload.Upload)
    → find_upload id uploads ≡ some u
    → u.id ≡ id
unfolding find_upload
find_upload_id id [] u h = ground arith
find_upload_id id (v ∷ uploads) u h = ground (arith, find_upload_id id uploads u)

find_idempotent_key :
    (user_id : ℕ) (key : String) (uploads : List Upload.Upload) (u : Upload.Upload)
    → find_idempotent user_id key uploads ≡ some u
    → has_key user_id key u ≡ true
unfolding find_idempotent has_key
find_idempotent_key user_id key [] u h = ground arith
find_idempotent_key user_id key (v ∷ uploads) u h =
    ground (arith, find_idempotent_key user_id key uploads u)

-- The row with the identifier is the one that the key finds.
pub record Tracked (user_id : ℕ) (key : String) (id : ℕ) (uploads : List Upload.Upload)
    (u : Upload.Upload) : Type 0 where
  pub by_key : find_idempotent user_id key uploads ≡ some u
  pub by_id : find_upload id uploads ≡ some u

pub unclashed_id :
    (new : Upload.Upload) (uploads : List Upload.Upload)
    → any (upload_clashes new) uploads ≡ false
    → find_upload new.id uploads ≡ none
unfolding find_upload upload_clashes
unclashed_id new [] h = refl
unclashed_id new (v ∷ uploads) h = ground (arith, unclashed_id new uploads)

pub find_upload-append :
    (id : ℕ) (uploads : List Upload.Upload) (u : Upload.Upload)
    → find_upload id uploads ≡ none
    → u.id ≡ id
    → find_upload id (uploads ++ u ∷ []) ≡ some u
unfolding find_upload
find_upload-append id [] u h e = ground arith
find_upload-append id (v ∷ uploads) u h e = ground (arith, find_upload-append id uploads u)

pub find_idempotent-append :
    (user_id : ℕ) (key : String) (uploads : List Upload.Upload) (u : Upload.Upload)
    → find_idempotent user_id key uploads ≡ none
    → has_key user_id key u ≡ true
    → find_idempotent user_id key (uploads ++ u ∷ []) ≡ some u
unfolding find_idempotent has_key
find_idempotent-append user_id key [] u h e = ground arith
find_idempotent-append user_id key (v ∷ uploads) u h e =
    ground (arith, find_idempotent-append user_id key uploads u)

-- An update that leaves what identifies a row.
pub record Identity (id : ℕ) (write : Upload.Upload → Upload.Upload) : Type 0 where
  pub same_id : (u : Upload.Upload) → (write u).id ≡ u.id
  pub same_has_key :
      (user_id : ℕ) (key : String) (u : Upload.Upload)
      → has_key user_id key (write u) ≡ has_key user_id key u

pub write_upload_id :
    (id : ℕ) (write : Upload.Upload → Upload.Upload) (uploads : List Upload.Upload)
    (u : Upload.Upload)
    → Identity id write
    → find_upload id uploads ≡ some u
    → find_upload id (write_upload id write uploads) ≡ some (write u)
unfolding find_upload write_upload
write_upload_id id write [] u w h = ground arith
write_upload_id id write (v ∷ uploads) u w h = elim (Bool-cases (v.id == id)) [
  | inl y ↦
      let same : v ≡ u = ground arith in
      let still : ((write v).id == id) ≡ true = ground (arith, w.same_id v) in
      rw (y, still) (ap (λ x. some (write x)) same)
  | inr n ↦ rw (n, n) (write_upload_id id write uploads u w (ground arith))
]

find_idempotent_step :
    (user_id : ℕ) (key : String) (v : Upload.Upload) (uploads : List Upload.Upload)
    → find_idempotent user_id key (v ∷ uploads)
      ≡ (if has_key user_id key v then some v else find_idempotent user_id key uploads)
unfolding find_idempotent has_key
find_idempotent_step user_id key v uploads = refl

pub write_upload_key :
    (user_id : ℕ) (key : String) (id : ℕ) (write : Upload.Upload → Upload.Upload)
    (uploads : List Upload.Upload) (u : Upload.Upload)
    → Identity id write
    → Tracked user_id key id uploads u
    → find_idempotent user_id key (write_upload id write uploads) ≡ some (write u)
unfolding find_idempotent find_upload write_upload
write_upload_key user_id key id write [] u w t = let gone = t.by_key in ground arith
write_upload_key user_id key id write (v ∷ uploads) u w t = elim (Bool-cases (v.id == id)) [
  | inl y ↦
      let found = t.by_id in
      let same : v ≡ u = ground arith in
      let matches : has_key user_id key (write v) ≡ true =
        w.same_has_key user_id key v
        ∙ ap (has_key user_id key) same
        ∙ find_idempotent_key user_id key (v ∷ uploads) u t.by_key in
      rw (y, find_idempotent_step user_id key (write v) uploads, matches)
        (ap (λ x. some (write x)) same)
  | inr n ↦ elim (Bool-cases (has_key user_id key v)) [
    | inl matches ↦
        let found : some v ≡ some u =
          sym (rw (find_idempotent_step user_id key v uploads, matches) refl) ∙ t.by_key in
        let id_of = find_upload_id id (v ∷ uploads) u t.by_id in
        let same : v ≡ u = ground arith in
        let its_id : v.id ≡ id = ap (λ x. x.id) same ∙ id_of in absurd (ground arith)
    | inr apart ↦
        let here : find_idempotent user_id key (v ∷ uploads) ≡ find_idempotent user_id key uploads =
          rw (find_idempotent_step user_id key v uploads, apart) refl in
        let there : find_upload id (v ∷ uploads) ≡ find_upload id uploads = rw n refl in
        rw (n, find_idempotent_step user_id key v (write_upload id write uploads), apart)
          (write_upload_key user_id key id write uploads u w
            record { by_key = sym here ∙ t.by_key; by_id = sym there ∙ t.by_id })
  ]
]
