-- ===== src/Intake/Resolving.antt =====
-- `_resolve_asset` of backend/app/application/services/upload_service.py: what it finds or adds.
use sentinal.Prelude.{
  ℕ, String, ◌≡◌, inl, inr, refl, sym, ap, ◌∙◌, Option, none, some, List, [], ◌∷◌, ◌++◌, arith,
  Bool-cases, Option-cases,
}
use sentinal.Prelude.Outcome.{Result, ok, err, Result-cases}
use sentinal.Upload
use sentinal.Asset
use sentinal.Asset.{DigitalAsset, AssetError, create_file, Labels}
use sentinal.Repository.Session.{RepositoryException, not_found}
use sentinal.Intake.Tables.{Tables, Records, find_hash, get_by_hash, create_asset, stored_asset}
use sentinal.Intake.World.{Bucket, Outside, IntakeError, World}
use sentinal.Intake.Process.{no_labels, after_asset, store_asset, drop_object, resolve_asset}
use sentinal.Intake.Keeps.{create_asset_ok, create_asset_committed}
use sentinal.Intake.Lookups.{Frame}

get_by_hash_ok :
    (hash : String) (db : Records) (a : DigitalAsset)
    → get_by_hash hash db ≡ ok a
    → (b : DigitalAsset) × (find_hash hash db.tables.assets ≡ some b)
unfolding get_by_hash
get_by_hash_ok hash db a h = elim (Option-cases (find_hash hash db.tables.assets)) [
  | inl e ↦ ground arith
  | inr (b, e) ↦ (b, e)
]

get_by_hash_not_found :
    (hash : String) (db : Records)
    → get_by_hash hash db ≡ err not_found
    → find_hash hash db.tables.assets ≡ none
unfolding get_by_hash
get_by_hash_not_found hash db h = elim (Option-cases (find_hash hash db.tables.assets)) [
  | inl e ↦ e
  | inr (b, e) ↦ elim (Result-cases (Asset.construct b)) [
    | inl (v, f) ↦ ground arith
    | inr (x, f) ↦ ground arith
  ]
]

create_file_ok :
    (now user_id : ℕ) (hash mime : String) (size : ℕ) (raw : String) (id : ℕ) (key : Option String)
    (l : Labels) (a : DigitalAsset)
    → create_file now user_id hash mime size raw id key l ≡ ok a
    → (a.sha256_hash ≡ some hash) × (a.storage_key ≡ key) × (a.deleted_at ≡ none)
unfolding create_file
create_file_ok now user_id hash mime size raw id key l a h = ground arith

module _ (B : Bucket) (sha256 : List ℕ → String) (T : Tables) (key : String)
    (content : List ℕ) where
  -- The asset of the content: one that was there, or a new one with an object of its own.
  pub data Found (w : World B.State) : Type 0 where
    known :
        (a : DigitalAsset)
        → w.records.tables.assets ≡ T.assets
        → find_hash (sha256 content) T.assets ≡ some a
        → Found w
    added :
        (n : DigitalAsset)
        → w.records.tables.assets ≡ T.assets ++ n ∷ []
        → find_hash (sha256 content) T.assets ≡ none
        → n.sha256_hash ≡ some (sha256 content)
        → n.storage_key ≡ some key
        → n.deleted_at ≡ none
        → B.get w.bucket key ≡ some content
        → Found w

  -- What the steps up to the asset leave of a state.
  pub record Resolved (s : B.State) (d : Result IntakeError DigitalAsset × World B.State)
      : Type 0 where
    pub committed : d.1.records.committed ≡ T
    pub frame : Frame B sha256 key s d.1.bucket
    pub found : (a : DigitalAsset) → d.0 ≡ ok a → Found d.1

  -- A state in which the assets are those of the request's begin.
  pub record Before (s : B.State) (w : World B.State) : Type 0 where
    pub committed : w.records.committed ≡ T
    pub assets : w.records.tables.assets ≡ T.assets
    pub frame : Frame B sha256 key s w.bucket

  dropped-Frame :
      (o : Outside) (s : B.State) (w : World B.State)
      → Frame B sha256 key s w.bucket
      → Frame B sha256 key s (drop_object B sha256 o key w).bucket
  unfolding drop_object
  dropped-Frame o s w f = elim (Bool-cases o.delete_fails) [
    | inl e ↦ rw e f
    | inr e ↦
        rw e (record {
          others = λ k apart. B.get-delete_other w.bucket key k apart ∙ f.others k apart;
        })
  ]

  drop_object_records :
      (o : Outside) (w : World B.State) → (drop_object B sha256 o key w).records ≡ w.records
  unfolding drop_object
  drop_object_records o w = ground arith

  after_asset-Resolved :
      (s : B.State) (w : World B.State) (now : ℕ) (a : DigitalAsset)
      (d : Result RepositoryException DigitalAsset × Records)
      → Before s w
      → create_asset now a w.records ≡ d
      → find_hash (sha256 content) T.assets ≡ none
      → a.sha256_hash ≡ some (sha256 content)
      → a.storage_key ≡ some key
      → a.deleted_at ≡ none
      → B.get w.bucket key ≡ some content
      → Resolved s (after_asset w d)
  unfolding after_asset
  after_asset-Resolved s w now a (err e, db) k made none_yet hash at live got = record {
    committed =
        ap (λ x. x.1.committed) (sym made) ∙ create_asset_committed now a w.records ∙ k.committed;
    frame = k.frame;
    found = λ b h. ground arith;
  }
  after_asset-Resolved s w now a (ok b, db) k made none_yet hash at live got = record {
    committed =
        ap (λ x. x.1.committed) (sym made) ∙ create_asset_committed now a w.records ∙ k.committed;
    frame = k.frame;
    found = λ b' h.
        added (stored_asset now a)
          (ap (λ x. x.1.tables.assets) (sym made)
            ∙ create_asset_ok now a b w.records (ap (λ x. x.0) made)
            ∙ ap (λ (as' : List DigitalAsset). as' ++ stored_asset now a ∷ []) k.assets)
          none_yet hash at live got;
  }

  store_asset-Resolved :
      (o : Outside) (s : B.State) (w : World B.State) (r : Result AssetError DigitalAsset)
      → Before s w
      → find_hash (sha256 content) T.assets ≡ none
      → ((a : DigitalAsset)
          → r ≡ ok a
          → (a.sha256_hash ≡ some (sha256 content))
            × (a.storage_key ≡ some key)
            × (a.deleted_at ≡ none))
      → B.get w.bucket key ≡ some content
      → Resolved s (store_asset B sha256 o w r)
  unfolding store_asset
  store_asset-Resolved o s w (err e) k none_yet made got = record {
    committed = k.committed;
    frame = k.frame;
    found = λ b h. ground arith;
  }
  store_asset-Resolved o s w (ok a) k none_yet made got =
      let (hash, at, live) = made a refl in
      after_asset-Resolved s w o.now a (create_asset o.now a w.records) k refl none_yet hash at live
        got

  pub resolve_asset-Resolved :
      (o : Outside) (user_id : ℕ) (processing : Upload.Upload) (content_type : String) (size : ℕ)
      (s : B.State) (w : World B.State) (r : Result RepositoryException DigitalAsset)
      → Before s w
      → processing.storage_key ≡ key
      → B.get w.bucket key ≡ some content
      → get_by_hash (sha256 content) w.records ≡ r
      → Resolved s
          (resolve_asset B sha256 o user_id processing content_type (sha256 content) size w r)
  unfolding resolve_asset
  resolve_asset-Resolved o user_id processing content_type size s w (ok existing) k at got r =
      let (a, there) = get_by_hash_ok (sha256 content) w.records existing r in
      let same = drop_object_records o w in
      rw at (record {
        committed = ap (λ (db : Records). db.committed) same ∙ k.committed;
        frame = dropped-Frame o s w k.frame;
        found = λ b h.
            known a (ap (λ (db : Records). db.tables.assets) same ∙ k.assets)
              (ap (find_hash (sha256 content)) (sym k.assets) ∙ there);
      })
  resolve_asset-Resolved o user_id processing content_type size s w (err not_found) k at got r =
      let none_yet =
        ap (find_hash (sha256 content)) (sym k.assets)
        ∙ get_by_hash_not_found (sha256 content) w.records r in
      store_asset-Resolved o s w _ k none_yet
        (λ a made.
          (let (hash, stored_at, live) =
              create_file_ok o.now user_id (sha256 content) content_type size
                processing.original_filename o.asset_id (some processing.storage_key) no_labels a
                made in
            (hash, stored_at ∙ ap some at, live)))
        got
  resolve_asset-Resolved o user_id processing content_type size s w (err e) k at got r = record {
    committed = k.committed;
    frame = k.frame;
    found = λ b h. ground arith;
  }
