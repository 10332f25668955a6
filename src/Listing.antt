-- ===== src/Listing.antt =====
-- The paginated lists of the repositories: `list` of
-- backend/app/infrastructure/database/repositories/base.py, and the queries of upload.py,
-- digital_asset.py and analysis.py beside it that have the same shape.
--
-- The column to sort by is a parameter, read as a number, and so is what the database makes of `ORDER
-- BY`, of which every query has its own.
pub mod Orders
pub mod Pages
use sentinal.Prelude.{
  ℕ, zero, suc, ◌+◌, String, Bool, true, false, not, ◌&&◌, Option, none, some, List, [], ◌∷◌, ◌++◌,
  ◌==◌, is_none, leb, take, drop, length, if◌then◌else◌,
}
use sentinal.Prelude.Outcome.{Result, ok, err, ◌>>=◌}
use sentinal.Analysis
use sentinal.Upload
use sentinal.Asset.{DigitalAsset}
use sentinal.Repository.Rows.{Row, to_domain}
use sentinal.Repository.Session.{RepositoryException, conflict, Session, mapped}
use sentinal.Intake.Tables.{Records, read_upload, found_asset, same_user}

module _ {A : Type 0} where
  -- `stmt.where(...)`
  unfoldable pub where_ : (A → Bool) → List A → List A
  where_ test [] = []
  where_ test (a ∷ rows) = let rest = where_ test rows in if test a then a ∷ rest else rest

  -- `desc(sort_column)`, or `asc(sort_column)`
  abbrev pub precedes : (is_desc : Bool) → (A → ℕ) → A → A → Bool
  precedes is_desc column a b =
      if is_desc then leb (column b) (column a) else leb (column a) (column b)

-- `stmt.order_by(...)`, by a column and a direction
abbrev pub Sorting : Type 0 → Type 0
Sorting A = (is_desc : Bool) → (A → ℕ) → List A → List A

module _ {A E V : Type 0} (to_domain : A → Result E V) where
  unfoldable pub read_rows : List A → Result E (List V)
  read_rows [] = ok []
  read_rows (a ∷ rows) = do v ← to_domain a; rest ← read_rows rows; ok (v ∷ rest)

  abbrev pub with_total : ℕ → Result E (List V) → Result E (List V × ℕ)
  with_total total (ok results) = ok (results, total)
  with_total total (err e) = err e

  unfoldable pub list_rows :
      Sorting A
      → (is_desc : Bool) → (A → ℕ)
      → (A → Bool)
      → (skip limit : ℕ) → List A
      → Result E (List V × ℕ)
  unfolding where_ read_rows
  list_rows sort is_desc column test skip limit rows =
      with_total (length (where_ test rows))
        (read_rows (take limit (drop skip (sort is_desc column (where_ test rows)))))

unfoldable pub list_uploads_by_user :
    (user_id : ℕ)
    → Sorting Upload.Upload
    → (is_desc : Bool) → (Upload.Upload → ℕ)
    → (skip limit : ℕ) → Records
    → Result RepositoryException (List Upload.Upload × ℕ)
unfolding list_rows same_user
list_uploads_by_user user_id sort is_desc column skip limit db =
    if db.is_broken
    then err conflict
    else list_rows (λ u. read_upload u) sort is_desc column
        (λ u. same_user u.user_id (some user_id)) skip limit db.tables.uploads

unfoldable pub list_assets_by_user :
    (user_id : ℕ)
    → Sorting DigitalAsset
    → (is_desc : Bool) → (DigitalAsset → ℕ)
    → (skip limit : ℕ) → Records
    → Result RepositoryException (List DigitalAsset × ℕ)
unfolding list_rows
list_assets_by_user user_id sort is_desc column skip limit db =
    if db.is_broken
    then err conflict
    else list_rows (λ a. found_asset (some a)) sort is_desc column
        (λ a. a.user_id == user_id && is_none a.deleted_at) skip limit db.tables.assets

unfoldable pub list_by_asset :
    (asset : ℕ)
    → Sorting Row
    → (is_desc : Bool) → (Row → ℕ)
    → (skip limit : ℕ) → Session
    → Result RepositoryException (List Analysis.Analysis × ℕ)
unfolding list_rows mapped
list_by_asset asset sort is_desc column skip limit s =
    if s.is_broken
    then err conflict
    else list_rows (λ r. mapped (to_domain r)) sort is_desc column
        (λ r. r.digital_asset_id == asset) skip limit s.rows
