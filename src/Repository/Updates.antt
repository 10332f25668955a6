-- ===== src/Repository/Updates.antt =====
-- Laws of looking up and updating a row (backend/app/infrastructure/database/repositories/base.py).
use sentinal.Prelude.{ℕ, ◌≡◌, ◌≢◌, refl, true, false, some, List, [], ◌∷◌, arith}
use sentinal.Prelude.Outcome.{ok}
use sentinal.Analysis.{Analysis, is_completed}
use sentinal.Repository.Rows.{Row, to_domain}
use sentinal.Repository.Session
use sentinal.Repository.Session.{
  Session, RepositoryException, broken, find_row, find_completed, write_row, delete_row,
  checks_hold, violates_unique, update_row, flush, read_back, mapped,
}

pub find_row-id : (id : ℕ) (rows : List Row) (r : Row) → find_row id rows ≡ some r → r.id ≡ id
unfolding find_row
find_row-id id [] r h = ground arith
find_row-id id (s ∷ rows) r h = ground (arith, find_row-id id rows r)

-- A row that is written in the place of another one is found there.
pub find_row-write_row :
    (id : ℕ) (new r : Row) (rows : List Row)
    → new.id ≡ id
    → find_row id rows ≡ some r
    → find_row id (write_row id new rows) ≡ some new
unfolding find_row write_row
find_row-write_row id new r [] same h = ground arith
find_row-write_row id new r (s ∷ rows) same h =
    ground (arith, find_row-write_row id new r rows same)

-- Writing a row leaves the other rows alone.
pub find_row-write_row_other :
    (id j : ℕ) (new : Row) (rows : List Row)
    → new.id ≡ id
    → j ≢ id
    → find_row j (write_row id new rows) ≡ find_row j rows
unfolding find_row write_row
find_row-write_row_other id j new [] same apart = refl
find_row-write_row_other id j new (s ∷ rows) same apart =
    ground (arith, find_row-write_row_other id j new rows same apart)

-- An update that the table accepts writes the row and reads it back.
pub update_lem :
    (id : ℕ) (write : Row → Row) (r : Row) (b : Analysis) (s : Session)
    → s.is_broken ≡ false
    → find_row id s.rows ≡ some r
    → to_domain (write r) ≡ ok b
    → checks_hold (write r) ≡ true
    → violates_unique (write r) (write_row id (write r) s.rows) ≡ false
    → Session.update id write s ≡ (ok b, record s { rows = write_row id (write r) s.rows })
unfolding Session.update update_row flush read_back mapped
update_lem id write r b s healthy found entity checked unique = ground arith

-- The second of two writes in the same place counts.
pub write_row-write_row :
    (id : ℕ) (new newer : Row) (rows : List Row)
    → new.id ≡ id
    → write_row id newer (write_row id new rows) ≡ write_row id newer rows
unfolding write_row
write_row-write_row id new newer [] same = refl
write_row-write_row id new newer (s ∷ rows) same =
    ground (arith, write_row-write_row id new newer rows same)

-- Only completed rows can clash.
pub violates_unique-open :
    (new : Row) (rows : List Row)
    → is_completed new.status ≡ false
    → violates_unique new rows ≡ false
unfolding violates_unique
violates_unique-open new rows h = ground arith
