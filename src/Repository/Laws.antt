-- ===== src/Repository/Laws.antt =====
-- Laws of the repository's operations (backend/app/infrastructure/database/repositories/base.py and
-- analysis.py), which the proofs on the service and the worker use.
use sentinal.Prelude.{
  ℕ, String, ◌≡◌, ◌⊎◌, inl, inr, refl, true, false, Option, none, some, List, [], ◌∷◌, ◌++◌, ◌==◌,
  any, arith, Option-cases,
}
use sentinal.Prelude.Outcome.{Result, ok, err, Result-cases}
use sentinal.Analysis.{Analysis, AnalysisResult, construct, validate}
use sentinal.Repository.Rows.{Row, to_orm, to_domain, entity_of, optional_result}
use sentinal.Repository.Session
use sentinal.Repository.Session.{
  Session, RepositoryException, broken, find_row, find_completed, write_row, delete_row,
  checks_hold, violates_unique, update_row, flush, read_back, mapped,
}

-- The constructor of the entity changes nothing.
pub construct-keeps : (a b : Analysis) → construct a ≡ ok b → b ≡ a
unfolding construct
construct-keeps a b h = elim (Result-cases (validate a)) [
  | inl (u, e) ↦ ground arith
  | inr (x, e) ↦ ground arith
]

-- The columns that a row's entity shows as they are.
pub record Denotes (r : Row) (a : Analysis) : Type 0 where
  pub id : a.id ≡ r.id
  pub asset : a.digital_asset_id ≡ some r.digital_asset_id
  pub analyzer_key : a.analyzer_key ≡ r.analyzer_key
  pub status : a.status ≡ r.status
  pub retry_count : a.retry_count ≡ r.retry_count

entity_of-Denotes : (r : Row) (x : Option AnalysisResult) → Denotes r (entity_of r x)
unfolding entity_of
entity_of-Denotes r x = record {
  id = refl;
  asset = refl;
  analyzer_key = refl;
  status = refl;
  retry_count = refl;
}

pub to_domain-Denotes : (r : Row) (a : Analysis) → to_domain r ≡ ok a → Denotes r a
unfolding to_domain
to_domain-Denotes r a h = elim (Result-cases (optional_result r)) [
  | inl (x, e) ↦
      let h' : construct (entity_of r x) ≡ ok a = ground arith in
      rw (construct-keeps (entity_of r x) a h') (entity_of-Denotes r x)
  | inr (x, e) ↦ ground arith
]

-- A row that the table does not have yet is taken out of it again.
pub delete_row-append :
    (r : Row) (rows : List Row)
    → any (λ s. s.id == r.id) rows ≡ false
    → delete_row r.id (rows ++ r ∷ []) ≡ rows
unfolding delete_row
delete_row-append r [] h = ground arith
delete_row-append r (s ∷ rows) h = ground (arith, delete_row-append r rows)

-- A flush that succeeds leaves the table that it was given.
pub flush-ok :
    (new : Row) (after : List Row) (s t : Session) (u : Unit {0})
    → flush new after s ≡ (ok u, t)
    → t ≡ record s { rows = after }
unfolding flush
flush-ok new after s t u h = ground arith

pub flush-err :
    (new : Row) (after : List Row) (s t : Session) (e : RepositoryException)
    → flush new after s ≡ (err e, t)
    → t ≡ broken s
unfolding flush
flush-err new after s t e h = ground arith

-- What a successful `create` did.
pub record Created (now asset : ℕ) (a b : Analysis) (s t : Session) : Type 0 where
  pub was_healthy : s.is_broken ≡ false
  pub is_fresh : any (λ r. r.id == a.id) s.rows ≡ false
  pub appended : t ≡ record s { rows = s.rows ++ to_orm now asset a ∷ [] }
  pub entity : to_domain (to_orm now asset a) ≡ ok b

pub read_back-ok :
    (new : Row) (d : Result RepositoryException (Unit {0}) × Session) (b : Analysis) (t : Session)
    → read_back new d ≡ (ok b, t)
    → (d ≡ (ok tt, t)) × (to_domain new ≡ ok b)
unfolding read_back mapped
read_back-ok new (ok u, s) b t h = elim (Result-cases (to_domain new)) [
  | inl (x, e) ↦ ground arith
  | inr (x, e) ↦ ground arith
]
read_back-ok new (err x, s) b t h = ground arith

to_orm-id : (now asset : ℕ) (a : Analysis) → (to_orm now asset a).id ≡ a.id
unfolding to_orm
to_orm-id now asset a = refl

pub create-Created :
    (now asset : ℕ) (a b : Analysis) (s t : Session)
    → Session.create now asset a s ≡ (ok b, t)
    → Created now asset a b s t
unfolding Session.create
create-Created now asset a b s t h =
    let new = to_orm now asset a in
    let after = s.rows ++ new ∷ [] in
    ground (
      arith,
      to_orm-id now asset a,
      read_back-ok new (flush new after s) b t,
      flush-ok new after s t tt,
    )

pub read_back-entity :
    (new : Row) (d : Result RepositoryException (Unit {0}) × Session) (b : Analysis) (u : Unit {0})
    → to_domain new ≡ ok b
    → d.0 ≡ ok u
    → read_back new d ≡ (ok b, d.1)
unfolding read_back mapped
read_back-entity new (ok v, s) b u entity h = ground arith
read_back-entity new (err x, s) b u entity h = ground arith

pub read_back-err :
    (new : Row) (d : Result RepositoryException (Unit {0}) × Session) (x : RepositoryException)
    → d.0 ≡ err x
    → read_back new d ≡ (err x, d.1)
unfolding read_back
read_back-err new (ok v, s) x h = ground arith
read_back-err new (err y, s) x h = ground arith

-- A `create` whose row denotes an entity fails without a trace, or leaves a session that must be
-- rolled back.
pub create-refused :
    (now asset : ℕ) (a b : Analysis) (s t : Session) (e : RepositoryException)
    → to_domain (to_orm now asset a) ≡ ok b
    → Session.create now asset a s ≡ (err e, t)
    → (t ≡ s) ⊎ (t.is_broken ≡ true)
unfolding Session.create
create-refused now asset a b s t e entity h =
    let new = to_orm now asset a in
    elim (Result-cases (flush new (s.rows ++ new ∷ []) s).0) [
      | inl (u, d) ↦
          ground (arith, read_back-entity new (flush new (s.rows ++ new ∷ []) s) b u entity d)
      | inr (x, d) ↦ ground (
        arith,
        read_back-err new (flush new (s.rows ++ new ∷ []) s) x d,
        flush-err new (s.rows ++ new ∷ []) s t x,
      )
    ]

-- Deleting what was just created gives the session back.
pub delete-create :
    (now asset : ℕ) (a b : Analysis) (s t : Session)
    → Session.create now asset a s ≡ (ok b, t)
    → (Session.delete b.id t).1 ≡ s
unfolding Session.delete
delete-create now asset a b s t h =
    let new = to_orm now asset a in
    let c = create-Created now asset a b s t h in
    let keys = to_domain-Denotes new b c.entity in
    ground (
      arith,
      keys.id,
      c.was_healthy,
      c.appended,
      to_orm-id now asset a,
      delete_row-append new s.rows,
    )

pub get_completed_analysis-none :
    (asset : ℕ) (key version : String) (s : Session)
    → (Session.get_completed_analysis asset key version s).0 ≡ ok none
    → find_completed asset key version s.rows ≡ none
unfolding Session.get_completed_analysis
get_completed_analysis-none asset key version s h =
    elim (Option-cases (find_completed asset key version s.rows)) [
      | inl e ↦ e
      | inr (r, e) ↦ elim (Result-cases (to_domain r)) [
        | inl (a, d) ↦ ground arith
        | inr (x, d) ↦ ground arith
      ]
    ]

pub get_completed_analysis-some :
    (asset : ℕ) (key version : String) (s : Session) (a : Analysis)
    → (Session.get_completed_analysis asset key version s).0 ≡ ok (some a)
    → (r : Row) × (find_completed asset key version s.rows ≡ some r) × (to_domain r ≡ ok a)
unfolding Session.get_completed_analysis
get_completed_analysis-some asset key version s a h =
    elim (Option-cases (find_completed asset key version s.rows)) [
      | inl e ↦ ground arith
      | inr (r, e) ↦ elim (Result-cases (to_domain r)) [
        | inl (b, d) ↦ (r, e, ground arith)
        | inr (x, d) ↦ ground arith
      ]
    ]
