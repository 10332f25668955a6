-- ===== src/Service/Cancels.antt =====
-- What `cancel_analysis` of backend/app/application/services/analysis_service.py promises.
use sentinal.Prelude.{ℕ, ◌≡◌, ◌≢◌, true, false, some, ◌||◌, arith}
use sentinal.Prelude.Outcome.{ok, err}
use sentinal.Analysis
use sentinal.Analysis.{
  Analysis, AnalysisStateError, Status, pending, cancelled, construct, is_pending, is_running,
}
use sentinal.Repository.Rows.{Row, to_domain}
use sentinal.Repository.Updates.{find_row-id, find_row-write_row, find_row-write_row_other}
use sentinal.Repository.Session
use sentinal.Repository.Session.{
  Session, RepositoryException, find_row, write_row, flush, read_back, update_row, checks_hold,
  mapped,
}
use sentinal.Service.{
  breaks_session, World, Outside, log_audit, invalid_state, write_cancelled, cancel_analysis,
  get_analysis,
}
use sentinal.Service.Requests.{SameEffect}

-- `a`, cancelled at the time `now`
abbrev pub cancelled_at : ℕ → Analysis → Analysis
cancelled_at now a = record a { status = cancelled; completed_at = some now; updated_at = some now }

-- An open row that denotes an entity denotes, once it is cancelled, the cancelled entity.
to_domain-cancelled :
    (now : ℕ) (r : Row) (a : Analysis)
    → to_domain r ≡ ok a
    → is_pending a.status || is_running a.status ≡ true
    → to_domain (write_cancelled (cancelled_at now a) r) ≡ ok (cancelled_at now a)
unfolding to_domain
to_domain-cancelled now r a h is_open = ground arith

cancel-open :
    (now : ℕ) (r : Row) (a : Analysis)
    → to_domain r ≡ ok a
    → is_pending a.status || is_running a.status ≡ true
    → Analysis.cancel now a ≡ ok (cancelled_at now a)
unfolding Analysis.cancel to_domain
cancel-open now r a h is_open = ground arith

update_row-cancelled :
    (now id : ℕ) (r : Row) (a : Analysis) (s : Session)
    → to_domain r ≡ ok a
    → is_pending a.status || is_running a.status ≡ true
    → checks_hold r ≡ true
    → update_row id (write_cancelled (cancelled_at now a)) (some r) s ≡ (
      ok (cancelled_at now a),
      record s { rows = write_row id (write_cancelled (cancelled_at now a) r) s.rows },
    )
unfolding update_row checks_hold
update_row-cancelled now id r a s h is_open checked =
    ground (arith, to_domain-cancelled now r a h is_open)

-- In a session that is not broken, cancelling an analysis that is neither pending nor running is
-- refused with its status, and nothing at all changes.
pub cancel_closed :
    (o : Outside) (now id by : ℕ) (w : World) (r : Row) (a : Analysis)
    → w.session.is_broken ≡ false
    → find_row id w.session.rows ≡ some r
    → to_domain r ≡ ok a
    → is_pending a.status || is_running a.status ≡ false
    → cancel_analysis o now id by w ≡ (err (invalid_state a.status), w)
unfolding cancel_analysis Session.get_by_id
cancel_closed o now id by w r a healthy found entity closed = ground arith

cancel_analysis-open :
    (o : Outside) (audited : breaks_session o.audit_outcome ≡ false) (now id by : ℕ) (w : World)
    (r : Row) (a : Analysis)
    → w.session.is_broken ≡ false
    → find_row id w.session.rows ≡ some r
    → to_domain r ≡ ok a
    → is_pending a.status || is_running a.status ≡ true
    → checks_hold r ≡ true
    → SameEffect (cancel_analysis o now id by w) (
      ok (cancelled_at now a),
      record w {
        session = record w.session {
          rows = write_row id (write_cancelled (cancelled_at now a) r) w.session.rows;
        };
      },
    )
unfolding cancel_analysis Session.get_by_id mapped log_audit Session.update
cancel_analysis-open o audited now id by w r a healthy found entity is_open checked = ground (
  arith,
  cancel-open now r a entity is_open,
  update_row-cancelled now id r a w.session entity is_open checked,
)

-- Unless the session is broken, also by a failed flush of the audit record, a pending or running
-- analysis whose row keeps the table's checks is cancelled, and from then on it is read as
-- cancelled at that time and otherwise as it was; every other analysis is read as before, and the
-- queue is as it was.
pub cancel_get :
    (o : Outside) (audited : breaks_session o.audit_outcome ≡ false) (now id by : ℕ) (w : World)
    (r : Row) (a : Analysis)
    → w.session.is_broken ≡ false
    → find_row id w.session.rows ≡ some r
    → to_domain r ≡ ok a
    → is_pending a.status || is_running a.status ≡ true
    → checks_hold r ≡ true
    → let d = cancel_analysis o now id by w in
      (d.0 ≡ ok (cancelled_at now a))
      × (d.1.queue ≡ w.queue)
      × (get_analysis id d.1 ≡ ok (cancelled_at now a))
      × ((j : ℕ) → j ≢ id → get_analysis j d.1 ≡ get_analysis j w)
unfolding get_analysis Session.get_by_id mapped
cancel_get o audited now id by w r a healthy found entity is_open checked =
    let d = cancel_analysis o now id by w in
    let new = write_cancelled (cancelled_at now a) r in
    let same =
      cancel_analysis-open o audited now id by w r a healthy found entity is_open checked in
    let key : new.id ≡ id = find_row-id id w.session.rows r found in
    let back = to_domain-cancelled now r a entity is_open in
    (
      same.result,
      same.queue,
      ground (arith, same.session, find_row-write_row id new r w.session.rows key found),
      λ j apart.
          ground (arith, same.session, find_row-write_row_other id j new w.session.rows key apart),
    )
