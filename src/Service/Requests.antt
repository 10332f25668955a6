-- ===== src/Service/Requests.antt =====
-- What `request_analysis` of backend/app/application/services/analysis_service.py promises.
use sentinal.Prelude.{ℕ, String, ◌≡◌, inl, inr, Bool, some, ◌||◌, arith, Bool-cases, is_empty}
use sentinal.Prelude.Outcome.{Result, ok}
use sentinal.Analysis.{Analysis, construct}
use sentinal.Repository.Rows.{to_orm, to_domain}
use sentinal.Service.{
  AuditOutcome, log_audit, World, Request, ServiceError, new_analysis, request_analysis,
}

-- What a caller and the rest of the system see of a call, apart from the audit log.
pub record SameEffect (d e : Result ServiceError Analysis × World) : Type 0 where
  pub result : d.0 ≡ e.0
  pub session : d.1.session ≡ e.1.session
  pub queue : d.1.queue ≡ e.1.queue

-- What becomes of the audit record changes neither the result of a request nor the queue.
pub request_ignores_audit :
    (broker : Bool) (x y : AuditOutcome) (q : Request) (w : World)
    → let d = request_analysis (record { broker_accepts = broker; audit_outcome = x }) q w in
      let e = request_analysis (record { broker_accepts = broker; audit_outcome = y }) q w in
      (d.0 ≡ e.0) × (d.1.queue ≡ e.1.queue)
unfolding request_analysis log_audit
request_ignores_audit broker x y q w = ground arith

-- The entity that a request builds is read back from its row, with the time of its last change.
pub new_analysis-entity :
    (now id asset by : ℕ) (key version : String) (a : Analysis)
    → construct (new_analysis now id asset by key version) ≡ ok a
    → to_domain (to_orm now asset (new_analysis now id asset by key version))
      ≡ ok (record (new_analysis now id asset by key version) { updated_at = some now })
unfolding construct to_domain to_orm
new_analysis-entity now id asset by key version a h =
    elim (Bool-cases (is_empty key || is_empty version)) [
      | inl e ↦ ground arith
      | inr e ↦ ground arith
    ]
