-- ===== src/Worker/Completion.antt =====
-- One attempt of `process_once` (backend/app/workers/analysis_worker/worker.py) with an analyzer
-- that returns a result.
use sentinal.Prelude.{
  ℕ, String, ◌≡◌, inl, inr, refl, ap, ◌∙◌, true, false, Option, some, List, ◌||◌, arith, Bool-cases,
  str_eq, is_empty,
}
use sentinal.Prelude.Outcome.{Result, ok, ◌>>=◌, Result-cases}
use sentinal.Analysis
use sentinal.Analysis.{
  Analysis, AnalysisResult, AnalysisStateError, Status, completed, new_result, construct,
  message_required, failed, pending, running, is_pending, is_running,
}
use sentinal.Repository.Rows.{
  Row, to_domain, row_result, denoted, or_text, optional_result, entity_of,
}
use sentinal.Repository.Session.{find_row, write_row, checks_hold, violates_unique, known_severity}
use sentinal.Repository.Updates.{update_lem}
use sentinal.Registry.{Outcome, returned}
use sentinal.Queue
use sentinal.Queue.{Queue, Job, drop_claim, find_claim}
use sentinal.Service.{World}
use sentinal.Worker.{Env, write_completed, severity_of}
use sentinal.Prelude.Case.{lower, upper}
use sentinal.Worker.Process.{Task, after_save, after_complete, after_analyze}
use sentinal.Worker.Failures.{holding, waiting, with_row}
use sentinal.Worker.Failures.{holding, waiting, with_row}

-- `a`, completed with the result `x`
abbrev pub completed_at : ℕ → AnalysisResult → Analysis → Analysis
completed_at now x a = record a {
  status = completed;
  result = some x;
  completed_at = some now;
  updated_at = some now;
}

-- The result as it is stored: its verdict in capitals.
abbrev pub stored : AnalysisResult → AnalysisResult
stored x = record x { verdict = upper x.verdict }

complete-running :
    (now : ℕ) (x : AnalysisResult) (r : Row) (a : Analysis)
    → to_domain r ≡ ok a
    → a.status ≡ running
    → Analysis.complete now x a ≡ ok (completed_at now x a)
unfolding to_domain Analysis.complete
complete-running now x r a h is = ground arith

upper-is_empty : (s : String) → is_empty (upper s) ≡ is_empty s
unfolding upper
upper-is_empty String.[] = refl
upper-is_empty (String.◌∷◌ c s) = refl

new_result-stored :
    (x : AnalysisResult) → new_result x ≡ ok x → new_result (stored x) ≡ ok (stored x)
unfolding new_result
new_result-stored x h = ground (arith, upper-is_empty x.verdict)

-- the checks that a result has passed
record Passed (x : AnalysisResult) : Type 0 where
  verdict : is_empty x.verdict ≡ false
  recommendation : is_empty x.recommendation ≡ false

new_result-Passed : (x : AnalysisResult) → new_result x ≡ ok x → Passed x
unfolding new_result
new_result-Passed x h = record { verdict = ground arith; recommendation = ground arith }

or_text-some : (s d : String) → is_empty s ≡ false → or_text (some s) d ≡ s
or_text-some s d h = ground arith

row_result-completed :
    (now : ℕ) (x : AnalysisResult) (a : Analysis) (r : Row)
    → new_result x ≡ ok x
    → row_result (write_completed (completed_at now x a) x r) ≡ ok (stored x)
unfolding row_result denoted write_completed
row_result-completed now x a r h =
    let p = new_result-Passed x h in
    let shown : is_empty (upper x.verdict) ≡ false = upper-is_empty x.verdict ∙ p.verdict in
    let advice = p.recommendation in
    let same : denoted (write_completed (completed_at now x a) x r) ≡ stored x = ground arith in
    ap new_result same ∙ new_result-stored x h

known-severity : (v : String) → known_severity (severity_of v) ≡ true
known-severity v = ground arith

checks_hold-completed :
    (now : ℕ) (x : AnalysisResult) (a : Analysis) (r : Row)
    → new_result x ≡ ok x
    → checks_hold r ≡ true
    → checks_hold (write_completed (completed_at now x a) x r) ≡ true
unfolding checks_hold write_completed new_result
checks_hold-completed now x a r h checked = ground (arith, known-severity (upper x.verdict))

to_domain-keyed :
    (r : Row) (a : Analysis)
    → to_domain r ≡ ok a
    → is_empty r.analyzer_key || is_empty r.analyzer_version ≡ false
unfolding to_domain entity_of construct
to_domain-keyed r a h = elim (Result-cases (optional_result r)) [
  | inl (y, e) ↦ elim (Bool-cases (is_empty r.analyzer_key || is_empty r.analyzer_version)) [
    | inl b ↦ ground arith
    | inr b ↦ b
  ]
  | inr (y, e) ↦ ground arith
]

construct-completed :
    (now : ℕ) (x : AnalysisResult) (a : Analysis) (r : Row)
    → is_empty r.analyzer_key || is_empty r.analyzer_version ≡ false
    → let new = write_completed (completed_at now x a) x r in
      construct (entity_of new (some (stored x))) ≡ ok (entity_of new (some (stored x)))
unfolding construct entity_of write_completed
construct-completed now x a r h = ground arith

optional_result-completed :
    (now : ℕ) (x : AnalysisResult) (a : Analysis) (r : Row)
    → new_result x ≡ ok x
    → optional_result (write_completed (completed_at now x a) x r) ≡ ok (some (stored x))
unfolding optional_result write_completed
optional_result-completed now x a r h = rw (row_result-completed now x a r h) refl

pub to_domain-completed :
    (now : ℕ) (x : AnalysisResult) (a : Analysis) (r : Row)
    → to_domain r ≡ ok a
    → new_result x ≡ ok x
    → let new = write_completed (completed_at now x a) x r in
      to_domain new ≡ ok (entity_of new (some (stored x)))
unfolding to_domain
to_domain-completed now x a r h valid =
    let new = write_completed (completed_at now x a) x r in
    let build : Result AnalysisStateError (Option AnalysisResult)
        → Result AnalysisStateError Analysis =
      λ y. y >>= (λ o. construct (entity_of new o)) in
    ap build (optional_result-completed now x a r valid)
    ∙ construct-completed now x a r (to_domain-keyed r a h)

pub after_analyze-returned :
    (e : Env) (t : Task) (w : World) (o : Outcome) (x : AnalysisResult)
    → o ≡ returned x
    → str_eq (lower x.verdict) "failed" ≡ false
    → after_analyze e t w o ≡ after_complete e t x w (Analysis.complete e.now x t.running)
unfolding after_analyze
after_analyze-returned e t w o x h succeeded = rw (h, succeeded) refl

-- The result is stored in the row of the running analysis, and the job is acknowledged.
pub after_complete-Stored :
    (e : Env) (t : Task) (rest : List Job) (w : World) (x : AnalysisResult) (r : Row)
    → w.session.is_broken ≡ false
    → find_row t.running.id w.session.rows ≡ some r
    → to_domain r ≡ ok t.running
    → t.running.status ≡ running
    → checks_hold r ≡ true
    → new_result x ≡ ok x
    → let new = write_completed (completed_at e.now x t.running) x r in
      violates_unique new (write_row t.running.id new w.session.rows) ≡ false
      → after_complete e t x (holding t.job rest w) (Analysis.complete e.now x t.running)
        ≡ (ok true, waiting rest (with_row t.running.id new w))
unfolding after_complete after_save Queue.ack drop_claim
after_complete-Stored e t rest w x r healthy row entity is checked valid unique =
    let c = completed_at e.now x t.running in
    let new = write_completed c x r in
    let done = complete-running e.now x r t.running entity is in
    let kept =
      update_lem t.running.id (write_completed c x) r (entity_of new (some (stored x))) w.session
        healthy row (to_domain-completed e.now x t.running r entity valid)
        (checks_hold-completed e.now x t.running r valid checked) unique in
    ground (arith, done, kept)
