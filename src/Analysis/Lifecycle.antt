-- ===== src/Analysis/Lifecycle.antt =====
-- The lifecycle of backend/app/domain/entities/analysis.py: the four transitions as the edges of a
-- diagram, and what every sequence of them can do.
use sentinal.Prelude.{
  ℕ, suc, ◌≤◌, String, ◌≡◌, ◌↔◌, inl, inr, refl, true, false, Option, some, List, [], ◌∷◌, arith,
  is_empty,
}
use sentinal.Prelude.Outcome.{Result, ok, err, Result-cases}
use sentinal.Analysis.{
  Analysis, AnalysisResult, AnalysisStateError, Status, pending, running, completed, failed,
  cancelled, immutable, set_attribute, start, complete, fail, cancel,
}
use sentinal.Analysis.Valid.{IsValid, IsTerminal, IsOpen}

-- A call of a lifecycle method, with its arguments.
pub data Operation : Type 0 where
  starting cancelling : Operation
  completing : AnalysisResult → Operation
  failing : String → Option String → Operation

unfoldable pub perform : ℕ → Operation → Analysis → Result AnalysisStateError Analysis
unfolding start complete fail cancel
perform now starting a = start now a
perform now cancelling a = cancel now a
perform now (completing r) a = complete now r a
perform now (failing m c) a = fail now m c a

infix 40 ◌⟶◌
pub data ◌⟶◌ : Status → Status → Type 0 where
  begin : pending ⟶ running
  finish : running ⟶ completed
  break : running ⟶ failed
  withdraw : pending ⟶ cancelled
  interrupt : running ⟶ cancelled

ruleset edges = (begin, finish, break, withdraw, interrupt)

-- What a transition leaves alone.
pub record SameJob (a b : Analysis) : Type 0 where
  pub id : b.id ≡ a.id
  pub asset : b.digital_asset_id ≡ a.digital_asset_id
  pub requester : b.requested_by ≡ a.requested_by
  pub key : b.analyzer_key ≡ a.analyzer_key
  pub version : b.analyzer_version ≡ a.analyzer_version
  pub retries : b.retry_count ≡ a.retry_count
  pub created : b.created_at ≡ a.created_at

perform-⟶ :
    (now : ℕ) (op : Operation) (a b : Analysis) → perform now op a ≡ ok b → a.status ⟶ b.status
unfolding perform
perform-⟶ now op a b h = grind (arith, edges)

perform-IsValid : (now : ℕ) (op : Operation) (a b : Analysis) → perform now op a ≡ ok b → IsValid b
unfolding perform
perform-IsValid now op a b h = ground arith

perform-SameJob :
    (now : ℕ) (op : Operation) (a b : Analysis) → perform now op a ≡ ok b → SameJob a b
unfolding perform
perform-SameJob now op a b h = ground arith

-- A transition that returns follows an edge of the diagram, returns a valid analysis, and leaves
-- the job's identity, retry count and creation time as they were.
pub transition_sound :
    (now : ℕ) (op : Operation) (a b : Analysis)
    → perform now op a ≡ ok b
    → (a.status ⟶ b.status) × IsValid b × SameJob a b
transition_sound now op a b h =
    (perform-⟶ now op a b h, perform-IsValid now op a b h, perform-SameJob now op a b h)

-- The statuses and arguments for which the documentation promises a transition.
abbrev pub Allowed : Operation → Status → Type 0
Allowed starting s = s ≡ pending
Allowed cancelling s = IsOpen s
Allowed (completing r) s = s ≡ running
Allowed (failing m c) s = (s ≡ running) × (is_empty m ≡ false)

abbrev pub Returns : Result AnalysisStateError Analysis → Type 0
Returns r = (b : Analysis) × (r ≡ ok b)

-- `construct` hands back what it is given, so a transition that is allowed returns.
Allowed-Returns :
    (now : ℕ) (op : Operation) (a : Analysis)
    → IsValid a
    → Allowed op a.status
    → Returns (perform now op a)
unfolding perform
Allowed-Returns now starting a v h =
    (record a { status = running; started_at = some now; updated_at = some now }, ground arith)
Allowed-Returns now cancelling a v h =
    (record a { status = cancelled; completed_at = some now; updated_at = some now }, ground arith)
Allowed-Returns now (completing r) a v h = (
  record a { status = completed; result = some r; completed_at = some now; updated_at = some now },
  ground arith,
)
Allowed-Returns now (failing m c) a v h = (
  record a {
    status = failed;
    error_message = some m;
    error_code = c;
    completed_at = some now;
    updated_at = some now;
  },
  ground arith,
)

Returns-Allowed :
    (now : ℕ) (op : Operation) (a : Analysis) → Returns (perform now op a) → Allowed op a.status
unfolding perform
Returns-Allowed now starting a (b, h) = ground arith
Returns-Allowed now cancelling a (b, h) = ground arith
Returns-Allowed now (completing r) a (b, h) = ground arith
Returns-Allowed now (failing m c) a (b, h) = ground arith

-- On a valid analysis a transition returns exactly when its status, and for `fail` its message,
-- allow it.
pub transition_exact :
    (now : ℕ) (op : Operation) (a : Analysis)
    → IsValid a
    → Returns (perform now op a) ↔ Allowed op a.status
transition_exact now op a v = (Returns-Allowed now op a, Allowed-Returns now op a v)

-- A caller that makes any calls at any times, keeps what a call returns, and goes on with the old
-- object where a call raises. The number counts the calls that returned.
unfoldable pub run : List (ℕ × Operation) → Analysis → Analysis × ℕ
run [] a = (a, 0)
run ((now, op) ∷ rest) a = elim (perform now op a) [
  | ok b ↦ (let (c, n) = run rest b in (c, suc n))
  | err e ↦ run rest a
]

-- How many transitions a status has ahead of it at most.
abbrev ahead : Status → ℕ
ahead pending = 2
ahead running = 1
ahead _ = 0

perform-ahead :
    (now : ℕ) (op : Operation) (a b : Analysis)
    → perform now op a ≡ ok b
    → suc (ahead b.status) ≤ ahead a.status
unfolding perform
perform-ahead now op a b h = ground arith

run-ahead : (calls : List (ℕ × Operation)) (a : Analysis) → (run calls a).1 ≤ ahead a.status
unfolding run
run-ahead [] a = omega arith
run-ahead ((now, op) ∷ rest) a = elim (Result-cases (perform now op a)) [
  | inl (b, e) ↦ rw (e, run) (omega (arith, run-ahead rest b, perform-ahead now op a b e))
  | inr (x, e) ↦ rw (e, run) (run-ahead rest a)
]

run-IsValid : (calls : List (ℕ × Operation)) (a : Analysis) → IsValid a → IsValid (run calls a).0
unfolding run
run-IsValid [] a v = v
run-IsValid ((now, op) ∷ rest) a v = elim (Result-cases (perform now op a)) [
  | inl (b, e) ↦ rw (e, run) (run-IsValid rest b (perform-IsValid now op a b e))
  | inr (x, e) ↦ rw (e, run) (run-IsValid rest a v)
]

-- Whatever calls are made on a valid analysis, what is left is valid, and of the calls at most two
-- return: one if the analysis was running, and none if it was terminal.
pub run_bounded :
    (calls : List (ℕ × Operation)) (a : Analysis)
    → IsValid a
    → IsValid (run calls a).0
      × ((run calls a).1 ≤ 2)
      × (a.status ≡ running → (run calls a).1 ≤ 1)
      × (IsTerminal a.status → (run calls a).1 ≡ 0)
run_bounded calls a v = (
  run-IsValid calls a v,
  ground (arith, run-ahead calls a),
  ground (arith, run-ahead calls a),
  ground (arith, run-ahead calls a),
)

perform_stuck :
    (now : ℕ) (op : Operation) (a b : Analysis) → IsTerminal a.status → perform now op a ≡ ok b → ⊥
perform_stuck now op a b t e = ground (arith, perform-ahead now op a b e)

run_stuck :
    (calls : List (ℕ × Operation)) (a : Analysis) → IsTerminal a.status → run calls a ≡ (a, 0)
unfolding run
run_stuck [] a t = refl
run_stuck ((now, op) ∷ rest) a t = elim (Result-cases (perform now op a)) [
  | inl (b, e) ↦ absurd (perform_stuck now op a b t e)
  | inr (x, e) ↦ rw (e, run) (run_stuck rest a t)
]

-- A terminal analysis is immutable: no sequence of calls changes it or returns, and no assignment
-- to an initialized object is accepted.
pub terminal_immutable :
    (calls : List (ℕ × Operation)) (write : Analysis → Analysis) (a : Analysis)
    → IsTerminal a.status
    → (run calls a ≡ (a, 0)) × (set_attribute true a write ≡ err immutable)
unfolding set_attribute
terminal_immutable calls write a t = (run_stuck calls a t, ground arith)
