-- ===== src/Upload/Lifecycle.antt =====
-- The state machine of backend/app/domain/entities/upload.py, and what every sequence of its
-- transitions can do.
use sentinal.Prelude.{
  ℕ, suc, ◌≤◌, String, ◌≡◌, ◌≢◌, ◌↔◌, ◌⊎◌, inl, inr, refl, true, false, none, some, List, [], ◌∷◌,
  arith, is_empty,
}
use sentinal.Prelude.Outcome.{Result, ok, err, Result-cases}
use sentinal.Upload.{
  Upload, UploadError, Status, pending, processing, completed, failed, is_sha256, start_processing,
  complete, fail, construct,
}

abbrev pub IsTerminal : Status → Type 0
IsTerminal s = (s ≡ completed) ⊎ (s ≡ failed)

abbrev pub IsOpen : Status → Type 0
IsOpen s = (s ≡ pending) ⊎ (s ≡ processing)

-- The invariants of the entity, as its documentation lists them.
pub record IsValid (u : Upload) : Type 0 where
  pub known_status : IsOpen u.upload_status ⊎ IsTerminal u.upload_status
  pub has_owner : u.user_id ≢ none
  pub has_filename : is_empty u.original_filename ≡ false
  pub has_storage_key : is_empty u.storage_key ≡ false
  pub has_content_type : is_empty u.content_type ≡ false
  pub checksum : (s : String) → u.checksum_sha256 ≡ some s → is_sha256 s ≡ true
  pub asset_when_completed : u.digital_asset_id ≢ none → u.upload_status ≡ completed
  pub closed : IsTerminal u.upload_status → u.completed_at ≢ none
  pub still_open : IsOpen u.upload_status → u.completed_at ≡ none

-- A call of a transition, with its arguments.
pub data Operation : Type 0 where
  starting failing : Operation
  completing : ℕ → String → Operation

unfoldable pub perform : ℕ → Operation → Upload → Result UploadError Upload
unfolding start_processing complete fail
perform now starting u = start_processing now u
perform now failing u = fail now u
perform now (completing asset checksum) u = complete now asset checksum u

infix 40 ◌⟶◌
pub data ◌⟶◌ : Status → Status → Type 0 where
  begin : pending ⟶ processing
  finish : processing ⟶ completed
  abandon : pending ⟶ failed
  break : processing ⟶ failed

ruleset edges = (begin, finish, abandon, break)

-- What a transition leaves alone, and the idempotency key, which it drops.
pub record SameUpload (u v : Upload) : Type 0 where
  pub id : v.id ≡ u.id
  pub owner : v.user_id ≡ u.user_id
  pub filename : v.original_filename ≡ u.original_filename
  pub storage_key : v.storage_key ≡ u.storage_key
  pub content_type : v.content_type ≡ u.content_type
  pub size : v.file_size_bytes ≡ u.file_size_bytes
  pub created : v.created_at ≡ u.created_at
  pub deleted : v.deleted_at ≡ u.deleted_at
  pub key_dropped : v.idempotency_key ≡ none

construct-IsValid : (u v : Upload) → construct u ≡ ok v → IsValid v
unfolding construct
construct-IsValid u v h = ground arith

perform-⟶ :
    (now : ℕ) (op : Operation) (u v : Upload)
    → IsOpen u.upload_status ⊎ IsTerminal u.upload_status
    → perform now op u ≡ ok v
    → u.upload_status ⟶ v.upload_status
unfolding perform
perform-⟶ now op u v k h = grind (arith, edges)

perform-IsValid : (now : ℕ) (op : Operation) (u v : Upload) → perform now op u ≡ ok v → IsValid v
unfolding perform
perform-IsValid now op u v h = ground arith

perform-SameUpload :
    (now : ℕ) (op : Operation) (u v : Upload) → perform now op u ≡ ok v → SameUpload u v
unfolding perform
perform-SameUpload now op u v h = ground arith

-- From a valid upload, a transition that returns follows an edge of the diagram, returns a valid
-- upload, and leaves all the identity fields but the idempotency key, which is lost.
pub upload_transition_sound :
    (now : ℕ) (op : Operation) (u v : Upload)
    → IsValid u
    → perform now op u ≡ ok v
    → (u.upload_status ⟶ v.upload_status) × IsValid v × SameUpload u v
upload_transition_sound now op u v k h = (
  perform-⟶ now op u v k.known_status h,
  perform-IsValid now op u v h,
  perform-SameUpload now op u v h,
)

-- The states, and for `complete` the digest, for which the documentation promises a transition.
abbrev pub Allowed : Operation → Status → Type 0
Allowed starting s = s ≡ pending
Allowed failing s = IsOpen s
Allowed (completing asset checksum) s = (s ≡ processing) × (is_sha256 checksum ≡ true)

abbrev pub Returns : Result UploadError Upload → Type 0
Returns r = (v : Upload) × (r ≡ ok v)

Allowed-Returns :
    (now : ℕ) (op : Operation) (u : Upload)
    → IsValid u
    → Allowed op u.upload_status
    → Returns (perform now op u)
unfolding perform
Allowed-Returns now starting u k h = (
  record u {
    upload_status = processing;
    checksum_sha256 = none;
    digital_asset_id = none;
    idempotency_key = none;
    completed_at = none;
    updated_at = some now;
  },
  ground arith,
)
Allowed-Returns now failing u k h = (
  record u {
    upload_status = failed;
    checksum_sha256 = none;
    digital_asset_id = none;
    idempotency_key = none;
    completed_at = some now;
    updated_at = some now;
  },
  ground arith,
)
Allowed-Returns now (completing asset checksum) u k h = (
  record u {
    upload_status = completed;
    checksum_sha256 = some checksum;
    digital_asset_id = some asset;
    idempotency_key = none;
    completed_at = some now;
    updated_at = some now;
  },
  ground arith,
)

Returns-Allowed :
    (now : ℕ) (op : Operation) (u : Upload)
    → IsOpen u.upload_status ⊎ IsTerminal u.upload_status
    → Returns (perform now op u)
    → Allowed op u.upload_status
unfolding perform
Returns-Allowed now starting u k (v, h) = ground arith
Returns-Allowed now failing u k (v, h) = ground arith
Returns-Allowed now (completing asset checksum) u k (v, h) = ground arith

-- On a valid upload a transition returns exactly when its state, and for `complete` the digest's
-- format, allow it.
pub upload_transition_exact :
    (now : ℕ) (op : Operation) (u : Upload)
    → IsValid u
    → Returns (perform now op u) ↔ Allowed op u.upload_status
upload_transition_exact now op u k =
    (Returns-Allowed now op u k.known_status, Allowed-Returns now op u k)

-- A caller that makes any calls at any times, keeps what a call returns, and goes on with the old
-- object where a call raises. The number counts the calls that returned.
unfoldable pub run : List (ℕ × Operation) → Upload → Upload × ℕ
run [] u = (u, 0)
run ((now, op) ∷ rest) u = elim (perform now op u) [
  | ok v ↦ (let (w, n) = run rest v in (w, suc n))
  | err e ↦ run rest u
]

-- How many transitions a state has ahead of it at most.
abbrev ahead : Status → ℕ
ahead completed = 0
ahead failed = 0
ahead processing = 1
ahead _ = 2

perform-ahead :
    (now : ℕ) (op : Operation) (u v : Upload)
    → perform now op u ≡ ok v
    → suc (ahead v.upload_status) ≤ ahead u.upload_status
unfolding perform
perform-ahead now op u v h = ground arith

run-ahead : (calls : List (ℕ × Operation)) (u : Upload) → (run calls u).1 ≤ ahead u.upload_status
unfolding run
run-ahead [] u = omega arith
run-ahead ((now, op) ∷ rest) u = elim (Result-cases (perform now op u)) [
  | inl (v, e) ↦ rw (e, run) (omega (arith, run-ahead rest v, perform-ahead now op u v e))
  | inr (x, e) ↦ rw (e, run) (run-ahead rest u)
]

run-IsValid : (calls : List (ℕ × Operation)) (u : Upload) → IsValid u → IsValid (run calls u).0
unfolding run
run-IsValid [] u k = k
run-IsValid ((now, op) ∷ rest) u k = elim (Result-cases (perform now op u)) [
  | inl (v, e) ↦ rw (e, run) (run-IsValid rest v (perform-IsValid now op u v e))
  | inr (x, e) ↦ rw (e, run) (run-IsValid rest u k)
]

perform_stuck :
    (now : ℕ) (op : Operation) (u v : Upload)
    → IsTerminal u.upload_status
    → perform now op u ≡ ok v
    → ⊥
perform_stuck now op u v t e = ground (arith, perform-ahead now op u v e)

run_stuck :
    (calls : List (ℕ × Operation)) (u : Upload) → IsTerminal u.upload_status → run calls u ≡ (u, 0)
unfolding run
run_stuck [] u t = refl
run_stuck ((now, op) ∷ rest) u t = elim (Result-cases (perform now op u)) [
  | inl (v, e) ↦ absurd (perform_stuck now op u v t e)
  | inr (x, e) ↦ rw (e, run) (run_stuck rest u t)
]

-- Whatever calls are made on a valid upload, what is left is valid and at most two of them return;
-- on a terminal upload none does, and nothing changes.
pub upload_run_bounded :
    (calls : List (ℕ × Operation)) (u : Upload)
    → IsValid u
    → IsValid (run calls u).0
      × ((run calls u).1 ≤ 2)
      × (IsTerminal u.upload_status → run calls u ≡ (u, 0))
upload_run_bounded calls u k =
    (run-IsValid calls u k, ground (arith, run-ahead calls u), run_stuck calls u)
