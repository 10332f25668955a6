-- ===== src/Intake/Retry.antt =====
-- A request that is repeated with its idempotency key (`process_upload` of
-- backend/app/application/services/upload_service.py with the end of its session).
use mathlib.Core.Path.{subst}
use sentinal.Prelude.{
  ℕ, String, ◌≡◌, inl, inr, sym, ◌∙◌, true, Option, none, some, arith, Option-cases, eq_iff,
}
use sentinal.Prelude.Outcome.{ok, err}
use sentinal.Upload
use sentinal.Upload.{UploadError, start_processing}
use sentinal.Repository.Session.{not_found}
use sentinal.Intake.Tables.{
  Records, create_upload, update_upload, get_by_idempotency_key, find_idempotent, stored_upload,
  same_key, same_user,
}
use sentinal.Intake.World.{Request}
use sentinal.Intake.Process.{write_status, write_final}
use sentinal.Intake.Rows.{has_key}
use sentinal.Intake.Remembered.{
  Remembered, Recalled, found_Recalled, create_upload_id, create_upload-Remembered,
  update_upload-Remembered, write_status-Identity, write_final-Identity, Remembered-Recalled,
}
use sentinal.Intake.Tracking.{Tracking}

stored_has_key :
    (now user_id : ℕ) (key : String) (u : Upload.Upload)
    → u.user_id ≡ some user_id
    → u.idempotency_key ≡ some key
    → has_key user_id key (stored_upload now u) ≡ true
unfolding has_key same_key same_user
stored_has_key now user_id key u owner idem = rw (owner, idem) (ground (arith, eq_iff key key))

-- No row has the key, when a look-up in an open session says so.
none_found :
    (user_id : ℕ) (key : String) (db : Records)
    → get_by_idempotency_key user_id key db ≡ err not_found
    → find_idempotent user_id key db.tables.uploads ≡ none
unfolding get_by_idempotency_key Upload.construct
none_found user_id key db h = elim (Option-cases (find_idempotent user_id key db.tables.uploads)) [
  | inl e ↦ e
  | inr (u, e) ↦ ground arith
]

absent_key : (key : String) → ◌≡◌ {A = Option String} none (some key) → ⊥
absent_key key h = ground arith

some_same : (k l : String) → ◌≡◌ {A = Option String} (some k) (some l) → k ≡ l
some_same k l h = ground arith

-- An upload is found again by its key.
abbrev recall : (q : Request) (key : String) → q.idempotency_key ≡ some key → Tracking q
recall q key keyed = record {
  Start = λ uploads. Unit;
  Fresh = λ uploads. find_idempotent q.user_id key uploads ≡ none;
  Open = Remembered q.user_id key;
  Done = Recalled q.user_id key;
  unkeyed = λ uploads h start. absurd (absent_key key (sym h ∙ keyed));
  missed = λ other db h e start. none_found q.user_id key db (
      subst (λ x. get_by_idempotency_key q.user_id x db ≡ err not_found)
        (some_same other key (sym h ∙ keyed)) e);
  replayed = λ other u db h e start. found_Recalled q.user_id key db u (
      subst (λ x. get_by_idempotency_key q.user_id x db ≡ ok u)
        (some_same other key (sym h ∙ keyed)) e);
  begun = λ now u v db owner idem h fresh.
      subst (λ x. Remembered q.user_id key x (create_upload now u db).1.tables.uploads)
        (sym (create_upload_id now u v db h))
        (create_upload-Remembered now q.user_id key u v db h fresh
          (stored_has_key now q.user_id key u owner (idem ∙ keyed)));
  progressed = λ id now p v db h m.
      update_upload-Remembered q.user_id key id (write_status now p) v db
        (write_status-Identity id now p) h m;
  finished = λ c v db closed h m.
      Remembered-Recalled q.user_id key c.id
        (update_upload c.id (write_final c) db).1.tables.uploads
        (update_upload-Remembered q.user_id key c.id (write_final c) v db
          (write_final-Identity c.id c) h m);
}
