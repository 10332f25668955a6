-- ===== src/Intake/Refinement.antt =====
-- The refinement of a map of contents by the handling of uploads (`process_upload` of
-- backend/app/application/services/upload_service.py with the end of its session).
use mathlib.Core.Path.{subst}
use mathlib.Core.List.{flatten}
use sentinal.Prelude.{
  ℕ, String, ◌≡◌, inl, inr, refl, sym, ap, ◌∙◌, true, false, Option, some, List, arith, Bool-cases,
}
use sentinal.Prelude.Case.{lower}
use sentinal.Prelude.Outcome.{Result, ok, err}
use sentinal.Upload
use sentinal.Intake.Tables.{Tables, rollback}
use sentinal.Intake.World.{Bucket, Settings, Request, Outside, IntakeError, World, Returned}
use sentinal.Intake.Process.{storage_key_of, process_upload}
use sentinal.Intake.Handle.{
  Kept, open_session, commit, after_commit, end_session, handle_upload, kept_of,
}
use sentinal.Intake.Contents.{key_is_free, content_of, stored, AllGenuine, insert}
use sentinal.Intake.Lookups.{Frame, AllGenuine-Frame, AllGenuine-append}
use sentinal.Intake.Resolving.{known, added}
use sentinal.Intake.Stages.{Settled, Kind, undone, replayed, taken}
use sentinal.Intake.Begin.{process_upload-Settled}
use sentinal.Intake.Inserts.{same-Refined, known_insert, added_insert}

-- What a request may do to the map, by its answer.
pub data Refines (hash : String) (content : List ℕ) (idem : Option String)
    (before after : String → Option (List ℕ)) : Result IntakeError Upload.Upload → Type 0 where
  inserts :
      (u : Upload.Upload)
      → ((h : String) → after h ≡ insert hash content before h)
      → Refines hash content idem before after (ok u)
  replays :
      (u : Upload.Upload) (key : String)
      → idem ≡ some key
      → ((h : String) → after h ≡ before h)
      → Refines hash content idem before after (ok u)
  refuses :
      (e : IntakeError)
      → ((h : String) → after h ≡ before h)
      → Refines hash content idem before after (err e)

-- The map and the invariant after a request, and its answer.
abbrev pub Refined :
    (B : Bucket) (sha256 : List ℕ → String) (content : List ℕ) (idem : Option String)
    (before : String → Option (List ℕ))
    → Result IntakeError Upload.Upload × Kept B.State
    → Type 0
Refined B sha256 content idem before (r, k) =
    AllGenuine B sha256 k.bucket k.tables.assets
    × Refines (sha256 content) content idem before (content_of B sha256 k.tables.assets k.bucket) r

module _ (B : Bucket) (sha256 : List ℕ → String) (T : Tables) (key : String) (content : List ℕ)
    (idem : Option String) (s : B.State) (genuine : AllGenuine B sha256 s T.assets)
    (free : key_is_free key T.assets ≡ true)
    (no_collision : (h : String) (c : List ℕ)
      → content_of B sha256 T.assets s h ≡ some c
      → lower (sha256 c) ≡ lower (sha256 content)
      → c ≡ content) where
  abbrev before : String → Option (List ℕ)
  before = content_of B sha256 T.assets s

  unchanged-Refined :
      (w : World B.State) (e : IntakeError)
      → w.records.committed ≡ T
      → Frame B sha256 key s w.bucket
      → Refined B sha256 content idem before (err e, kept_of w (rollback w.records))
  unfolding rollback
  unchanged-Refined w e c f =
      let (genuine_now, same) =
        same-Refined B sha256 T key content idem s genuine free no_collision w.bucket
          w.records.committed.assets f (ap (λ t. t.assets) c) in
      (genuine_now, refuses e same)

  kept-Refined :
      (w : World B.State) (u : Upload.Upload)
      → Frame B sha256 key s w.bucket
      → Kind B sha256 T key content idem w (ok u)
      → w.records.is_broken ≡ false
      → Refined B sha256 content idem before
          (ok u, record { tables = w.records.tables; bucket = w.bucket })
  kept-Refined w u f (undone v broken) whole = ground arith
  kept-Refined w u f (replayed v i e as') whole =
      let (genuine_now, same) =
        same-Refined B sha256 T key content idem s genuine free no_collision w.bucket
          w.records.tables.assets f as' in
      (genuine_now, replays u i e same)
  kept-Refined w u f (taken v (known a as' there)) whole =
      let (genuine_now, same) =
        same-Refined B sha256 T key content idem s genuine free no_collision w.bucket
          w.records.tables.assets f as' in
      (
        genuine_now,
        inserts u (λ h.
            same h
            ∙ known_insert B sha256 T key content idem s genuine free no_collision a h there),
      )
  kept-Refined w u f (taken v (added n as' fresh hash at live got)) whole =
      subst
        (λ l.
          AllGenuine B sha256 w.bucket l
          × Refines (sha256 content) content idem before (content_of B sha256 l w.bucket) (ok u))
        (sym as')
        (
          AllGenuine-append B sha256 w.bucket T.assets n
              (AllGenuine-Frame B sha256 key s w.bucket T.assets f free genuine)
              (stored key content at got hash),
          inserts u (λ h.
              added_insert B sha256 T key content idem s genuine free no_collision w.bucket n h f
                fresh hash at live got),
        )

  committed-Refined :
      (w : World B.State) (u : Upload.Upload)
      → w.records.committed ≡ T
      → Frame B sha256 key s w.bucket
      → Kind B sha256 T key content idem w (ok u)
      → Refined B sha256 content idem before (end_session (ok u, w))
  unfolding end_session after_commit commit
  committed-Refined w u c f kind = elim (Bool-cases w.records.is_broken) [
    | inl y ↦ rw y (unchanged-Refined w _ c f)
    | inr n ↦ rw n (kept-Refined w u f kind n)
  ]

  pub end_session-Refined :
      (d : Returned B.State)
      → Settled B sha256 T key content idem s d
      → Refined B sha256 content idem before (end_session d)
  unfolding end_session
  end_session-Refined (err e, w) k = unchanged-Refined w e k.committed k.frame
  end_session-Refined (ok u, w) k = committed-Refined w u k.committed k.frame k.kind

-- Where every asset with a digest has an object with a content of this digest, no asset has the
-- request's object key, and no stored content but the request's has the digest of the request's
-- content: after the request, whatever it answers, every asset with a digest again has such an
-- object, and of the map of contents by their digest, either the request's content has been
-- inserted into it and the request is answered with an upload; or the map is as it was, after an
-- answer with an upload to a request with an idempotency key, or after a refusal.
pub handle_upload-Refined :
    (B : Bucket) (sha256 : List ℕ → String) (st : Settings) (o : Outside) (q : Request)
    (k : Kept B.State)
    → AllGenuine B sha256 k.bucket k.tables.assets
    → key_is_free (storage_key_of o q) k.tables.assets ≡ true
    → ((h : String) (c : List ℕ)
        → content_of B sha256 k.tables.assets k.bucket h ≡ some c
        → lower (sha256 c) ≡ lower (sha256 (flatten q.stream))
        → c ≡ flatten q.stream)
    → Refined B sha256
        (flatten q.stream)
        q.idempotency_key
        (content_of B sha256 k.tables.assets k.bucket)
        (handle_upload B sha256 st o q k)
unfolding handle_upload
handle_upload-Refined B sha256 st o q k genuine free no_collision =
    end_session-Refined B sha256 k.tables (storage_key_of o q) (flatten q.stream) q.idempotency_key
      k.bucket genuine free no_collision (process_upload B sha256 st o q (open_session k))
      (process_upload-Settled B sha256 k.tables st o q k.bucket (open_session k)
        record { committed = refl; assets = refl; frame = record { others = λ other apart. refl } })
