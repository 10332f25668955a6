-- ===== src/Intake/Inserts.antt =====
-- Uploads as insertions into a map of contents by their digest: a content that was there, and a new one
-- (`_resolve_asset` of backend/app/application/services/upload_service.py).
use mathlib.Core.Path.{subst}
use sentinal.Prelude.{
  ℕ, String, ◌≡◌, inl, inr, refl, sym, ap, ◌∙◌, Bool, true, false, Option, none, some, List, [],
  ◌∷◌, ◌++◌, str_eq, eq_iff, arith, Bool-cases, Option-cases,
}
use sentinal.Prelude.Case.{lower}
use sentinal.Asset.{DigitalAsset}
use sentinal.Intake.Tables.{Tables, find_hash, hash_matches}
use sentinal.Intake.World.{Bucket}
use sentinal.Intake.Contents.{key_is_free, object_of, content_of, AllGenuine, insert}
use sentinal.Intake.Lookups.{
  Frame, content_of-Frame, AllGenuine-Frame, content_of-found, find_hash-append, find_hash-lower,
}

str_eq-lower : (x y : String) → str_eq (lower x) (lower y) ≡ true → lower x ≡ lower y
str_eq-lower x y e = ground (arith, eq_iff (lower x) (lower y))

hash_matches-str_eq :
    (h hash : String) (s : Option String) (b : Bool)
    → s ≡ some hash
    → str_eq (lower hash) (lower h) ≡ b
    → hash_matches h s ≡ b
hash_matches-str_eq h hash s b at e = rw (at, e) refl

find_hash_new :
    (h : String) (assets : List DigitalAsset) (n : DigitalAsset)
    → find_hash h assets ≡ none
    → hash_matches h n.sha256_hash ≡ true
    → n.deleted_at ≡ none
    → find_hash h (assets ++ n ∷ []) ≡ some n
find_hash_new h assets n e m live = rw (find_hash-append h assets n, e, m, live) refl

find_hash_kept :
    (h : String) (assets : List DigitalAsset) (n : DigitalAsset)
    → hash_matches h n.sha256_hash ≡ false
    → find_hash h (assets ++ n ∷ []) ≡ find_hash h assets
find_hash_kept h assets n m = elim (Option-cases (find_hash h assets)) [
  | inl e ↦ rw (find_hash-append h assets n, e, m) refl
  | inr (a, e) ↦ rw (find_hash-append h assets n, e) refl
]

module _ (B : Bucket) (sha256 : List ℕ → String) (T : Tables) (key : String) (content : List ℕ)
    (idem : Option String) (s : B.State) (genuine : AllGenuine B sha256 s T.assets)
    (free : key_is_free key T.assets ≡ true)
    (no_collision : (h : String) (c : List ℕ)
      → content_of B sha256 T.assets s h ≡ some c
      → lower (sha256 c) ≡ lower (sha256 content)
      → c ≡ content) where
  abbrev pub before : String → Option (List ℕ)
  before = content_of B sha256 T.assets s

  pub same-Refined :
      (s' : B.State) (assets : List DigitalAsset)
      → Frame B sha256 key s s'
      → assets ≡ T.assets
      → AllGenuine B sha256 s' assets × ((h : String) → content_of B sha256 assets s' h ≡ before h)
  same-Refined s' assets f e =
      subst
        (λ as'.
          AllGenuine B sha256 s' as' × ((h : String) → content_of B sha256 as' s' h ≡ before h))
        (sym e)
        (
          AllGenuine-Frame B sha256 key s s' T.assets f free genuine,
          λ h. content_of-Frame B sha256 key s s' T.assets h f free,
        )

  -- A content that was there already.
  pub known_insert :
      (a : DigitalAsset) (h : String)
      → find_hash (sha256 content) T.assets ≡ some a
      → before h ≡ insert (sha256 content) content before h
  known_insert a h there = elim (Bool-cases (str_eq (lower (sha256 content)) (lower h))) [
    | inl y ↦
        let same =
          find_hash-lower (sha256 content) h T.assets (str_eq-lower (sha256 content) h y) in
        let (c, got, digest) =
          content_of-found B sha256 s h T.assets a (sym same ∙ there) genuine in
        rw y
          (got ∙ ap some (no_collision h c got (digest ∙ sym (str_eq-lower (sha256 content) h y))))
    | inr n ↦ rw n refl
  ]

  -- A content that is new.
  pub added_insert :
      (s' : B.State) (n : DigitalAsset) (h : String)
      → Frame B sha256 key s s'
      → find_hash (sha256 content) T.assets ≡ none
      → n.sha256_hash ≡ some (sha256 content)
      → n.storage_key ≡ some key
      → n.deleted_at ≡ none
      → B.get s' key ≡ some content
      → content_of B sha256 (T.assets ++ n ∷ []) s' h ≡ insert (sha256 content) content before h
  unfolding content_of object_of
  added_insert s' n h f fresh hash at live got =
      elim (Bool-cases (str_eq (lower (sha256 content)) (lower h))) [
        | inl y ↦
            let gone : find_hash h T.assets ≡ none =
              sym (find_hash-lower (sha256 content) h T.assets (str_eq-lower (sha256 content) h y))
              ∙ fresh in
            let matches = hash_matches-str_eq h (sha256 content) n.sha256_hash true hash y in
            rw (find_hash_new h T.assets n gone matches live, at, got, y) refl
        | inr differs ↦
            let apart = hash_matches-str_eq h (sha256 content) n.sha256_hash false hash differs in
            rw (find_hash_kept h T.assets n apart, differs)
              (content_of-Frame B sha256 key s s' T.assets h f free)
      ]
