-- ===== src/Intake/Lookups.antt =====
-- Looking up contents when objects come and go and assets are added
-- (`get_by_hash` of backend/app/infrastructure/database/repositories/digital_asset.py).
use mathlib.Core.Path.{subst}
use sentinal.Prelude.{
  ℕ, String, ◌≡◌, ◌≢◌, inl, inr, refl, ap, ◌∙◌, true, false, ◌&&◌, Option, none, some, List, [],
  ◌∷◌, ◌++◌, is_none, str_eq, eq_iff, arith, Bool-cases, Option-cases, if◌then◌else◌,
}
use sentinal.Prelude.Case.{lower}
use sentinal.Asset.{DigitalAsset}
use sentinal.Intake.Tables.{find_hash, same_key, hash_matches}
use sentinal.Intake.World.{Bucket}
use sentinal.Intake.Contents.{
  key_is_free, object_of, content_of, Genuine, no_content, stored, AllGenuine,
}

pub find_hash-append :
    (hash : String) (assets : List DigitalAsset) (n : DigitalAsset)
    → find_hash hash (assets ++ n ∷ []) ≡ (elim (find_hash hash assets) [
      | some a ↦ some a
      | none ↦ if hash_matches hash n.sha256_hash && is_none n.deleted_at then some n else none
    ])
unfolding find_hash
find_hash-append hash [] n = refl
find_hash-append hash (a ∷ assets) n = ground (arith, find_hash-append hash assets n)

hash_matches-lower :
    (hash other : String) (s : Option String)
    → lower hash ≡ lower other
    → hash_matches hash s ≡ hash_matches other s
hash_matches-lower hash other none h = refl
hash_matches-lower hash other (some s) h = ap (str_eq (lower s)) h

-- Only the lower-case form of a digest matters.
pub find_hash-lower :
    (hash other : String) (assets : List DigitalAsset)
    → lower hash ≡ lower other
    → find_hash hash assets ≡ find_hash other assets
unfolding find_hash
find_hash-lower hash other [] h = refl
find_hash-lower hash other (a ∷ assets) h =
    ground
      (arith, hash_matches-lower hash other a.sha256_hash h, find_hash-lower hash other assets h)

find_hash_matches :
    (hash : String) (assets : List DigitalAsset) (a : DigitalAsset)
    → find_hash hash assets ≡ some a
    → hash_matches hash a.sha256_hash ≡ true
unfolding find_hash
find_hash_matches hash [] a h = ground arith
find_hash_matches hash (b ∷ assets) a h = ground (arith, find_hash_matches hash assets a)

find_hash_free :
    (key hash : String) (assets : List DigitalAsset) (a : DigitalAsset)
    → find_hash hash assets ≡ some a
    → key_is_free key assets ≡ true
    → same_key a.storage_key (some key) ≡ false
unfolding find_hash key_is_free
find_hash_free key hash [] a h free = ground arith
find_hash_free key hash (b ∷ assets) a h free = ground (arith, find_hash_free key hash assets a)

same_key_apart : (k key : String) → same_key (some k) (some key) ≡ false → k ≢ key
unfolding same_key
same_key_apart k key h e = ground (arith, eq_iff k key)

module _ (B : Bucket) (sha256 : List ℕ → String) where
  -- Only the object with the key may have changed.
  pub record Frame (key : String) (s s' : B.State) : Type 0 where
    pub others : (other : String) → other ≢ key → B.get s' other ≡ B.get s other

  object_of-Frame :
      (key : String) (s s' : B.State) (a : DigitalAsset)
      → Frame key s s'
      → same_key a.storage_key (some key) ≡ false
      → object_of B sha256 (some a) s' ≡ object_of B sha256 (some a) s
  unfolding object_of
  object_of-Frame key s s' a f apart = elim (Option-cases a.storage_key) [
    | inl e ↦ ground arith
    | inr (k, e) ↦ ground (arith, f.others k (same_key_apart k key (ground arith)))
  ]

  pub content_of-Frame :
      (key : String) (s s' : B.State) (assets : List DigitalAsset) (hash : String)
      → Frame key s s'
      → key_is_free key assets ≡ true
      → content_of B sha256 assets s' hash ≡ content_of B sha256 assets s hash
  unfolding content_of object_of
  content_of-Frame key s s' assets hash f free = elim (Option-cases (find_hash hash assets)) [
    | inl e ↦ ground arith
    | inr (a, e) ↦
        let same = object_of-Frame key s s' a f (find_hash_free key hash assets a e free) in
        rw e same
  ]

  Genuine-Frame :
      (key : String) (s s' : B.State) (a : DigitalAsset)
      → Frame key s s'
      → same_key a.storage_key (some key) ≡ false
      → Genuine B sha256 s a
      → Genuine B sha256 s' a
  Genuine-Frame key s s' a f apart (no_content e) = no_content e
  Genuine-Frame key s s' a f apart (stored k content at got digest) =
      stored k content at (f.others k (same_key_apart k key (ground arith)) ∙ got) digest

  pub AllGenuine-Frame :
      (key : String) (s s' : B.State) (assets : List DigitalAsset)
      → Frame key s s'
      → key_is_free key assets ≡ true
      → AllGenuine B sha256 s assets
      → AllGenuine B sha256 s' assets
  unfolding AllGenuine key_is_free
  AllGenuine-Frame key s s' [] f free g = tt
  AllGenuine-Frame key s s' (a ∷ assets) f free (g, gs) = (
    Genuine-Frame key s s' a f (ground arith) g,
    AllGenuine-Frame key s s' assets f (ground arith) gs,
  )

  pub AllGenuine-append :
      (s : B.State) (assets : List DigitalAsset) (n : DigitalAsset)
      → AllGenuine B sha256 s assets
      → Genuine B sha256 s n
      → AllGenuine B sha256 s (assets ++ n ∷ [])
  unfolding AllGenuine
  AllGenuine-append s [] n gs g = (g, tt)
  AllGenuine-append s (a ∷ assets) n (h, gs) g = (h, AllGenuine-append s assets n gs g)

  Genuine-found :
      (s : B.State) (hash : String) (a : DigitalAsset)
      → Genuine B sha256 s a
      → hash_matches hash a.sha256_hash ≡ true
      → (content : List ℕ) × (object_of B sha256 (some a) s ≡ some content)
        × (lower (sha256 content) ≡ lower hash)
  unfolding object_of
  Genuine-found s hash a (no_content e) m = ground arith
  Genuine-found s hash a (stored k content at got digest) m =
      (content, ground arith, ground (arith, eq_iff (lower (sha256 content)) (lower hash)))

  find_hash-Genuine :
      (s : B.State) (hash : String) (assets : List DigitalAsset) (a : DigitalAsset)
      → find_hash hash assets ≡ some a
      → AllGenuine B sha256 s assets
      → Genuine B sha256 s a
  unfolding find_hash AllGenuine
  find_hash-Genuine s hash [] a h g = ground arith
  find_hash-Genuine s hash (b ∷ assets) a h (g, gs) =
      elim (Bool-cases (hash_matches hash b.sha256_hash && is_none b.deleted_at)) [
        | inl here ↦ subst (Genuine B sha256 s) (ground arith) g
        | inr later ↦ find_hash-Genuine s hash assets a (ground arith) gs
      ]

  -- An asset that is found by a digest has a content with this digest.
  pub content_of-found :
      (s : B.State) (hash : String) (assets : List DigitalAsset) (a : DigitalAsset)
      → find_hash hash assets ≡ some a
      → AllGenuine B sha256 s assets
      → (content : List ℕ) × (content_of B sha256 assets s hash ≡ some content)
        × (lower (sha256 content) ≡ lower hash)
  unfolding content_of
  content_of-found s hash assets a h g =
      let (content, got, digest) =
        Genuine-found s hash a (find_hash-Genuine s hash assets a h g)
          (find_hash_matches hash assets a h) in
      (content, rw h got, digest)
