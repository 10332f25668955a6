-- ===== src/Intake/Contents.antt =====
-- The abstract view of what uploads have left behind: contents by their digest. It forgets the rows,
-- the object keys, and which upload came first.
use sentinal.Prelude.{
  ℕ, String, ◌≡◌, Bool, not, Option, none, some, List, [], ◌∷◌, all, str_eq, if◌then◌else◌,
}
use sentinal.Prelude.Case.{lower}
use sentinal.Asset.{DigitalAsset}
use sentinal.Intake.Tables.{find_hash, same_key}
use sentinal.Intake.World.{Bucket}

-- No asset has the object key.
unfoldable pub key_is_free : (key : String) → List DigitalAsset → Bool
unfolding same_key
key_is_free key assets = all (λ a. not (same_key a.storage_key (some key))) assets

module _ (B : Bucket) (sha256 : List ℕ → String) where
  -- the content of an asset, in object storage
  unfoldable pub object_of : Option DigitalAsset → B.State → Option (List ℕ)
  object_of none s = none
  object_of (some a) s = elim a.storage_key [ none ↦ none | some key ↦ B.get s key ]

  -- the content with a digest, of an asset that is not deleted
  unfoldable pub content_of : List DigitalAsset → B.State → (hash : String) → Option (List ℕ)
  unfolding object_of
  content_of assets s hash = object_of (find_hash hash assets) s

  -- An asset with a digest has an object with a content that has this digest.
  pub data Genuine (s : B.State) (a : DigitalAsset) : Type 0 where
    no_content : a.sha256_hash ≡ none → Genuine s a
    stored :
        (key : String) (content : List ℕ)
        → a.storage_key ≡ some key
        → B.get s key ≡ some content
        → a.sha256_hash ≡ some (sha256 content)
        → Genuine s a

  unfoldable pub AllGenuine : B.State → List DigitalAsset → Type 0
  AllGenuine s [] = Unit
  AllGenuine s (a ∷ assets) = Genuine s a × AllGenuine s assets

-- The abstract operation: the content is there, and nothing else has changed.
abbrev pub insert :
    (hash : String) (content : List ℕ) → (String → Option (List ℕ)) → String → Option (List ℕ)
insert hash content before h = if str_eq (lower hash) (lower h) then some content else before h
