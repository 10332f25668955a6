-- ===== src/Asset.antt =====
-- backend/app/domain/entities/digital_asset.py: a digital asset, its construction checks, its two
-- factories and its identity. A `raise ValueError` is a value of the type `AssetError`.
pub mod Identity
use sentinal.Prelude.{
  ℕ, String, Bool, true, false, not, ◌&&◌, ◌||◌, Option, none, some, ◌==◌, is_none, str_eq,
  if◌then◌else◌,
}
use sentinal.Prelude.Outcome.{Result, ok, err, ◌>>=◌, ◌>>◌, refuse}
use sentinal.Upload.{is_sha256}

-- `asset_type: str`; `other` is a text that is not in `VALID_ASSET_TYPES`.
pub data AssetType : Type 0 where
  url domain ip_address file_hash file : AssetType
  other : String → AssetType

abbrev pub in_valid_types : AssetType → Bool
in_valid_types (other s) = false
in_valid_types _ = true

-- `in FILE_LIKE_TYPES`
unfoldable pub is_file_like : AssetType → Bool
is_file_like file = true
is_file_like file_hash = true
is_file_like _ = false

abbrev pub is_file : AssetType → Bool
is_file file = true
is_file _ = false

-- `==` on the texts
unfoldable pub same_type : AssetType → AssetType → Bool
same_type url url = true
same_type domain domain = true
same_type ip_address ip_address = true
same_type file_hash file_hash = true
same_type file file = true
same_type (other s) (other t) = str_eq s t
same_type _ _ = false

pub data AssetError : Type 0 where
  invalid_type hash_format hash_required mime_type_required size_required : AssetError

pub record DigitalAsset : Type 0 where
  pub id : ℕ
  pub user_id : ℕ
  pub asset_type : AssetType
  pub normalized_value : String
  pub raw_value : String
  pub display_label : Option String
  pub metadata_json : Option String
  pub is_active : Bool
  pub sha256_hash : Option String
  pub mime_type : Option String
  pub size_bytes : Option ℕ
  pub storage_key : Option String
  pub created_at : ℕ
  pub updated_at : Option ℕ
  pub deleted_at : Option ℕ

abbrev bad_hash : Option String → Bool
bad_hash none = false
bad_hash (some s) = not (is_sha256 s)

-- A size is a natural number here, so the test `size_bytes < 0` never fires.
unfoldable pub validate : DigitalAsset → Result AssetError (Unit {0})
unfolding is_file_like
validate a = do
  refuse (not (in_valid_types a.asset_type)) invalid_type
  refuse (bad_hash a.sha256_hash) hash_format
  refuse (is_file_like a.asset_type && is_none a.sha256_hash) hash_required
  refuse (is_file a.asset_type && is_none a.mime_type) mime_type_required
  refuse (is_file a.asset_type && is_none a.size_bytes) size_required

-- `DigitalAsset(...)` runs `__post_init__`.
unfoldable pub construct : DigitalAsset → Result AssetError DigitalAsset
unfolding validate
construct a = do validate a; ok a

-- `created_at or datetime.now(tz=UTC)`
abbrev or_now : ℕ → Option ℕ → ℕ
or_now now none = now
or_now now (some t) = t

-- The keyword arguments that both factories take.
pub record Labels : Type 0 where
  pub display_label : Option String
  pub metadata_json : Option String
  pub created_at : Option ℕ

unfoldable pub create_file :
    (now user_id : ℕ) (sha256_hash mime_type : String) (size_bytes : ℕ) (raw_value : String)
    (id : ℕ)
    → (storage_key : Option String) → Labels
    → Result AssetError DigitalAsset
unfolding construct
create_file now user_id sha256_hash mime_type size_bytes raw_value id storage_key l =
    construct (record {
      id = id;
      user_id = user_id;
      asset_type = file;
      normalized_value = sha256_hash;
      raw_value = raw_value;
      display_label = l.display_label;
      metadata_json = l.metadata_json;
      is_active = true;
      sha256_hash = some sha256_hash;
      mime_type = some mime_type;
      size_bytes = some size_bytes;
      storage_key = storage_key;
      created_at = or_now now l.created_at;
      updated_at = none;
      deleted_at = none;
    })

unfoldable pub create_ioc :
    (now user_id : ℕ) (asset_type : AssetType) (raw_value normalized_value : String) (id : ℕ)
    → Labels
    → Result AssetError DigitalAsset
unfolding construct
create_ioc now user_id asset_type raw_value normalized_value id l = construct (record {
  id = id;
  user_id = user_id;
  asset_type = asset_type;
  normalized_value = normalized_value;
  raw_value = raw_value;
  display_label = l.display_label;
  metadata_json = l.metadata_json;
  is_active = true;
  sha256_hash = none;
  mime_type = none;
  size_bytes = none;
  storage_key = none;
  created_at = or_now now l.created_at;
  updated_at = none;
  deleted_at = none;
})

abbrev same_tuple : DigitalAsset → DigitalAsset → Bool
same_tuple a b =
    a.user_id == b.user_id
    && same_type a.asset_type b.asset_type
    && str_eq a.normalized_value b.normalized_value

abbrev eq_by : Option String → Option String → Bool → Bool
eq_by (some s) (some t) tuple = str_eq s t
eq_by _ _ tuple = tuple

-- `__eq__`
unfoldable pub equals : DigitalAsset → DigitalAsset → Bool
unfolding same_type
equals a b = eq_by a.sha256_hash b.sha256_hash (same_tuple a b)

-- What `__hash__` hashes.
pub data HashKey : Type 0 where
  of_content : String → HashKey
  of_tuple : (user_id : ℕ) → AssetType → (normalized_value : String) → HashKey

unfoldable pub hash_key : DigitalAsset → HashKey
hash_key a = elim a.sha256_hash [
  | some s ↦ of_content s
  | none ↦ of_tuple a.user_id a.asset_type a.normalized_value
]
