-- ===== src/Asset/Identity.antt =====
-- Equality and hashing of digital assets (`__eq__` and `__hash__` of
-- backend/app/domain/entities/digital_asset.py).
use sentinal.Prelude.{
  ◌≡◌, true, Option, arith, refl, eq_iff, is_none, Option-cases, inl, inr, not, ◌↔◌, ℕ, String,
}
use sentinal.Prelude.Outcome.{ok}
use sentinal.Asset.{
  AssetType, DigitalAsset, url, domain, ip_address, file_hash, file, other, same_type, equals,
  hash_key, is_file_like, Labels, create_file, create_ioc,
}

same_type_eq : (s t : AssetType) → same_type s t ≡ true → s ≡ t
unfolding same_type
same_type_eq url url h = refl
same_type_eq domain domain h = refl
same_type_eq ip_address ip_address h = refl
same_type_eq file_hash file_hash h = refl
same_type_eq file file h = refl
same_type_eq (other s) (other t) h = ground (arith, eq_iff s t)
same_type_eq _ _ h = ground arith

same_type_refl : (s : AssetType) → same_type s s ≡ true
unfolding same_type
same_type_refl url = refl
same_type_refl domain = refl
same_type_refl ip_address = refl
same_type_refl file_hash = refl
same_type_refl file = refl
same_type_refl (other s) = ground (arith, eq_iff s s)

-- An asset that one of the factories has returned.
pub data Made (a : DigitalAsset) : Type 0 where
  as_file :
      (now user_id : ℕ) (sha256_hash mime_type : String) (size_bytes : ℕ) (raw_value : String)
      (id : ℕ) (storage_key : Option String) (l : Labels)
      → create_file now user_id sha256_hash mime_type size_bytes raw_value id storage_key l ≡ ok a
      → Made a
  as_ioc :
      (now user_id : ℕ) (asset_type : AssetType) (raw_value normalized_value : String) (id : ℕ)
      (l : Labels)
      → create_ioc now user_id asset_type raw_value normalized_value id l ≡ ok a
      → Made a

-- A factory gives a hash to the file-like types, and to no other.
Made-sha256_hash :
    (a : DigitalAsset) → Made a → is_none a.sha256_hash ≡ not (is_file_like a.asset_type)
unfolding create_file create_ioc is_file_like
Made-sha256_hash a (as_file now user h mime size raw id key l e) = ground arith
Made-sha256_hash a (as_ioc now user type raw norm id l e) = ground arith

-- Two assets that the factories have made are equal exactly when the same value is hashed for them:
-- the digest of the content, or the user with the type and the normalized value.
pub equals_iff :
    (a b : DigitalAsset) → Made a → Made b → (equals a b ≡ true) ↔ (hash_key a ≡ hash_key b)
unfolding equals hash_key
equals_iff a b k m =
    let ha = Made-sha256_hash a k in
    let hb = Made-sha256_hash b m in
    elim (Option-cases a.sha256_hash) [
      | inl e ↦ elim (Option-cases b.sha256_hash) [
        | inl f ↦ (
          λ h. ground (
            arith,
            same_type_eq a.asset_type b.asset_type,
            eq_iff a.normalized_value b.normalized_value,
          ),
          λ h.
              ground
                (arith, same_type_refl a.asset_type, eq_iff a.normalized_value b.normalized_value),
        )
        | inr (t, f) ↦
            (λ h. ground (arith, same_type_eq a.asset_type b.asset_type), λ h. ground arith)
      ]
      | inr (s, e) ↦ elim (Option-cases b.sha256_hash) [
        | inl f ↦ (λ h. ground (arith, same_type_eq a.asset_type b.asset_type), λ h. ground arith)
        | inr (t, f) ↦ (λ h. ground (arith, eq_iff s t), λ h. ground (arith, eq_iff s t))
      ]
    ]
