-- ===== src/Storage/Parts.antt =====
-- The shape of the parts of a multipart upload
-- (backend/app/infrastructure/storage/s3_adapter.py).
use mathlib.Core.List.{flatten, append_assoc, append-nil}
use sentinal.Prelude.{
  ℕ, suc, ◌+◌, ◌≡◌, refl, sym, Bool, true, ◌&&◌, ◌==◌, List, [], ◌∷◌, ◌++◌, length, map, arith,
}
use sentinal.Storage.{Part, Request, upload_part}

abbrev pub upload_of : Part → Request
upload_of p = upload_part p.part_number p.body

abbrev pub body_of : Part → List ℕ
body_of p = p.body

unfoldable pub all_full : (part_size : ℕ) → List Part → Bool
all_full part_size [] = true
all_full part_size (p ∷ parts) = length p.body == part_size && all_full part_size parts

-- The numbers count upwards.
unfoldable pub counts_from : ℕ → List Part → Bool
counts_from n [] = true
counts_from n (p ∷ parts) = p.part_number == n && counts_from (suc n) parts

pub all_full-append :
    (part_size : ℕ) (parts : List Part) (p : Part)
    → all_full part_size (parts ++ p ∷ [])
      ≡ (all_full part_size parts && length p.body == part_size)
unfolding all_full
all_full-append part_size [] p = ground arith
all_full-append part_size (q ∷ parts) p = ground (arith, all_full-append part_size parts p)

pub counts_from-append :
    (n : ℕ) (parts : List Part) (p : Part)
    → counts_from n (parts ++ p ∷ []) ≡ (counts_from n parts && p.part_number == n + length parts)
unfolding counts_from
counts_from-append n [] p = ground arith
counts_from-append n (q ∷ parts) p = ground (arith, counts_from-append (suc n) parts p)

pub flatten-append_last :
    (parts : List Part) (p : Part)
    → flatten (map body_of (parts ++ p ∷ [])) ≡ flatten (map body_of parts) ++ p.body
unfolding flatten
flatten-append_last [] p = append-nil p.body
flatten-append_last (q ∷ parts) p =
    rw (flatten-append_last parts p)
      (sym (append_assoc q.body (flatten (map body_of parts)) p.body))

pub map-append_last :
    (parts : List Part) (p : Part)
    → map upload_of (parts ++ p ∷ []) ≡ map upload_of parts ++ upload_of p ∷ []
map-append_last [] p = refl
map-append_last (q ∷ parts) p = ground (arith, map-append_last parts p)
