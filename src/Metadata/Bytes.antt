-- ===== src/Metadata/Bytes.antt =====
-- Reading bytes, as the readers of backend/app/analyzers/metadata_analyzer/analyzer.py do it.
use sentinal.Prelude.{ℕ, zero, suc, ◌+◌, ◌*◌, Bool, true, false, ◌&&◌, List, [], ◌∷◌, ◌==◌}

-- `content[i]`, which the readers only ask for below the length
unfoldable pub byte_at : ℕ → List ℕ → ℕ
byte_at i [] = 0
byte_at zero (b ∷ bs) = b
byte_at (suc i) (b ∷ bs) = byte_at i bs

-- `struct.unpack(">H", content[i : i + 2])`
unfoldable pub u16_at : ℕ → List ℕ → ℕ
unfolding byte_at
u16_at i content = 256 * byte_at i content + byte_at (i + 1) content

-- `struct.unpack(">I", content[i : i + 4])`
unfoldable pub u32_at : ℕ → List ℕ → ℕ
unfolding u16_at
u32_at i content = 65536 * u16_at i content + u16_at (i + 2) content

-- `content.startswith(prefix)`
unfoldable pub starts_with : List ℕ → List ℕ → Bool
starts_with [] content = true
starts_with (p ∷ prefix) [] = false
starts_with (p ∷ prefix) (b ∷ content) = p == b && starts_with prefix content
