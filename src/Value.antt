-- ===== src/Value.antt =====
-- The Python values that the records of the program hold: confidences and JSON evidence.
use sentinal.Prelude.{
  ℕ, String, Bool, false, Option, none, some, List, [], ◌∷◌, leb, str_eq, if◌then◌else◌,
}

-- A `float` confidence: a number of millionths, one below zero, or `nan`.
pub data Confidence : Type 0 where
  millionths : ℕ → Confidence
  below_zero : ℕ → Confidence
  nan : Confidence

-- `0.0 <= c <= 1.0`
unfoldable pub in_unit : Confidence → Bool
in_unit (millionths n) = leb n 1000000
in_unit (below_zero n) = false
in_unit nan = false

-- A value in an evidence dictionary.
pub data Scalar : Type 0 where
  text : String → Scalar
  number : ℕ → Scalar

-- The texts of a payload, as `payload.get(key)` reads them.
abbrev pub Verdict : Type 0
Verdict = Option String

abbrev pub Recommendation : Type 0
Recommendation = Option String

-- `evidence: Any`: `None`, a dictionary, a value with no `get`, or a whole payload. A payload is
-- the JSON object kept in `reasoning_payload` and `enrichment_data`; a text column that holds JSON
-- is represented by the value that it denotes.
mutual
  pub data Evidence : Type 0 where
    absent : Evidence
    dict : List (String × Scalar) → Evidence
    opaque : String → Evidence
    object : Payload → Evidence

  pub data Payload : Type 0 where
    payload : Verdict → Evidence → Recommendation → Payload

-- `d.get(key)`
unfoldable pub dict_get : String → List (String × Scalar) → Option Scalar
dict_get k [] = none
dict_get k ((j, v) ∷ d) = if str_eq j k then some v else dict_get k d
