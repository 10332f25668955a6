-- ===== src/Registry.antt =====
-- backend/app/analyzers/registry/registry.py: the analyzers by key, in the order of registration.
-- An analyzer is its key, its version and what it makes of a stored file; `analyze` stands for the
-- code of the analyzer classes, which may return a result, raise, or run past the time limit.
use text.Mathlib.TextPositions.{eq_refl}
use sentinal.Prelude.{
  ℕ, String, ◌≡◌, ◌≢◌, not, Option, none, some, List, [], ◌∷◌, ◌++◌, str_eq, eq_iff, is_empty,
  is_none, if◌then◌else◌, arith, refl,
}
use sentinal.Prelude.Outcome.{Result, ok, err}
use sentinal.Analysis.{AnalysisResult}

-- What `asyncio.wait_for(analyzer.analyze(...), timeout)` does.
pub data Outcome : Type 0 where
  returned : AnalysisResult → Outcome
  raised : (message type_name : String) → Outcome

pub record Analyzer : Type 0 where
  pub key : String
  pub version : String
  pub analyze : (asset : ℕ) → Outcome

pub data AnalyzerRegistryError : Type 0 where
  key_required version_required duplicate_key unknown_key : AnalyzerRegistryError

abbrev pub Registry : Type 0
Registry = List Analyzer

-- `self._analyzers[key]`
unfoldable pub find : String → Registry → Option Analyzer
find key [] = none
find key (a ∷ registry) = if str_eq a.key key then some a else find key registry

unfoldable pub register : Analyzer → Registry → Result AnalyzerRegistryError Registry
register a registry =
    if is_empty a.key
    then err key_required
    else if is_empty a.version
    then err version_required
    else if not (is_none (find a.key registry))
    then err duplicate_key
    else ok (registry ++ a ∷ [])

abbrev found : Option Analyzer → Result AnalyzerRegistryError Analyzer
found none = err unknown_key
found (some a) = ok a

unfoldable pub get : String → Registry → Result AnalyzerRegistryError Analyzer
get key registry = found (find key registry)

find-append :
    (key : String) (a : Analyzer) (registry : Registry)
    → find key (registry ++ a ∷ []) ≡ (elim (find key registry) [
      | some b ↦ some b
      | none ↦ if str_eq a.key key then some a else none
    ])
unfolding find
find-append key a [] = refl
find-append key a (b ∷ registry) = ground (arith, find-append key a registry)

register_lem :
    (a : Analyzer) (registry after : Registry)
    → register a registry ≡ ok after
    → (find a.key registry ≡ none) × (after ≡ registry ++ a ∷ [])
unfolding register
register_lem a registry after h = ground arith

-- After a registration that is accepted, its key, which was free, gives the new analyzer, and
-- every other key gives what it gave before.
pub get-register :
    (a : Analyzer) (registry after : Registry) (key : String)
    → register a registry ≡ ok after
    → (get a.key registry ≡ err unknown_key)
      × (get a.key after ≡ ok a)
      × (key ≢ a.key → get key after ≡ get key registry)
unfolding get
get-register a registry after key h =
    let (free, grown) = register_lem a registry after h in
    (
      rw free,
      rw (grown, find-append, free, eq_refl),
      λ other. rw (grown, find-append) (ground (arith, eq_iff a.key key)),
    )
