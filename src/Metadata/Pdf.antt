-- ===== src/Metadata/Pdf.antt =====
-- `_pdf_page_count` of backend/app/analyzers/metadata_analyzer/analyzer.py. The pattern
-- `/Type\s+/Page\b` is tried at every position: a match never starts inside another one.
use sentinal.Prelude.{
  ℕ, suc, String, Bool, true, false, not, ◌&&◌, ◌||◌, List, [], ◌∷◌, ◌==◌, leb, drop, if◌then◌else◌,
}
use sentinal.Prelude.Outcome.{Result, ok, err}
use sentinal.Validation.MediaType.{codes}
use sentinal.Metadata.Bytes.{starts_with}

-- `needle in content`
unfoldable pub contains : List ℕ → List ℕ → Bool
unfolding starts_with
contains needle [] = starts_with needle []
contains needle (b ∷ content) = starts_with needle (b ∷ content) || contains needle content

-- `\s` in a pattern over bytes
abbrev is_space : ℕ → Bool
is_space b = b == 32 || (leb 9 b && leb b 13)

-- `\w` in a pattern over bytes
abbrev is_word : ℕ → Bool
is_word b =
    (leb b'a' b && leb b b'z')
    || (leb b'A' b && leb b b'Z')
    || (leb b'0' b && leb b b'9')
    || b == b'_'

-- `\b` behind a word character
abbrev at_boundary : List ℕ → Bool
at_boundary [] = true
at_boundary (b ∷ bs) = not (is_word b)

-- `/Page\b`
abbrev page_word : List ℕ → Bool
page_word content = starts_with (codes "/Page") content && at_boundary (drop 5 content)

-- `\s*/Page\b`
unfoldable pub spaces_page : List ℕ → Bool
unfolding starts_with
spaces_page [] = false
spaces_page (b ∷ content) =
    let rest = spaces_page content in if is_space b then rest else page_word (b ∷ content)

-- `\s+/Page\b`
abbrev some_spaces_page : List ℕ → Bool
some_spaces_page [] = false
some_spaces_page (b ∷ content) = is_space b && spaces_page content

unfoldable pub is_page : List ℕ → Bool
unfolding starts_with spaces_page
is_page content = starts_with (codes "/Type") content && some_spaces_page (drop 5 content)

-- `len(re.findall(pattern, content))`
unfoldable pub count_pages : List ℕ → ℕ
unfolding is_page
count_pages [] = 0
count_pages (b ∷ content) =
    let rest = count_pages content in if is_page (b ∷ content) then suc rest else rest

unfoldable pub pdf_page_count : List ℕ → Result String ℕ
unfolding contains count_pages
pdf_page_count content =
    if not (starts_with (codes "%PDF-") content) || not (contains (codes "%%EOF") content)
    then err "content is not a valid PDF"
    else if count_pages content == 0
    then err "PDF contains no pages"
    else ok (count_pages content)
