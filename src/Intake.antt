-- ===== src/Intake.antt =====
-- backend/app/application/services/upload_service.py: the object key of an upload
-- (`_derive_storage_key`). A text is the list of its code points; the date and the identifier come
-- from outside and are arguments, as texts.
pub mod Names
pub mod Tables
pub mod World
pub mod Process
pub mod Handle
pub mod Keeps
pub mod Contents
pub mod Lookups
pub mod Resolving
pub mod Stages
pub mod Begin
pub mod Inserts
pub mod Refinement
pub mod Rows
pub mod Remembered
pub mod Tracking
pub mod Tracked
pub mod Retry
pub mod Completed
pub mod Cleanup
use sentinal.Prelude.{
  ℕ, Bool, true, false, not, ◌&&◌, ◌||◌, List, [], ◌∷◌, ◌++◌, ◌==◌, leb, if◌then◌else◌,
}
use sentinal.Validation.MediaType.{Text, codes}

-- `[A-Za-z0-9._-]`
unfoldable pub is_usual : ℕ → Bool
is_usual c =
    (leb b'A' c && leb c b'Z')
    || (leb b'a' c && leb c b'z')
    || (leb b'0' c && leb c b'9')
    || c == b'.'
    || c == b'_'
    || c == b'-'

-- `_UNSAFE_FILENAME_CHARS.sub("_", ...)`: a run of other characters becomes one underscore.
unfoldable pub sub_unusual : (in_run : Bool) → Text → Text
sub_unusual in_run [] = []
sub_unusual in_run (c ∷ s) =
    let outside = sub_unusual false s in
    let inside = sub_unusual true s in
    if is_usual c then c ∷ outside else if in_run then inside else b'_' ∷ inside

-- `re.sub(r"\.{2,}", ".", ...)`
unfoldable pub sub_dots : (after_dot : Bool) → Text → Text
sub_dots after_dot [] = []
sub_dots after_dot (c ∷ s) =
    let behind = sub_dots true s in
    let other = sub_dots false s in
    if c == b'.' then (if after_dot then behind else c ∷ behind) else c ∷ other

-- `.lstrip(".")`
unfoldable pub lstrip_dots : Text → Text
lstrip_dots [] = []
lstrip_dots (c ∷ s) = let rest = lstrip_dots s in if c == b'.' then rest else c ∷ s

unfoldable pub safe_name : Text → Text
unfolding sub_unusual sub_dots lstrip_dots
safe_name filename = lstrip_dots (sub_dots false (sub_unusual false filename))

unfoldable pub derive_storage_key : (date upload_id original_filename : Text) → Text
unfolding safe_name
derive_storage_key date upload_id original_filename =
    codes "uploads/" ++ date ++ codes "/" ++ upload_id ++ codes "/" ++ safe_name original_filename
