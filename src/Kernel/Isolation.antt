-- ===== src/Kernel/Isolation.antt =====
-- packages/autodub-core/src/autodub_core/isolation.py. Paths are POSIX paths in a file system
-- without symbolic links: an absolute path is the list of its components.
pub mod Components
pub mod Roots
pub mod Pin
mod Tests
use open_video_trans.Common.{
  ℕ, String, Bool, true, false, not, ◌&&◌, ◌||◌, Option, none, some, List, [], ◌∷◌, ◌++◌, Result,
  ok, err, ◌>>=◌, ltb, eqb, if◌then◌else◌, map,
}
use open_video_trans.Common.Chars.{
  Text, codes, eq_text, has, any_char, text_in, drop_while_end, strip,
}
use open_video_trans.Providers.Select.{Provider, SelectError}

-- PathEscapeError, by its message, and PaidPinViolation.
pub data IsolationError : Type 0 where
  empty_or_padded self_reference trailing_dot illegal_character control_character reserved_name :
      IsolationError
  escapes_root : IsolationError

-- _ILLEGAL_IN_COMPONENT
abbrev pub illegal_in_component : Text
illegal_in_component = codes "/\\:<>\"|?*"

-- _RESERVED_NAMES
abbrev pub reserved_names : List Text
reserved_names = map codes (
    "CON" ∷ "PRN" ∷ "AUX" ∷ "NUL" ∷ "COM1" ∷ "COM2" ∷ "COM3" ∷ "COM4" ∷ "COM5" ∷ "COM6" ∷ "COM7"
    ∷ "COM8" ∷ "COM9" ∷ "LPT1" ∷ "LPT2" ∷ "LPT3" ∷ "LPT4" ∷ "LPT5" ∷ "LPT6" ∷ "LPT7" ∷ "LPT8"
    ∷ "LPT9" ∷ [])

abbrev pub is_dot : ℕ → Bool
is_dot c = eqb c b'.'

abbrev pub starts_dot_dot : ℕ → Text → Bool
starts_dot_dot a [] = false
starts_dot_dot a (b ∷ s) = is_dot a && is_dot b

-- `".." in s`
abbrev pub has_dot_dot : Text → Bool
has_dot_dot [] = false
has_dot_dot (a ∷ s) = starts_dot_dot a s || has_dot_dot s

-- `s.split(".")[0]`
abbrev pub before_dot : Text → Text
before_dot [] = []
before_dot (c ∷ s) = if is_dot c then [] else c ∷ before_dot s

-- `safe_component(value)`, over Python's `str.upper`.
unfoldable pub safe_component : (Text → Text) → Text → Result IsolationError Text
safe_component upper value =
    if eq_text value [] || not (eq_text value (strip value))
    then err empty_or_padded
    else if eq_text value (codes ".") || eq_text value (codes "..")
    then err self_reference
    else if not (eq_text value (drop_while_end is_dot value))
    then err trailing_dot
    else if has_dot_dot value || any_char (λ ch. has ch value) illegal_in_component
    then err illegal_character
    else if any_char (λ ch. ltb ch 32) value
    then err control_character
    else if text_in (before_dot (upper value)) reserved_names
    then err reserved_name
    else ok value

-- The components that pathlib makes of a text: split at "/", without "" and ".".
abbrev pub keep_part : Text → List Text → List Text
keep_part part rest = if eq_text part [] || eq_text part (codes ".") then rest else part ∷ rest

abbrev pub split_parts : Text → Text → List Text
split_parts current [] = keep_part current []
split_parts current (c ∷ s) =
    let cut = keep_part current (split_parts [] s) in
    let longer = split_parts (current ++ c ∷ []) s in if eqb c b'/' then cut else longer

abbrev pub is_absolute : Text → Bool
is_absolute [] = false
is_absolute (c ∷ s) = eqb c b'/'

-- `path / s`
unfoldable pub join_path : List Text → Text → List Text
join_path path s = if is_absolute s then split_parts [] s else path ++ split_parts [] s

abbrev pub parent : List Text → List Text
parent [] = []
parent (p ∷ []) = []
parent (p ∷ q ∷ ps) = p ∷ parent (q ∷ ps)

abbrev pub collapse : List Text → List Text → List Text
collapse done [] = done
collapse done (p ∷ ps) =
    collapse (if eq_text p (codes "..") then parent done else done ++ p ∷ []) ps

-- `path.resolve()`
unfoldable pub resolve : List Text → List Text
resolve path = collapse [] path

-- `path.is_relative_to(root)`
abbrev pub is_relative_to : List Text → List Text → Bool
is_relative_to path [] = true
is_relative_to [] (r ∷ root) = false
is_relative_to (p ∷ path) (r ∷ root) = eq_text p r && is_relative_to path root

unfoldable pub ensure_within : List Text → List Text → Result IsolationError (List Text)
ensure_within root candidate =
    if is_relative_to (resolve candidate) (resolve root)
    then ok (resolve candidate)
    else err escapes_root

unfoldable pub job_root :
    (Text → Text) → List Text → Text → Text → Result IsolationError (List Text)
job_root upper base_dir owner_id job_id = do
  let base = resolve base_dir
  owner ← safe_component upper owner_id
  job ← safe_component upper job_id
  ensure_within base (join_path (join_path base owner) job)

-- What `select` of the pinned resolver raises.
pub data PinnedError : Type 0 where
  paid_pin_violation : PinnedError
  raised : SelectError → PinnedError

abbrev pub Select : Type 0
Select = String → Option String → Bool → Result SelectError Provider

abbrev pub pass_on : Result SelectError Provider → Result PinnedError Provider
pass_on (ok p) = ok p
pass_on (err e) = err (raised e)

-- `_PaidPinnedResolver(inner).select(kind, requested, allow_paid)`
unfoldable pub pinned_select : Select → String → Option String → Bool → Result PinnedError Provider
pinned_select inner kind requested allow_paid =
    if allow_paid then err paid_pin_violation else pass_on (inner kind requested allow_paid)
