-- ===== src/Agent/References.antt =====
-- internal/localfiles/references.go: `ResolveReference`, on a system whose separator is the slash.
use nex_shell.Prelude.{
  ℕ, ◌+◌, ◌≡◌, refl, ap, ◌∙◌, inl, inr, Bool, true, ◌&&◌, ◌||◌, Option, none, some, ◌∷◌, ◌++◌, ltb,
  leb, ◌==◌, if◌then◌else◌, Bool-cases, Bytes, codes, length, get_or, drop, trim_space, has_prefix,
}
use nex_shell.Agent.Paths.{is_empty, clean, validate_path}
use nex_shell.Agent.Policy.{is}

-- What the system says: the host and the path of a URL, the user's home, where the links of a path lead,
-- and whether a path is a regular file. `none` is an error.
pub record Files : Type 0 where
  pub parse_url : Bytes → Option (Bytes × Bytes)
  pub home : Option Bytes
  pub eval_symlinks : Bytes → Option Bytes
  pub is_regular : Bytes → Bool

unfoldable pub is_drive_letter : ℕ → Bool
is_drive_letter c = leb b'A' c && leb c b'Z' || leb b'a' c && leb c b'z'

-- a drive letter and a colon, at that place of a text
unfoldable pub has_drive : ℕ → Bytes → Bool
has_drive i p = is_drive_letter (get_or p i 0) && get_or p (i + 1) 0 == b':'

-- a URL with a drive for its host, in its standard form
unfoldable pub file_url : Bytes → Bytes
file_url p =
    let authority = drop 7 p in
    if leb 2 (length authority) && has_drive 0 authority then codes "file:///" ++ authority else p

unfoldable pub url_path : Option (Bytes × Bytes) → Option Bytes
url_path none = none
url_path (some (host, path)) =
    if is_empty host || is "localhost" host
    then some path
    else if length host == 2 && has_drive 0 host
    then some (host ++ path)
    else none

-- the slash before a drive goes
unfoldable pub without_slash : Bytes → Bytes
without_slash p =
    if ltb 2 (length p) && (get_or p 0 0 == b'/' || get_or p 0 0 == b'\\') && has_drive 1 p
    then drop 1 p
    else p

from_url : Option Bytes → Option Bytes
from_url none = none
from_url (some p) = some (without_slash p)

unfoldable pub local_path : Files → Bytes → Option Bytes
unfolding from_url
local_path fs p =
    if has_prefix (codes "file://") p
    then from_url (url_path (fs.parse_url (file_url p)))
    else some p

in_home : Option Bytes → Bytes → Option Bytes
in_home none p = none
in_home (some home) p = some (clean (home ++ b'/' ∷ p))

unfoldable pub expand_home : Files → Bytes → Option Bytes
unfolding in_home
expand_home fs p = if has_prefix (codes "~/") p then in_home fs.home (drop 2 p) else some p

unfoldable pub regular : Files → Option Bytes → Option Bytes
regular fs none = none
regular fs (some real) = if fs.is_regular real then some real else none

unfoldable pub real_file : Files → Option Bytes → Option Bytes
real_file fs none = none
real_file fs (some p) = if validate_path p then regular fs (fs.eval_symlinks p) else none

home_file : Files → Option Bytes → Option Bytes
home_file fs none = none
home_file fs (some p) = real_file fs (expand_home fs p)

-- `ResolveReference`
unfoldable pub resolve_reference : Files → Bytes → Option Bytes
unfolding home_file
resolve_reference fs value = home_file fs (local_path fs (trim_space value))

-- where a reference may lead
pub record Real (fs : Files) (real : Bytes) : Type 0 where
  pub path : Bytes
  pub valid : validate_path path ≡ true
  pub leads : fs.eval_symlinks path ≡ some real
  pub is_file : fs.is_regular real ≡ true

regular-Real :
    (fs : Files) (p : Bytes) (o : Option Bytes) (real : Bytes)
    → validate_path p ≡ true
    → fs.eval_symlinks p ≡ o
    → regular fs o ≡ some real
    → Real fs real
unfolding regular
regular-Real fs p none real v e h = cc
regular-Real fs p (some q) real v e h = elim (Bool-cases (fs.is_regular q)) [
  | inl y ↦
      let k = rw y at h in
      let same : q ≡ real = cc in
      record { path = p; valid = v; leads = e ∙ ap some same; is_file = rw (← same) y }
  | inr n ↦ let k = rw n at h in cc
]

real_file-Real :
    (fs : Files) (o : Option Bytes) (real : Bytes) → real_file fs o ≡ some real → Real fs real
unfolding real_file
real_file-Real fs none real h = cc
real_file-Real fs (some p) real h = elim (Bool-cases (validate_path p)) [
  | inl v ↦ regular-Real fs p (fs.eval_symlinks p) real v refl (rw v at h)
  | inr n ↦ let k = rw n at h in cc
]

home_file-Real :
    (fs : Files) (o : Option Bytes) (real : Bytes) → home_file fs o ≡ some real → Real fs real
unfolding home_file
home_file-Real fs none real h = cc
home_file-Real fs (some p) real h = real_file-Real fs (expand_home fs p) real h

-- A reference that is accepted leads from a proper absolute path, by its links, to a regular file.
pub resolve_reference-Real :
    (fs : Files) (value real : Bytes) → resolve_reference fs value ≡ some real → Real fs real
unfolding resolve_reference
resolve_reference-Real fs value real h = home_file-Real fs (local_path fs (trim_space value)) real h
