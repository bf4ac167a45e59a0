-- ===== src/Agent/Paths.antt =====
-- internal/localfiles/files.go: `ValidatePath` and `Within`, with what they use of path/filepath on Unix,
-- where it agrees with path.
pub mod Clean
pub mod Within
use nex_shell.Prelude.{
  ℕ, zero, suc, Option, none, some, Bool, true, false, not, ◌&&◌, ◌||◌, List, [], ◌∷◌, ◌++◌, ◌==◌,
  if◌then◌else◌, Bytes, length, codes, bytes_equal,
}

unfoldable pub has_byte : ℕ → Bytes → Bool
has_byte c [] = false
has_byte c (x ∷ s) = x == c || has_byte c s

-- `path.IsAbs`
unfoldable pub is_abs : Bytes → Bool
is_abs [] = false
is_abs (x ∷ s) = x == b'/'

-- `strings.Split(s, "/")`
put_first : ℕ → List Bytes → List Bytes
put_first x [] = (x ∷ []) ∷ []
put_first x (c ∷ rest) = (x ∷ c) ∷ rest

unfoldable pub elements : Bytes → List Bytes
unfolding put_first
elements [] = [] ∷ []
elements (x ∷ s) = let rest = elements s in if x == b'/' then [] ∷ rest else put_first x rest

unfoldable pub join : List Bytes → Bytes
join [] = []
join (c ∷ []) = c
join (c ∷ d ∷ rest) = c ++ (b'/' ∷ join (d ∷ rest))

unfoldable pub is_empty : Bytes → Bool
is_empty [] = true
is_empty (x ∷ s) = false

dropped_last : List Bytes → List Bytes
dropped_last [] = []
dropped_last (c ∷ stack) = stack

-- The elements that remain, last first: `.` and empty ones go, and `..` takes one before it along.
unfoldable pub resolve : List Bytes → List Bytes → List Bytes
unfolding is_empty dropped_last
resolve stack [] = stack
resolve stack (c ∷ rest) =
    let skipped = resolve stack rest in
    let popped = resolve (dropped_last stack) rest in
    let pushed = resolve (c ∷ stack) rest in
    if is_empty c || bytes_equal c (codes ".")
    then skipped
    else if bytes_equal c (codes "..")
    then popped
    else pushed

unfoldable pub reversed : List Bytes → List Bytes → List Bytes
reversed [] done = done
reversed (c ∷ stack) done = reversed stack (c ∷ done)

unfoldable pub clean_elements : Bytes → List Bytes
clean_elements p = reversed (resolve [] (elements p)) []

-- `path.Clean`, of a path that is absolute
unfoldable pub clean : Bytes → Bytes
clean p = b'/' ∷ join (clean_elements p)

-- `ValidatePath`; `false` is the error
unfoldable pub validate_path : Bytes → Bool
unfolding has_byte is_abs is_empty
validate_path p = not (is_empty p) && not (has_byte 0 p) && is_abs p && bytes_equal (clean p) p

-- `filepath.Rel`, on the elements of two absolute paths
unfoldable pub ups : List Bytes → List Bytes → List Bytes
ups [] rest = rest
ups (c ∷ base) rest = codes ".." ∷ ups base rest

unfoldable pub rel_elements : List Bytes → List Bytes → List Bytes
rel_elements [] target = target
rel_elements (b ∷ base) [] = ups (b ∷ base) []
rel_elements (b ∷ base) (t ∷ target) =
    let further = rel_elements base target in
    if bytes_equal b t then further else ups (b ∷ base) (t ∷ target)

abbrev dot : List Bytes → Bytes
dot [] = codes "."
dot (c ∷ rest) = join (c ∷ rest)

unfoldable pub rel : Bytes → Bytes → Bytes
rel root p = dot (rel_elements (clean_elements root) (clean_elements p))

-- `strings.HasPrefix(s, "../")`
unfoldable pub leaves : Bytes → Bool
leaves (a ∷ b ∷ c ∷ s) = a == b'.' && b == b'.' && c == b'/'
leaves s = false

-- `path.Clean` of a relative path, last element first: `..` stays where it has nothing to take along
unfoldable pub stays_up : List Bytes → Bool
stays_up [] = true
stays_up (c ∷ stack) = bytes_equal c (codes "..")

unfoldable pub resolve_relative : List Bytes → List Bytes → List Bytes
unfolding is_empty dropped_last
resolve_relative stack [] = stack
resolve_relative stack (c ∷ rest) =
    let skipped = resolve_relative stack rest in
    let popped = resolve_relative (dropped_last stack) rest in
    let pushed = resolve_relative (c ∷ stack) rest in
    if is_empty c || bytes_equal c (codes ".")
    then skipped
    else if bytes_equal c (codes "..") && not (stays_up stack)
    then popped
    else pushed

unfoldable pub relative_elements : Bytes → List Bytes
relative_elements p = reversed (resolve_relative [] (elements p)) []

-- `filepath.Rel`, on the elements of two relative paths: an error where the way leads through a `..` of the first
unfoldable pub rel_relative : List Bytes → List Bytes → Option (List Bytes)
rel_relative [] target = some target
rel_relative (b ∷ base) [] = if bytes_equal b (codes "..") then none else some (ups (b ∷ base) [])
rel_relative (b ∷ base) (t ∷ target) =
    let further = rel_relative base target in
    if bytes_equal b t
    then further
    else if bytes_equal b (codes "..")
    then none
    else some (ups (b ∷ base) (t ∷ target))

unfoldable pub stays_inside : Option (List Bytes) → Bool
stays_inside none = false
stays_inside (some names) = not (bytes_equal (dot names) (codes "..")) && not (leaves (dot names))

-- `Within`. Of a relative and an absolute path `filepath.Rel` is an error.
unfoldable pub within : Bytes → Bytes → Bool
within root p =
    if is_abs root && is_abs p
    then not (bytes_equal (rel root p) (codes "..")) && not (leaves (rel root p))
    else if is_abs root || is_abs p
    then false
    else stays_inside (rel_relative (relative_elements root) (relative_elements p))
