-- ===== src/Guest/Paths.antt =====
-- `PurePosixPath` on the code points of a path: its root, its parts and its normal form.
use taint_forge_io_t.Prelude.{
  Bool, List, Text, [], codes, eqb, if◌then◌else◌, keep, not, refl, text_eq, text_in,
  text_starts_with, ℕ, ◌&&◌, ◌++◌, ◌||◌, ◌∷◌, ◌≡◌,
}

abbrev pub slash : ℕ
slash = b'/'

abbrev pub is_slash : ℕ → Bool
is_slash c = eqb c slash

abbrev pub add_code : ℕ → List Text → List Text
add_code c [] = (c ∷ []) ∷ []
add_code c (w ∷ ws) = if is_slash c then [] ∷ w ∷ ws else (c ∷ w) ∷ ws

-- `s.split("/")`
unfoldable pub split : Text → List Text
split [] = [] ∷ []
split (c ∷ s) = add_code c (split s)

abbrev pub is_component : Text → Bool
is_component w = not (text_eq w []) && not (text_eq w (codes "."))

-- The parts behind the root: empty and `.` components are dropped.
unfoldable pub components : Text → List Text
unfolding split
components s = keep is_component (split s)

-- Two slashes at the start are a root of their own; one, or three and more, are `/`.
unfoldable pub root : Text → Text
root s =
    if text_starts_with s (codes "///")
    then codes "/"
    else if text_starts_with s (codes "//")
    then codes "//"
    else if text_starts_with s (codes "/")
    then codes "/"
    else []

unfoldable pub join : List Text → Text
join [] = []
join (w ∷ []) = w
join (w ∷ v ∷ ws) = w ++ (slash ∷ join (v ∷ ws))

abbrev pub or_dot : Text → Text
or_dot [] = codes "."
or_dot (c ∷ s) = c ∷ s

unfoldable pub as_posix : Text → Text
unfolding root components join
as_posix s = or_dot (root s ++ join (components s))

-- `".." in pure.parts`: the root is never `..`.
abbrev pub has_parent_part : List Text → Bool
has_parent_part ws = text_in (codes "..") ws

-- `path == prefix or path.startswith(prefix + "/")`
unfoldable pub is_below : Text → Text → Bool
is_below path prefix = text_eq path prefix || text_starts_with path (prefix ++ (slash ∷ []))

as_posix_tests :
    (as_posix (codes "/a//b/./c/") ≡ codes "/a/b/c")
    × (as_posix (codes "//a") ≡ codes "//a")
    × (as_posix (codes "///a") ≡ codes "/a")
    × (as_posix (codes "") ≡ codes ".")
    × (as_posix (codes "a/../b") ≡ codes "a/../b")
unfolding as_posix
as_posix_tests = (refl, refl, refl, refl, refl)
