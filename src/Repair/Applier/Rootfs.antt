-- ===== src/Repair/Applier/Rootfs.antt =====
-- A rootfs as `lstat`, `mkdir`, `chmod` and `rmdir` see it.
use taint_forge_io_t.Prelude.{
  Bool, List, Option, Text, [], arith, false, if◌then◌else◌, none, not, refl, some, text_eq,
  text_eq_refl, text_eq→eq, true, ℕ, ◌&&◌, ◌||◌, ◌∷◌, ◌≡◌,
}

-- The components of a path, the innermost first: the parent is the tail, and the root is empty.
abbrev pub NodePath : Type 0
NodePath = List Text

pub data Node : Type 0 where
  directory_node : (mode : ℕ) → Node
  symlink_node regular_node : Node

abbrev pub Rootfs : Type 0
Rootfs = List (NodePath × Node)

abbrev pub path_eq : NodePath → NodePath → Bool
path_eq [] [] = true
path_eq [] (d ∷ q) = false
path_eq (c ∷ p) [] = false
path_eq (c ∷ p) (d ∷ q) = text_eq c d && path_eq p q

pub path_eq→eq : (p q : NodePath) → path_eq p q ≡ true → p ≡ q
path_eq→eq [] [] h = refl
path_eq→eq [] (d ∷ q) h = ground arith
path_eq→eq (c ∷ p) [] h = ground arith
path_eq→eq (c ∷ p) (d ∷ q) h = ground (arith, text_eq→eq c d, path_eq→eq p q)

pub path_eq_refl : (p : NodePath) → path_eq p p ≡ true
path_eq_refl [] = refl
path_eq_refl (c ∷ p) = ground (arith, text_eq_refl c, path_eq_refl p)

unfoldable pub find_node : NodePath → Rootfs → Option Node
find_node p [] = none
find_node p ((q, n) ∷ fs) = if path_eq p q then some n else find_node p fs

-- `lstat`: the root is a directory.
unfoldable pub lstat : NodePath → Rootfs → Option Node
unfolding find_node
lstat [] fs = some (directory_node 0o755)
lstat (c ∷ p) fs = find_node (c ∷ p) fs

unfoldable pub strictly_below : NodePath → NodePath → Bool
strictly_below p [] = false
strictly_below p (c ∷ q) = path_eq p q || strictly_below p q

unfoldable pub has_entries : NodePath → Rootfs → Bool
unfolding strictly_below
has_entries p [] = false
has_entries p ((q, n) ∷ fs) = strictly_below p q || has_entries p fs

unfoldable pub without : NodePath → Rootfs → Rootfs
without p [] = []
without p ((q, n) ∷ fs) = let rest = without p fs in if path_eq p q then rest else (q, n) ∷ rest

abbrev pub is_directory_node : Option Node → Bool
is_directory_node (some (directory_node m)) = true
is_directory_node _ = false

abbrev pub is_present : Option Node → Bool
is_present none = false
is_present (some n) = true

-- Which calls the operating system refuses for its own reasons.
pub record Faults : Type 0 where
  pub lstat_fails : NodePath → Bool
  pub mkdir_fails : NodePath → Bool
  pub chmod_fails : NodePath → Bool
  pub rmdir_fails : NodePath → Bool

-- `mkdir(mode)` and `chmod(mode)`: the directory is there with its mode, the path exists already,
-- or an error, which leaves the directory behind if it is `chmod` that fails.
pub data Made : Type 0 where
  made : Rootfs → Made
  exists_already : Made
  refused : Rootfs → Made

module _ (faults : Faults) where
  unfoldable pub make_directory : NodePath → ℕ → Rootfs → Made
  unfolding lstat
  make_directory [] mode fs = exists_already
  make_directory (c ∷ p) mode fs =
      if is_present (lstat (c ∷ p) fs)
      then exists_already
      else if faults.mkdir_fails (c ∷ p) || not (is_directory_node (lstat p fs))
      then refused fs
      else if faults.chmod_fails (c ∷ p)
      then refused ((c ∷ p, directory_node mode) ∷ fs)
      else made ((c ∷ p, directory_node mode) ∷ fs)

  -- `rmdir`, with the error that `_rollback` reports.
  unfoldable pub remove_directory : NodePath → Rootfs → Rootfs × Bool
  unfolding lstat has_entries without
  remove_directory [] fs = (fs, true)
  remove_directory (c ∷ p) fs =
      if not (is_present (lstat (c ∷ p) fs))
      then (fs, false)
      else if faults.rmdir_fails (c ∷ p)
          || not (is_directory_node (lstat (c ∷ p) fs))
          || has_entries (c ∷ p) fs
      then (fs, true)
      else (without (c ∷ p) fs, false)
