-- ===== src/Repair/Applier/Tree.antt =====
-- What the calls of Rootfs.antt do to a rootfs in which every node stands in a directory.
use taint_forge_io_t.Prelude.{
  Bool-cases, Option, Text, [], arith, false, inl, inr, length, none, refl, some, true, ℕ, ◌<◌, ◌∷◌,
  ◌≡◌,
}
use taint_forge_io_t.Repair.Applier.Rootfs.{
  Faults, Node, NodePath, Rootfs, directory_node, find_node, has_entries, is_directory_node,
  is_present, lstat, made, make_directory, path_eq, path_eq_refl, path_eq→eq, remove_directory,
  strictly_below, without,
}

-- Every node stands in a directory.
abbrev pub IsTree : Rootfs → Type 0
IsTree fs =
    (c : Text) (p : NodePath)
    → is_present (find_node (c ∷ p) fs) ≡ true
    → is_directory_node (lstat p fs) ≡ true

present-directory : (o : Option Node) → is_directory_node o ≡ true → is_present o ≡ true
present-directory none h = ground arith
present-directory (some n) h = refl

below-length : (p q : NodePath) → strictly_below p q ≡ true → length p < length q
unfolding strictly_below
below-length p [] h = ground arith
below-length p (c ∷ q) h = elim (Bool-cases (path_eq p q)) [
  | inl e ↦ rw (path_eq→eq p q e) (omega arith)
  | inr e ↦ let shorter = below-length p q (ground arith) in omega arith
]

not_below_self : (p : NodePath) → strictly_below p p ≡ false
not_below_self p = elim (Bool-cases (strictly_below p p)) [
  | inl e ↦ let shorter = below-length p p e in ground arith
  | inr e ↦ e
]

present-below :
    (fs : Rootfs) (p q : NodePath)
    → IsTree fs
    → strictly_below p q ≡ true
    → is_present (lstat q fs) ≡ true
    → is_present (lstat p fs) ≡ true
unfolding strictly_below lstat
present-below fs p [] tree below h = ground arith
present-below fs p (c ∷ q) tree below h =
    let parent = present-directory (lstat q fs) (tree c q h) in
    elim (Bool-cases (path_eq p q)) [
      | inl e ↦ rw (path_eq→eq p q e) parent
      | inr e ↦ present-below fs p q tree (ground arith) parent
    ]

-- With a node that an entry holds, for the entries of a rootfs whose lookups are those of another.
module _ (gs : Rootfs) (tree : IsTree gs) where
  abbrev Within : Rootfs → Type 0
  Within fs =
      (q : NodePath) → is_present (find_node q fs) ≡ true → is_present (find_node q gs) ≡ true

  present-has_entries :
      (p : NodePath) (fs : Rootfs)
      → Within fs
      → has_entries p fs ≡ true
      → is_present (lstat p gs) ≡ true
  unfolding has_entries find_node lstat strictly_below
  present-has_entries p [] within h = ground arith
  present-has_entries p (([], n) ∷ fs) within h =
      present-has_entries p fs (λ q k. within q (ground arith)) (ground arith)
  present-has_entries p ((c ∷ q, n) ∷ fs) within h = elim (Bool-cases (strictly_below p (c ∷ q))) [
    | inl e ↦
        present-below gs p (c ∷ q) tree e (within (c ∷ q) (ground (arith, path_eq_refl (c ∷ q))))
    | inr e ↦ present-has_entries p fs (λ k l. within k (ground arith)) (ground arith)
  ]

without-missing : (p : NodePath) (fs : Rootfs) → find_node p fs ≡ none → without p fs ≡ fs
unfolding without find_node
without-missing p [] h = refl
without-missing p ((q, n) ∷ fs) h = elim (Bool-cases (path_eq p q)) [
  | inl e ↦ ground arith
  | inr e ↦ rw (e, without-missing p fs (ground arith)) refl
]

no_entries-missing :
    (p : NodePath) (fs : Rootfs)
    → IsTree fs
    → is_present (lstat p fs) ≡ false
    → has_entries p fs ≡ false
no_entries-missing p fs tree gone = elim (Bool-cases (has_entries p fs)) [
  | inl e ↦ let found = present-has_entries fs tree p fs (λ q k. k) e in ground arith
  | inr e ↦ e
]

-- A directory added under a directory.
module _ (c : Text) (p : NodePath) (mode : ℕ) (fs : Rootfs) where
  abbrev pub grown : Rootfs
  grown = (c ∷ p, directory_node mode) ∷ fs

  pub lstat-grown :
      (q : NodePath)
      → is_directory_node (lstat q fs) ≡ true
      → is_directory_node (lstat q grown) ≡ true
  unfolding lstat find_node
  lstat-grown [] h = refl
  lstat-grown (d ∷ q) h = ground arith

  pub grown-IsTree : IsTree fs → is_directory_node (lstat p fs) ≡ true → IsTree grown
  unfolding find_node
  grown-IsTree tree parent d q h = elim (Bool-cases (path_eq (d ∷ q) (c ∷ p))) [
    | inl e ↦ rw (path_eq→eq q p (ground arith)) (lstat-grown p parent)
    | inr e ↦ lstat-grown q (tree d q (ground arith))
  ]

module _ (faults : Faults) where
  -- What a call that creates a directory has checked and done.
  pub make_directory-made :
      (c : Text) (p : NodePath) (mode : ℕ) (fs fs' : Rootfs)
      → make_directory faults (c ∷ p) mode fs ≡ made fs'
      → (find_node (c ∷ p) fs ≡ none)
        × (is_directory_node (lstat p fs) ≡ true)
        × (fs' ≡ (c ∷ p, directory_node mode) ∷ fs)
  unfolding make_directory lstat
  make_directory-made c p mode fs fs' h = (ground arith, ground arith, ground arith)

  -- Removing a directory that has just been made restores the rootfs.
  pub remove_directory-made :
      (c : Text) (p : NodePath) (mode : ℕ) (fs : Rootfs)
      → ((q : NodePath) → faults.rmdir_fails q ≡ false)
      → IsTree fs
      → find_node (c ∷ p) fs ≡ none
      → remove_directory faults (c ∷ p) (grown c p mode fs) ≡ (fs, false)
  unfolding remove_directory lstat has_entries without find_node
  remove_directory-made c p mode fs removable tree gone =
      rw
        (
          path_eq_refl (c ∷ p),
          removable (c ∷ p),
          not_below_self (c ∷ p),
          no_entries-missing (c ∷ p) fs tree (ground arith),
          without-missing (c ∷ p) fs gone,
        )
        refl
