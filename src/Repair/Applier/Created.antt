-- ===== src/Repair/Applier/Created.antt =====
-- What the transaction has created once it returns.
use taint_forge_io_t.Prelude.{
  Bool-cases, List, Option, Result, [], arith, err, inl, inr, none, ok, refl, some, true, ℕ, ◌∷◌,
  ◌≡◌,
}
use taint_forge_io_t.Repair.Applier.Apply.{
  Transaction, add_path, after_make, create_all, existing_error, stop_or,
}
use taint_forge_io_t.Repair.Applier.Guard.{RepairApplicationError}
use taint_forge_io_t.Repair.Applier.Preflight.{path_in}
use taint_forge_io_t.Repair.Applier.Rootfs.{
  Faults, Made, Node, NodePath, Rootfs, directory_node, exists_already, find_node,
  is_directory_node, is_present, lstat, made, make_directory, path_eq, path_eq_refl, path_eq→eq,
  refused, regular_node, symlink_node,
}
use taint_forge_io_t.Repair.Applier.Tree.{lstat-grown, make_directory-made}

directory-existing :
    (o : Option Node) → is_present o ≡ true → existing_error o ≡ none → is_directory_node o ≡ true
directory-existing none h e = ground arith
directory-existing (some (directory_node m)) h e = refl
directory-existing (some symlink_node) h e = ground arith
directory-existing (some regular_node) h e = ground arith

module _ (faults : Faults) where
  -- The directories of `t` are directories of `t'`.
  pub record Keeps (t t' : Transaction) : Type 0 where
    pub keeps :
        (q : NodePath)
        → is_directory_node (lstat q t.rootfs) ≡ true
        → is_directory_node (lstat q t'.rootfs) ≡ true

  abbrev pub AllMade : List NodePath → Transaction → Type 0
  AllMade ps t = (q : NodePath) → path_in q ps ≡ true → is_directory_node (lstat q t.rootfs) ≡ true

  -- Where an existing path stops the loop unless it is a directory.
  existing-directory :
      (p : NodePath) (mode : ℕ) (fs : Rootfs)
      → make_directory faults p mode fs ≡ exists_already
      → existing_error (lstat p fs) ≡ none
      → is_directory_node (lstat p fs) ≡ true
  unfolding make_directory lstat
  existing-directory [] mode fs h e = refl
  existing-directory (c ∷ p) mode fs h e =
      directory-existing (find_node (c ∷ p) fs) (ground arith) e

  lstat-made :
      (p : NodePath) (mode : ℕ) (fs fs' : Rootfs)
      → make_directory faults p mode fs ≡ made fs'
      → (is_directory_node (lstat p fs') ≡ true)
        × ((q : NodePath)
            → is_directory_node (lstat q fs) ≡ true
            → is_directory_node (lstat q fs') ≡ true)
  unfolding make_directory lstat find_node
  lstat-made [] mode fs fs' h = ground arith
  lstat-made (c ∷ p) mode fs fs' h =
      let (gone, parent, same) = make_directory-made faults c p mode fs fs' h in
      rw same (ground (arith, path_eq_refl (c ∷ p)), λ q. lstat-grown c p mode fs q)

  abbrev pub Created :
      List NodePath
      → Transaction
      → Result RepairApplicationError (List NodePath) × Transaction
      → Type 0
  Created ps t s = (made_paths : List NodePath) → s.0 ≡ ok made_paths → Keeps t s.1 × AllMade ps s.1

  add_path-ok :
      (p : NodePath) (s : Result RepairApplicationError (List NodePath) × Transaction)
      (made_paths : List NodePath)
      → (add_path p s).0 ≡ ok made_paths
      → (earlier : List NodePath) × (s.0 ≡ ok earlier) × ((add_path p s).1 ≡ s.1)
  add_path-ok p (ok ps, t) made_paths h = (ps, refl, refl)
  add_path-ok p (err e, t) made_paths h = cc

  path_in-cons :
      (p q : NodePath) (ps : List NodePath) (t : Transaction)
      → is_directory_node (lstat p t.rootfs) ≡ true
      → AllMade ps t
      → path_in q (p ∷ ps) ≡ true
      → is_directory_node (lstat q t.rootfs) ≡ true
  path_in-cons p q ps t h rest k = elim (Bool-cases (path_eq q p)) [
    | inl e ↦ rw (path_eq→eq q p e) h
    | inr e ↦ rest q (ground arith)
  ]

  after_existing-Created :
      (p : NodePath) (ps : List NodePath) (t : Transaction)
      (s : Result RepairApplicationError (List NodePath) × Transaction)
      (o : Option RepairApplicationError)
      → Created ps t s
      → (o ≡ none → is_directory_node (lstat p t.rootfs) ≡ true)
      → Created (p ∷ ps) t (stop_or o t s)
  after_existing-Created p ps t s none rest here made_paths h =
      let (keeps, all_made) = rest made_paths h in
      (keeps, λ q k. path_in-cons p q ps s.1 (keeps.keeps p (here refl)) all_made k)
  after_existing-Created p ps t s (some e) rest here made_paths h = cc

  after_make-Created :
      (p : NodePath) (mode : ℕ) (ps : List NodePath) (t : Transaction)
      (go : Transaction → Result RepairApplicationError (List NodePath) × Transaction)
      → ((t' : Transaction) → Created ps t' (go t'))
      → (m : Made) → make_directory faults p mode t.rootfs ≡ m
      → Created (p ∷ ps) t (after_make p t go m)
  after_make-Created p mode ps t go rest (made fs) e made_paths h =
      let (present_now, kept) = lstat-made p mode t.rootfs fs e in
      let t' : Transaction = record { rootfs = fs; created = p ∷ t.created } in
      let (earlier, h', same) = add_path-ok p (go t') made_paths h in
      let (keeps, all_made) = rest t' earlier h' in
      rw same (
        record { keeps = λ q k. keeps.keeps q (kept q k) },
        λ q k. path_in-cons p q ps (go t').1 (keeps.keeps p present_now) all_made k,
      )
  after_make-Created p mode ps t go rest exists_already e made_paths h =
      after_existing-Created p ps t (go t) (existing_error (lstat p t.rootfs)) (rest t)
        (existing-directory p mode t.rootfs e) made_paths h
  after_make-Created p mode ps t go rest (refused fs) e made_paths h = cc

  pub create_all-Created :
      (mode : ℕ) (ps : List NodePath) (t : Transaction) → Created ps t (create_all faults mode ps t)
  unfolding create_all
  create_all-Created mode [] t made_paths h = (record { keeps = λ q k. k }, λ q k. ground arith)
  create_all-Created mode (p ∷ ps) t made_paths h =
      after_make-Created p mode ps t (λ t'. create_all faults mode ps t')
        (λ t'. create_all-Created mode ps t') (make_directory faults p mode t.rootfs) refl
        made_paths h
